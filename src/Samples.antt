-- ===== src/Samples.antt =====
-- Test data: a small chip, a device on it, and operations that log the pages they are given.
use amlnf.Prelude.{ℕ, some, none, true, false, List, [], ◌∷◌}
use amlnf.Prelude.Int.{ℤ, pos}
use amlnf.Guard.{Guard}
use amlnf.Phy.Chip.{ChipState, Chip, World, Kernel, ChipOperation, Flash, Controller, zero_para}
use amlnf.Phy.Bbt.{BbtCalls}
use amlnf.Phy.Controller.{Hw}
use amlnf.Dev.Phydev.{Phydev, PhydevOps, EccMode, Partition}
use amlnf.Ntd.{NtdInfo}
use amlnf.Ntd.Core.{Core, CoreCalls}
use amlnf.Ntd.Blkdevs.{BlktransDev, BlktransOps, Request, Op}
use amlnf.Block.{Ftl, NftlBlk, NftlDev}

-- The medium is the log of what it was asked for, latest first.
abbrev pub Log : Type 0
Log = List ℕ

abbrev pub sample_guard : Guard
sample_guard = record { readonly = 1; allow_markbad = 0; allow_meta = 0; count = 0; log = [] }

abbrev pub sample_kernel : Kernel Log
sample_kernel = record { select_state = λ pin d. (pos 0, d); kmalloc = λ size d. (4096, d) }

abbrev pub sample_flash : Flash
sample_flash = record {
  pagesize = 2048;
  blocksize = 131072;
  oobsize = 64;
  internal_chipnr = 1;
  new_type = 0;
}

abbrev pub sample_controller : Controller
sample_controller = record {
  chip_num = 2;
  ctrl_option = 0;
  internal_page_nums = 65536;
  ctrl_page_addr = 0;
  page_buf = 8192;
  ctrl_oob_buf = 16384;
  pagelist = λ page. page;
  block_shift = 17;
  page_shift = 11;
  bch_mode = 1;
  ecc_steps = 2;
  user_mode = 2;
  ecc_unit = 1024;
  mfr_type = 44;
}

abbrev pub sample_chip : Chip
sample_chip = record {
  state = ChipState.ready;
  nand_status = 0;
  controller = sample_controller;
  ops_para = zero_para;
  flash = sample_flash;
  bbt_arg_valid = 1;
  blk_status = some (λ c b. 0);
  debug_flag = 0;
}

abbrev pub sample_world : World Log
sample_world = record {
  chip = sample_chip;
  idle_flag = 0;
  mutex_held = false;
  guard = sample_guard;
  dev = [];
}

-- A world that allows marks.
abbrev pub open_world : World Log
open_world = record sample_world { guard = record sample_guard { allow_markbad = 1 } }

-- Note the page, and succeed.
abbrev pub logged : World Log → ℤ × World Log
logged w = (pos 0, record w { dev = w.chip.ops_para.page_addr ∷ w.dev })

abbrev pub sample_op : ChipOperation Log
sample_op = record {
  read_page = logged;
  write_page = logged;
  erase_block = logged;
  block_isbad = λ w. some (logged w);
  block_markbad = λ w. some (logged w);
  blk_modify_bbt = λ value w. some (logged w);
  update_bbt = λ w. some (logged w);
}

abbrev pub sample_calls : BbtCalls Log
sample_calls = record {
  read_page = logged;
  write_page = logged;
  amlnand_update_bbt = logged;
  select_chip = λ chipnr d. d;
  memset = λ buf len d. d;
  first_byte = λ buf d. 255;
}

abbrev pub sample_ops : PhydevOps
sample_ops = record {
  mode = EccMode.hw_ecc;
  addr = 131072;
  len = 5000;
  retlen = 0;
  ooblen = 0;
  datbuf = 1024;
  oobbuf = 0;
}

-- A device of 64 blocks, 4 MB from the start of the chip.
abbrev pub sample_phydev : Phydev
sample_phydev = record {
  name = [];
  flags = 0;
  option = 0;
  offset = 4194304;
  size = 8388608;
  erasesize = 131072;
  writesize = 2048;
  oobavail = 64;
  erasesize_shift = 17;
  writesize_shift = 11;
  partitions = [];
  ops = sample_ops;
}

-- A controller that notes its commands and answers at once.
abbrev pub sample_hw : Hw Log
sample_hw = record {
  quene_rb = λ chipnr d. (pos 0, d);
  cmd_ctrl = λ byte latch d. byte ∷ d;
  idle = λ cycles d. d;
  set_usr_byte = λ buf len d. d;
  dma_write = λ addr buf len mode d. (pos 0, d);
  readbyte = λ d. (224, d);
  slc_enter = λ d. (pos 0, d);
  slc_exit = λ d. (pos 0, d);
  check_cmdfifo = λ d. d;
  prepare_oob = λ buf len d. d;
}

-- An NTD device on the sample device.
abbrev pub sample_ntd : NtdInfo
sample_ntd = record {
  addr = 16;
  flags = 1024;
  size = 8388608;
  offset = 4194304;
  blocksize = 131072;
  pagesize = 2048;
  oobsize = 64;
  blocksize_shift = 17;
  pagesize_shift = 11;
  blocksize_mask = 0;
  name = some (b'a' ∷ []);
  index = 0;
  parts = [];
  priv = 1;
  usecount = 0;
  badblocks = 0;
}

abbrev pub sample_core : Core
sample_core = record { ntd_idr = []; info = λ a. sample_ntd; init_available = false }

-- A kernel that gives number 3 and agrees to everything, or refuses to register.
abbrev pub sample_calls_core : ℤ → CoreCalls
sample_calls_core register = record {
  idr_alloc = λ t. some 3;
  init_ntd = pos 0;
  device_register = λ a. register;
  try_module_get = λ a. true;
}

abbrev pub sample_dev : ℕ → BlktransDev
sample_dev devnum = record {
  devnum = devnum;
  size = 16384;
  readonly = 0;
  open_count = 0;
  ref = 1;
  rq_list = [];
  name = [];
}

abbrev pub sample_tr : BlktransOps Log
sample_tr = record {
  part_bits = 2;
  blksize = 512;
  blkshift = 9;
  readsect = none;
  writesect = none;
  discard = none;
  flush = none;
  open_dev = none;
  release_dev = none;
  do_blktrans_request = some (λ req d. (pos 0, d));
}

abbrev pub sample_request : Request
sample_request = record {
  tag = 7;
  op = Op.write;
  sync = true;
  start = 8;
  sectors = 2;
  segments = record { buf = 4096; bv_len = 1024 } ∷ [];
}

-- A translation layer that notes the sectors it is given.
abbrev pub sample_ftl : Ftl Log
sample_ftl = record {
  read = λ start len buf d. (0, start ∷ d);
  write = λ start len buf sync d. (0, start ∷ d);
  discard = λ start len sync d. (0, start ∷ d);
  flush_write_cache = λ d. (0, d);
  flush_discard_cache = λ d. (0, d);
  write_pair_page = λ d. (0, d);
  check_mapping = λ offset size d. (1, d);
  discard_partition = λ offset size d. (0, offset ∷ size ∷ d);
  erase_part = λ d. (0, d);
  set_status = λ status d. d;
  write_cache_nums = λ d. 0;
  garbage_collect = λ d. (0, d);
  prio_gc = λ d. (0, d);
  now = λ d. 0;
}

abbrev pub sample_blk : NftlBlk
sample_blk = record { blk_name = b'b' ∷ []; blk_offset = 100; blk_size = 50 }

-- Partitions "a" and "b", of 51200 bytes each.
abbrev pub part_a : Partition
part_a = record { part_name = b'a' ∷ []; part_size = 51200; part_offset = 0 }

abbrev pub part_b : Partition
part_b = record { part_name = b'b' ∷ []; part_size = 51200; part_offset = 51200 }

abbrev pub sample_nftl : NftlDev Log
sample_nftl = record {
  size = 1000;
  sync_flag = 0;
  reboot_flag = 0;
  ts_write_start = 0;
  nftl_thread = true;
  parts = part_a ∷ part_b ∷ [];
  part = [];
}
