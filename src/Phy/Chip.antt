-- ===== src/Phy/Chip.antt =====
-- include/phynand.h and include/amlnf_ctrl.h: the records of the chip layer, and the option bits.
use amlnf.Prelude.{ℕ, ◌+◌, ◌/◌, ◌%◌, ◌^◌, Bool, Option, ◌==◌, if◌then◌else◌}
use amlnf.Prelude.Int.{ℤ}
use amlnf.Guard.{Guard}

-- chip_state_t
pub data ChipState : Type 0 where
  ready status erasing erase_suspending erase_suspended writing write_suspending write_suspended :
      ChipState
  pm_suspended syncing unloading locking unlocking point shutdown reading reseting : ChipState
  preparing_erase verifying_erase unknown : ChipState

-- Option words are kept as numbers; an option is named by the position of its bit.
-- DEV_SERIAL_CHIP_MODE is `0 << 1`, so that no option word ever has it.
abbrev pub dev_slc_mode : ℕ
dev_slc_mode = 0

abbrev pub dev_multi_chip_mode : ℕ
dev_multi_chip_mode = 1

abbrev pub dev_multi_plane_mode : ℕ
dev_multi_plane_mode = 2

abbrev pub dev_ecc_soft_mode : ℕ
dev_ecc_soft_mode = 3

abbrev pub nand_shut_down : ℕ
nand_shut_down = 16

-- NAND_CTRL_NONE_RB, of the controller's option word
abbrev pub nand_ctrl_none_rb : ℕ
nand_ctrl_none_rb = 1

-- NAND_WRITE_VERIFY is bit 0 of `debug_flag`.
abbrev pub nand_write_verify_bit : ℕ
nand_write_verify_bit = 0

-- `word & (1 << bit)`
abbrev pub has : ℕ → ℕ → Bool
has word bit = word / 2 ^ bit % 2 == 1

-- `word | (1 << bit)`
abbrev pub with_bit : ℕ → ℕ → ℕ
with_bit word bit = if has word bit then word else word + 2 ^ bit

-- Types of flash, `new_type`
abbrev pub sandisk_19nm : ℕ
sandisk_19nm = 40

-- struct chip_ops_para. A buffer is the number of its address, and 0 is NULL.
pub record ChipOpsPara : Type 0 where
  pub page_addr : ℕ
  pub chipnr : ℕ
  pub data_buf : ℕ
  pub oob_buf : ℕ
  pub bit_flip : ℕ
  pub ecc_err : ℕ
  pub ooblen : ℕ
  pub option : ℕ

-- `memset(ops_para, 0, sizeof(struct chip_ops_para))`
abbrev pub zero_para : ChipOpsPara
zero_para = record {
  page_addr = 0;
  chipnr = 0;
  data_buf = 0;
  oob_buf = 0;
  bit_flip = 0;
  ecc_err = 0;
  ooblen = 0;
  option = 0;
}

-- struct nand_flash, the fields that the modelled code reads
pub record Flash : Type 0 where
  pub pagesize : ℕ
  pub blocksize : ℕ
  pub oobsize : ℕ
  pub internal_chipnr : ℕ
  pub new_type : ℕ

-- struct hw_controller, the fields that the modelled code reads or writes
pub record Controller : Type 0 where
  pub chip_num : ℕ
  pub ctrl_option : ℕ
  pub internal_page_nums : ℕ
  pub ctrl_page_addr : ℕ
  pub page_buf : ℕ
  pub ctrl_oob_buf : ℕ
  pub pagelist : ℕ → ℕ
  pub block_shift : ℕ
  pub page_shift : ℕ
  pub bch_mode : ℕ
  pub ecc_steps : ℕ
  pub user_mode : ℕ
  pub ecc_unit : ℕ
  pub mfr_type : ℕ

-- struct amlnand_chip. `blk_status` is the table of `block_status` by chip and block, `none` where
-- the pointer is NULL.
pub record Chip : Type 0 where
  pub state : ChipState
  pub nand_status : ℕ
  pub controller : Controller
  pub ops_para : ChipOpsPara
  pub flash : Flash
  pub bbt_arg_valid : ℕ
  pub blk_status : Option (ℕ → ℕ → ℕ)
  pub debug_flag : ℕ

-- The driver's memory: the chip's record, the pinmux lock with `nand_idleflag`, the write guard of
-- nfc_map.c, and in `dev` all that is outside the modelled code: the controller, the medium, RAM.
pub record World (D : Type 0) : Type 0 where
  pub chip : Chip
  pub idle_flag : ℕ
  pub mutex_held : Bool
  pub guard : Guard
  pub dev : D

-- Which pin state `pinctrl_select_state` is asked for.
pub data PinState : Type 0 where
  rb norb idle : PinState

-- What the driver asks of the kernel. `kmalloc` returns 0 when it fails.
pub record Kernel (D : Type 0) : Type 0 where
  pub select_state : PinState → D → ℤ × D
  pub kmalloc : ℕ → D → ℕ × D

-- struct chip_operation: the chip's operations, called through the record. Those on the bad-block
-- table return `none` when they sleep for ever or follow a NULL table.
pub record ChipOperation (D : Type 0) : Type 0 where
  pub read_page : World D → ℤ × World D
  pub write_page : World D → ℤ × World D
  pub erase_block : World D → ℤ × World D
  pub block_isbad : World D → Option (ℤ × World D)
  pub block_markbad : World D → Option (ℤ × World D)
  pub blk_modify_bbt : ℕ → World D → Option (ℤ × World D)
  pub update_bbt : World D → Option (ℤ × World D)
