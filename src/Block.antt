-- ===== src/Block.antt =====
-- block/aml_nftl_init.c and block/aml_nftl_block.c: the disks on a flash translation layer. The
-- layer itself is an object file without source; its entry points are parameters.
pub mod Isolated
pub mod Reboot
pub mod Wipe
pub mod Interface
mod Tests
use amlnf.Prelude.{
  ℕ, zero, suc, ◌+◌, ◌-◌, ◌*◌, ◌/◌, ◌%◌, ◌^◌, Bool, true, false, ◌&&◌, ◌||◌, not, Option, none,
  some, List, [], ◌∷◌, ◌==◌, ltb, leb, if◌then◌else◌,
}
use amlnf.Prelude.Int.{ℤ, pos, negsuc, neg, is_neg, is_zero}
use amlnf.Prelude.Words.{u32, u64, shr}
use amlnf.Dev.Phydev.{Partition}
use amlnf.Ntd.Blkdevs.{Op, Segment, Request}

abbrev pub eio : ℕ
eio = 5

-- The entry points of the translation layer: a status, 0 for success, and its state. `read` and
-- `write` take a sector, a number of sectors and a buffer; `write` and `discard` the sync flag too.
pub record Ftl (D : Type 0) : Type 0 where
  pub read : ℕ → ℕ → ℕ → D → ℕ × D
  pub write : ℕ → ℕ → ℕ → ℕ → D → ℕ × D
  pub discard : ℕ → ℕ → ℕ → D → ℕ × D
  pub flush_write_cache : D → ℕ × D
  pub flush_discard_cache : D → ℕ × D
  pub write_pair_page : D → ℕ × D
  pub check_mapping : ℕ → ℕ → D → ℕ × D
  pub discard_partition : ℕ → ℕ → D → ℕ × D
  pub erase_part : D → ℕ × D
  pub set_status : ℕ → D → D
  pub write_cache_nums : D → ℕ
  pub garbage_collect : D → ℕ × D
  pub prio_gc : D → ℕ × D
  pub now : D → ℕ

-- struct aml_nftl_dev, the fields that the modelled code reads or writes, with the state of the
-- translation layer. `nftl_thread` says whether there is one; `size` is in sectors.
pub record NftlDev (D : Type 0) : Type 0 where
  pub size : ℕ
  pub sync_flag : ℕ
  pub reboot_flag : ℕ
  pub ts_write_start : ℕ
  pub nftl_thread : Bool
  pub parts : List Partition
  pub part : D

-- struct aml_nftl_blk: a disk, from `offset` on, in sectors
pub record NftlBlk : Type 0 where
  pub blk_name : List ℕ
  pub blk_offset : ℕ
  pub blk_size : ℕ

-- none for the failure of a disk that starts past the end
unfoldable pub aml_blktrans_initialize : {D : Type 0} → NftlDev D → List ℕ → ℕ → ℕ → Option NftlBlk
aml_blktrans_initialize dev name offset size =
    let offset_t = shr offset 9 in
    let size_t = shr size 9 in
    if ltb offset_t dev.size
    then some (record {
      blk_name = name;
      blk_offset = offset_t;
      blk_size = if leb (u64 (offset_t + size_t)) dev.size then size_t else dev.size - offset_t;
    })
    else none

-- The loop of `aml_nftl_add_ntd` over the partitions of a device: it ends at the first failure.
unfoldable pub make_blks : {D : Type 0} → NftlDev D → List Partition → ℕ → List NftlBlk
unfolding aml_blktrans_initialize
make_blks dev [] cur_offset = []
make_blks dev (part ∷ parts) cur_offset =
    let rest = make_blks dev parts (u64 (cur_offset + part.part_size)) in
    elim (aml_blktrans_initialize dev part.part_name cur_offset part.part_size) [
      | none ↦ []
      | some blk ↦ blk ∷ rest
    ]

-- `memcmp(name, prefix, strlen(prefix)) == 0`, for names that end before their arrays do
unfoldable pub starts_with : List ℕ → List ℕ → Bool
starts_with name [] = true
starts_with [] (c ∷ prefix) = false
starts_with (x ∷ name) (c ∷ prefix) = let rest = starts_with name prefix in (x == c) && rest

-- "media"
abbrev pub media_name : List ℕ
media_name = b'm' ∷ b'e' ∷ b'd' ∷ b'i' ∷ b'a' ∷ []

module _ {D : Type 0} (ftl : Ftl D) where
  abbrev pub with_part : NftlDev D → D → NftlDev D
  with_part dev d = record dev { part = d }

  unfoldable pub blk_nand_read : NftlBlk → ℕ → ℕ → ℕ → NftlDev D → ℕ × NftlDev D
  blk_nand_read blk start len buf dev =
      let (ret, d) = ftl.read (u32 (start + blk.blk_offset)) len buf dev.part in
      (ret, with_part dev d)

  unfoldable pub blk_nand_write : NftlBlk → ℕ → ℕ → ℕ → NftlDev D → ℕ × NftlDev D
  blk_nand_write blk start len buf dev =
      let (ret, d) = ftl.write (u32 (start + blk.blk_offset)) len buf dev.sync_flag dev.part in
      (ret, record dev { part = d; ts_write_start = ftl.now d })

  unfoldable pub blk_nand_discard : NftlBlk → ℕ → ℕ → NftlDev D → ℕ × NftlDev D
  blk_nand_discard blk start len dev =
      let (ret, d) = ftl.discard (u32 (start + blk.blk_offset)) len dev.sync_flag dev.part in
      (ret, record dev { part = d; ts_write_start = ftl.now d })

  unfoldable pub aml_nftl_flush : NftlDev D → ℕ × NftlDev D
  aml_nftl_flush dev = let (ret, d) = ftl.flush_write_cache dev.part in (ret, with_part dev d)

  -- write_sync_flag, in a request that writes
  unfoldable pub write_sync_flag : NftlBlk → Request → NftlDev D → NftlDev D
  unfolding starts_with
  write_sync_flag blk req dev = record dev {
    sync_flag = if starts_with blk.blk_name media_name then 0 else if req.sync then 1 else 0;
  }

  -- One segment of a request with the operation: 0, or -EIO
  unfoldable pub do_segment : Op → NftlBlk → Request → ℕ → ℕ → Segment → NftlDev D → ℤ × NftlDev D
  unfolding blk_nand_read blk_nand_write write_sync_flag
  do_segment Op.read blk req block nblk s dev =
      let (ret, dev') = blk_nand_read blk block nblk s.buf dev in
      ((if ret == 0 then pos 0 else neg eio), dev')
  do_segment Op.write blk req block nblk s dev =
      let (ret, dev') = blk_nand_write blk block nblk s.buf (write_sync_flag blk req dev) in
      ((if ret == 0 then pos 0 else neg eio), dev')
  do_segment Op.flush blk req block nblk s dev = (neg eio, dev)
  do_segment Op.discard blk req block nblk s dev = (neg eio, dev)
  do_segment Op.write_zeroes blk req block nblk s dev = (neg eio, dev)
  do_segment Op.other blk req block nblk s dev = (neg eio, dev)

  -- `pos << SHIFT_PER_SECTOR >> tr->blkshift`
  abbrev pub block_at : ℕ → ℕ → ℕ
  block_at blkshift start = u32 (shr (u64 (start * 2 ^ 9)) blkshift)

  -- `rq_for_each_segment`, left at the first failure
  unfoldable pub do_segments : ℕ → NftlBlk → Request → ℕ → List Segment → NftlDev D → ℤ × NftlDev D
  unfolding do_segment
  do_segments blkshift blk req start [] dev = (pos 0, dev)
  do_segments blkshift blk req start (s ∷ segments) dev =
      let (ret, dev') =
        do_segment req.op blk req (block_at blkshift start) (shr s.bv_len blkshift) s dev in
      let rest = do_segments blkshift blk req (start + shr s.bv_len 9) segments dev' in
      if is_zero ret then rest else (ret, dev')

  -- A request that fits on the disk
  unfoldable pub do_op : Op → ℕ → NftlBlk → Request → NftlDev D → ℤ × NftlDev D
  unfolding do_segments blk_nand_discard
  do_op Op.discard blkshift blk req dev =
      (pos 0, (blk_nand_discard blk (block_at blkshift req.start) req.sectors dev).1)
  do_op Op.write_zeroes blkshift blk req dev =
      (pos 0, (blk_nand_discard blk (block_at blkshift req.start) req.sectors dev).1)
  do_op Op.read blkshift blk req dev = do_segments blkshift blk req req.start req.segments dev
  do_op Op.write blkshift blk req dev = do_segments blkshift blk req req.start req.segments dev
  do_op Op.flush blkshift blk req dev = do_segments blkshift blk req req.start req.segments dev
  do_op Op.other blkshift blk req dev = do_segments blkshift blk req req.start req.segments dev

  -- `capacity` is that of the disk.
  unfoldable pub do_nftltrans_request : ℕ → ℕ → NftlBlk → Request → NftlDev D → ℤ × NftlDev D
  unfolding do_op
  do_nftltrans_request blkshift capacity blk req dev =
      if not (dev.reboot_flag == 0)
      then (pos 0, dev)
      else if ltb capacity (req.start + req.sectors)
      then (neg eio, dev)
      else do_op req.op blkshift blk req dev

  -- One turn of `aml_nftl_thread` under the lock. `NFTL_FLUSH_DATA_TIME` is `period`;
  -- SUPPORT_WEAR_LEVELING is 0.
  unfoldable pub thread_turn : ℕ → NftlDev D → NftlDev D
  thread_turn period dev =
      let late = leb period (ftl.now dev.part - dev.ts_write_start) in
      let d1 =
        if ltb 0 (ftl.write_cache_nums dev.part) && late
        then (ftl.flush_write_cache dev.part).1
        else dev.part in
      let d2 = (ftl.garbage_collect d1).1 in with_part dev (ftl.prio_gc d2).1

  -- The errors are or-ed; here is whether there is one.
  unfoldable pub aml_nftl_reboot_notifier : NftlDev D → Bool × NftlDev D
  aml_nftl_reboot_notifier dev =
      if not (dev.reboot_flag == 0)
      then (false, dev)
      else (let (e1, d1) = ftl.flush_write_cache dev.part in
          let (e2, d2) = ftl.flush_discard_cache d1 in
          let (e3, d3) = ftl.write_pair_page d2 in
          (
            not (e1 == 0) || not (e2 == 0) || not (e3 == 0),
            record dev { part = d3; nftl_thread = false; reboot_flag = 1 },
          ))

  -- A size or offset of all ones is that of the last partition.
  abbrev pub all_ones : ℕ
  all_ones = 2 ^ 64 - 1

  -- `if (check_mapping(...)) discard_partition(...)`
  unfoldable pub discard_mapped : ℕ → ℕ → D → D
  discard_mapped offset size d =
      let (mapped, d') = ftl.check_mapping offset size d in
      if mapped == 0 then d' else (ftl.discard_partition offset size d').1

  -- The loop of `aml_nftl_reinit_part` over the logic partitions
  unfoldable pub discard_parts : List ℕ → List Partition → ℕ → D → D
  unfolding starts_with discard_mapped
  discard_parts name [] tmp_offset d = d
  discard_parts name (p ∷ parts) tmp_offset d =
      let known = not (p.part_offset == all_ones) && not (p.part_size == all_ones) in
      let d' =
        if starts_with p.part_name name
        then discard_mapped tmp_offset (if known then p.part_size else all_ones) d
        else d in
      discard_parts name parts
        (if p.part_size == all_ones then tmp_offset else u64 (tmp_offset + p.part_size)) d'

  -- `kthread_stop`: the thread sets `nftl_thread` to NULL when it ends.
  abbrev pub stopped : NftlDev D → NftlDev D
  stopped dev = record dev { nftl_thread = false }

  -- `restart` is `aml_nftl_initialize(nftl_dev, -1)`, whose failure is only printed. A thread is
  -- stopped; nothing is woken up afterwards, since `nftl_thread` is NULL then, and no new thread is
  -- made.
  unfoldable pub aml_nftl_reinit_part : (D → D) → NftlBlk → NftlDev D → ℕ × NftlDev D
  unfolding discard_parts
  aml_nftl_reinit_part restart blk dev =
      let d = ftl.set_status 0 dev.part in
      let (ret, d') = ftl.erase_part d in
      elim (dev.parts) [
        | [] ↦ (ret, with_part (stopped dev) (restart d'))
        | p ∷ rest ↦ elim rest [
          | [] ↦ (ret, with_part (stopped dev) (restart d'))
          | q ∷ more ↦ (0, with_part (stopped dev) (discard_parts blk.blk_name dev.parts 0 d))
        ]
      ]
