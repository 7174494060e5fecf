-- ===== src/Block/Interface/Marked.antt =====
-- block/aml_nftl_hw_interface.c over ntd/aml_ntdpart.c, dev/phydev.c and phy/chip_operation.c: a
-- block that the translation layer marks is not good afterwards.
use amlnf.Prelude.{◌≡◌, ap, some}
use amlnf.Prelude.Int.{ℤ, pos}
use amlnf.Phy.Chip.{World, Kernel}
use amlnf.Phy.Lock.{Selects}
use amlnf.Phy.Bbt.{BbtCalls, Table}
use amlnf.Dev.Phydev.{Phydev}
use amlnf.Dev.Phydev.Marked.{CanMark, chip_operation, nand_markbad-isbad}
use amlnf.Phy.Bbt.Markbad.{KeepsWorld}
use amlnf.Ntd.{NtdInfo}
use amlnf.Ntd.Part.{block_ops, part_block_isbad, part_block_markbad}
use amlnf.Ntd.Part.Page.{phydev_methods}
use amlnf.Block.Interface.{
  PhysicOpPar, answering, good_answer, mark_answer, nand_mark_bad_blk, nand_is_blk_good,
}

module _ {D : Type 0} (k : Kernel D) (calls : BbtCalls D) (erase : World D → ℤ × World D) where
  -- When the physical device may mark the block (CanMark: it is up and not in SLC mode, the chip is
  -- free, marks are allowed, and the valid table has the block as good), every pin state can be
  -- selected, and saving the table and writing a page leave the table, the geometry, the chip's
  -- state and the lock alone, nand_mark_bad_blk returns, and nand_is_blk_good for the same block and
  -- device record then returns 100, which stands for a bad block.
  pub mark_bad-is_blk_good :
      (ntd : NtdInfo) (par : PhysicOpPar) (p : Phydev) (w : World D) (t : Table)
      → let m = phydev_methods k (chip_operation k calls erase) in
        CanMark k calls erase (block_ops m ntd par.blk_no_in_chip p) w t
        → Selects k
        → KeepsWorld k calls calls.amlnand_update_bbt
        → KeepsWorld k calls calls.write_page
        → (r : ℤ × Phydev × World D) × (nand_mark_bad_blk m ntd par p w ≡ some r)
          × (s : ℤ × Phydev × World D) × (nand_is_blk_good m ntd par p r.2 ≡ some s)
          × (s.0 ≡ pos 100)
  unfolding nand_mark_bad_blk nand_is_blk_good answering good_answer part_block_isbad
      part_block_markbad
  mark_bad-is_blk_good ntd par p w t c sel ku kw =
      let m = phydev_methods k (chip_operation k calls erase) in
      let x =
        nand_markbad-isbad k calls erase (block_ops m ntd par.blk_no_in_chip p) w t c sel ku kw in
      (
        (mark_answer x.0.0, x.0.1, x.0.2),
        ap (answering mark_answer) x.1,
        (good_answer x.2.0, x.2.1, x.2.2),
        ap (answering good_answer) x.3,
        ap good_answer x.4,
      )
