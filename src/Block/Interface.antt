-- ===== src/Block/Interface.antt =====
-- block/aml_nftl_hw_interface.c: what the translation layer calls on its NTD device. The layer's own
-- counters of reads and writes are left out.
pub mod Page
pub mod Marked
mod Tests
use amlnf.Prelude.{
  ℕ, zero, suc, ◌+◌, ◌*◌, ◌/◌, ◌%◌, ◌^◌, Bool, true, false, ◌||◌, Option, none, some, ◌==◌,
  if◌then◌else◌,
}
use amlnf.Prelude.Int.{ℤ, pos, negsuc, neg, is_zero}
use amlnf.Prelude.Words.{u32, u64, shr}
use amlnf.Phy.Chip.{World}
use amlnf.Dev.Phydev.{Phydev}
use amlnf.Dev.Phydev.Io.{euclean}
use amlnf.Ntd.{NtdInfo}
use amlnf.Ntd.Part.{
  Methods, Method, read_page_with_oob, write_page_with_oob, part_erase, part_block_isbad,
  part_block_markbad,
}

abbrev pub ebadmsg : ℕ
ebadmsg = 74

-- `_physic_op_par`, with the fields of its `phy_page` that are read
pub record PhysicOpPar : Type 0 where
  pub page_no : ℕ
  pub blk_no_in_chip : ℕ
  pub main_data_addr : ℕ
  pub spare_data_addr : ℕ

-- `from`, as the 32-bit page that the methods take
unfoldable pub from_page : NtdInfo → PhysicOpPar → ℕ
from_page ntd op =
    u32 (shr (u64 (op.blk_no_in_chip * 2 ^ ntd.blocksize_shift)) ntd.pagesize_shift + op.page_no)

-- Is it -EUCLEAN?
unfoldable pub is_euclean : ℤ → Bool
is_euclean (pos n) = false
is_euclean (negsuc n) = suc n == euclean

-- 0 and -EUCLEAN are passed on, any other answer becomes -EBADMSG.
unfoldable pub read_answer : ℤ → ℤ
unfolding is_euclean
read_answer ret = if is_zero ret || is_euclean ret then ret else neg ebadmsg

-- 0 becomes RET_YES, 1 becomes 100, any other answer is passed on.
unfoldable pub good_answer : ℤ → ℤ
good_answer (pos zero) = pos 1
good_answer (pos (suc zero)) = pos 100
good_answer (pos (suc (suc n))) = pos (suc (suc n))
good_answer (negsuc n) = negsuc n

-- The answer in a `uchar`: is it 0?
unfoldable pub mark_answer : ℤ → ℤ
mark_answer (pos n) = if n % 256 == 0 then pos 0 else pos 1
mark_answer (negsuc n) = if suc n % 256 == 0 then pos 0 else pos 1

-- The answer of a method, changed
unfoldable pub answering :
    {D : Type 0} → (ℤ → ℤ) → Option (ℤ × Phydev × World D) → Option (ℤ × Phydev × World D)
answering f none = none
answering f (some r) = some (f r.0, r.1, r.2)

module _ {D : Type 0} (m : Methods D) where
  unfoldable pub nand_erase_superblk : NtdInfo → PhysicOpPar → Method D
  nand_erase_superblk ntd op p w = part_erase m ntd op.blk_no_in_chip p w

  unfoldable pub nand_read_page : NtdInfo → PhysicOpPar → Method D
  unfolding from_page read_answer answering
  nand_read_page ntd op p w =
      answering read_answer
        (read_page_with_oob m ntd (from_page ntd op) op.spare_data_addr op.main_data_addr p w)

  unfoldable pub nand_write_page : NtdInfo → PhysicOpPar → Method D
  unfolding from_page
  nand_write_page ntd op p w =
      write_page_with_oob m ntd (from_page ntd op) op.spare_data_addr op.main_data_addr p w

  unfoldable pub nand_is_blk_good : NtdInfo → PhysicOpPar → Method D
  unfolding good_answer answering
  nand_is_blk_good ntd op p w = answering good_answer (part_block_isbad m ntd op.blk_no_in_chip p w)

  unfoldable pub nand_mark_bad_blk : NtdInfo → PhysicOpPar → Method D
  unfolding mark_answer answering
  nand_mark_bad_blk ntd op p w =
      answering mark_answer (part_block_markbad m ntd op.blk_no_in_chip p w)
