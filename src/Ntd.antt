-- ===== src/Ntd.antt =====
-- ntd/aml_ntd.h: the record of an NTD device, and the arithmetic of its blocks.
pub mod Part
pub mod Core
pub mod Blkdevs
mod Tests
use amlnf.Prelude.{ℕ, ◌/◌, ◌%◌, ◌^◌, Option, List, ◌==◌, if◌then◌else◌}
use amlnf.Prelude.Words.{u32, and_long, shr}
use amlnf.Dev.Phydev.{Partition}

-- struct ntd_info, the fields that the modelled code reads or writes. `name` is none for NULL;
-- `priv` is the number of the physical device, `addr` that of the record itself.
pub record NtdInfo : Type 0 where
  pub addr : ℕ
  pub flags : ℕ
  pub size : ℕ
  pub offset : ℕ
  pub blocksize : ℕ
  pub pagesize : ℕ
  pub oobsize : ℕ
  pub blocksize_shift : ℕ
  pub pagesize_shift : ℕ
  pub blocksize_mask : ℕ
  pub name : Option (List ℕ)
  pub index : ℕ
  pub parts : List Partition
  pub priv : ℕ
  pub usecount : ℕ
  pub badblocks : ℕ

unfoldable pub ntd_mod_by_eb : ℕ → NtdInfo → ℕ
unfolding and_long
ntd_mod_by_eb sz ntd =
    if ntd.blocksize_shift == 0 then sz % ntd.blocksize else u32 (and_long sz ntd.blocksize_mask)
