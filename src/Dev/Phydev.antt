-- ===== src/Dev/Phydev.antt =====
-- dev/phydev.c: the device's record, the transfer loop, and the address of a page.
pub mod Io
pub mod Transfer
pub mod Bad
pub mod Pages
pub mod Released
pub mod Readonly
pub mod Marked
pub mod Status
pub mod Refused
mod Tests
use amlnf.Prelude.{
  ℕ, zero, suc, ◌+◌, ◌-◌, ◌*◌, ◌/◌, ◌%◌, ◌^◌, Bool, true, false, ◌&&◌, Option, none, some, List,
  ◌==◌, leb, ltb, if◌then◌else◌,
}
use amlnf.Prelude.Int.{ℤ}
use amlnf.Prelude.Words.{u32, u64, shr, ffs}
use amlnf.Phy.Chip.{
  World, Chip, ChipOpsPara, zero_para, has, with_bit, dev_slc_mode, dev_ecc_soft_mode, sandisk_19nm,
}

-- oob_modes_t
pub data EccMode : Type 0 where
  hw_ecc soft_ecc : EccMode

-- struct phydev_ops
pub record PhydevOps : Type 0 where
  pub mode : EccMode
  pub addr : ℕ
  pub len : ℕ
  pub retlen : ℕ
  pub ooblen : ℕ
  pub datbuf : ℕ
  pub oobbuf : ℕ

-- struct amlnf_partition
pub record Partition : Type 0 where
  pub part_name : List ℕ
  pub part_size : ℕ
  pub part_offset : ℕ

-- struct amlnand_phydev, the fields that the modelled code reads or writes
pub record Phydev : Type 0 where
  pub name : List ℕ
  pub flags : ℕ
  pub option : ℕ
  pub offset : ℕ
  pub size : ℕ
  pub erasesize : ℕ
  pub writesize : ℕ
  pub oobavail : ℕ
  pub erasesize_shift : ℕ
  pub writesize_shift : ℕ
  pub partitions : List Partition
  pub ops : PhydevOps

-- A write to a field of `chip.ops_para`.
abbrev pub with_para : {D : Type 0} → World D → ChipOpsPara → World D
with_para w p = record w { chip = record (w.chip) { ops_para = p } }

-- amlnand_slc_addr_trs
unfoldable pub slc_addr_trs : Chip → Phydev → ℕ
unfolding ffs
slc_addr_trs c p =
    let real_erase_size = u32 (p.erasesize * 2) in
    let real_erase_shift = ffs real_erase_size - 1 in
    let real_page_per_blk = 2 ^ (real_erase_shift - p.writesize_shift) in
    let page_per_blk = 2 ^ (p.erasesize_shift - p.writesize_shift) in
    let blk_num_in_dev = u32 (shr p.ops.addr p.erasesize_shift) in
    let blk_num = shr p.offset real_erase_shift + blk_num_in_dev in
    let page_num =
      u32 (shr p.ops.addr p.writesize_shift + 2 ^ 64 - blk_num_in_dev * page_per_blk) in
    if ltb 0 c.flash.new_type && ltb c.flash.new_type 10
    then u32 (blk_num * real_page_per_blk + c.controller.pagelist page_num)
    else if c.flash.new_type == sandisk_19nm
    then u32 (blk_num * real_page_per_blk + page_num * 2)
    else u32 (shr (u64 (p.offset + p.ops.addr)) p.writesize_shift)

-- The page that a round works on: `addr` moves with the rounds, what `slc_addr_trs` reads does not.
unfoldable pub page_of : Chip → Phydev → ℕ → ℕ → ℕ
unfolding slc_addr_trs
page_of c p option addr =
    if has option dev_slc_mode then slc_addr_trs c p else u32 (shr addr p.writesize_shift)

-- Set `ops_para->page_addr` for the round at `addr`.
unfoldable pub at_page : {D : Type 0} → Phydev → ℕ → World D → World D
unfolding page_of
at_page p addr w =
    with_para w
      (record (w.chip.ops_para) { page_addr = page_of w.chip p w.chip.ops_para.option addr })

-- `ops_para->option |= DEV_ECC_SOFT_MODE` in software mode
abbrev pub with_mode : EccMode → ℕ → ℕ
with_mode EccMode.hw_ecc option = option
with_mode EccMode.soft_ecc option = with_bit option dev_ecc_soft_mode

-- The `while (1)` of a transfer of `len` bytes, `stride` at a time. `body` makes one round at an
-- address: whether it breaks, and what the operation returned. `none` is out of fuel.
unfoldable pub transfer :
    {D : Type 0}
    → ℕ
    → ℕ
    → ℕ
    → (ℕ → World D → Bool × ℤ × World D)
    → ℕ
    → ℕ
    → World D
    → Option (ℤ × ℕ × World D)
transfer zero len stride body addr done w = none
transfer (suc fuel) len stride body addr done w =
    let (stop, ret, w') = body addr w in
    let done' = u64 (done + stride) in
    elim stop [
      | true ↦ some (ret, done, w')
      | false ↦ elim (leb len done') [
        | true ↦ some (ret, done', w')
        | false ↦ transfer fuel len stride body (u64 (addr + stride)) done' w'
      ]
    ]
