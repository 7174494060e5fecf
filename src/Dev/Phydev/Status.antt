-- ===== src/Dev/Phydev/Status.antt =====
-- dev/phydev.c over phy/chip_operation.c: what nand_block_isbad reads in the table, and what it leaves.
use amlnf.Prelude.{ℕ, ◌+◌, ◌-◌, ◌/◌, ◌^◌, ◌≤◌, ◌≡◌, ap, ◌∙◌, false, some, ◌==◌, arith, ltb}
use amlnf.Prelude.Int.{ℤ, is_zero}
use amlnf.Prelude.Words.{u32, u64, shr, ffs}
use amlnf.Phy.Chip.{
  Flash, World, Kernel, has, dev_slc_mode, dev_multi_plane_mode, dev_multi_chip_mode,
  nand_shut_down,
}
use amlnf.Phy.Lock.{
  IsFree, Selects, amlnand_release_device, release_device-IsFree, release_device-chip,
}
use amlnf.Phy.Bbt.{
  BbtCalls, Table, get_blcok_status, status_by_mode, block_isbad, block_of, is_plane, is_multi_chip,
  fold_page_addr,
}
use amlnf.Dev.Phydev.{Phydev}
use amlnf.Dev.Phydev.Bad.{nand_block_isbad}
use amlnf.Dev.Phydev.Marked.{
  chip_operation, on_chip, on_block-returns, block_isbad-status, on_chip-view,
}

-- The block of the chip that holds the device's address
abbrev pub chip_block : Flash → Phydev → ℕ
chip_block flash p =
    shr (u32 (u64 (p.offset + p.ops.addr) / 2 ^ p.writesize_shift))
      (ffs flash.blocksize - ffs flash.pagesize)

pub status-zero : (t : Table) (c b : ℕ) → is_zero (get_blcok_status t c b) ≡ (t c b == 0)
unfolding get_blcok_status
status-zero t c b = ground arith

-- Plain pages: neither in SLC mode, nor on two planes or several chips at once
pub record IsSimple (p : Phydev) : Type 0 where
  pub not_slc : has p.option dev_slc_mode ≡ false
  pub one_plane : has p.option dev_multi_plane_mode ≡ false
  pub one_chip : has p.option dev_multi_chip_mode ≡ false
  pub is_up : has p.option nand_shut_down ≡ false

module _ {D : Type 0} (k : Kernel D) (calls : BbtCalls D) (erase : World D → ℤ × World D)
    (t : Table) (flash : Flash) where
  -- The chip is free, and has this table and geometry.
  pub record HasTable (w : World D) : Type 0 where
    pub is_free : IsFree w
    pub has_table : w.chip.blk_status ≡ some t
    pub has_flash : w.chip.flash ≡ flash

  -- The block of the address, as the chip's operation sees it
  block_on_chip :
      (p : Phydev) (w : World D)
      → has p.option dev_slc_mode ≡ false
      → w.chip.flash ≡ flash
      → block_of (on_chip k calls erase p w).chip ≡ chip_block flash p
  unfolding block_of
  block_on_chip p w ns f =
      let (nr, opt, nr0, page, fl, ct, tab, arg, g, held) = on_chip-view k calls erase p w ns in
      ap (λ (x : ℕ × Flash). shr x.0 (ffs x.1.blocksize - ffs x.1.pagesize))
        (λ i. (page i, (fl ∙ f) i))

  -- In plain mode, what is read is the entry of the first chip.
  status_on_chip :
      (p : Phydev) (w : World D)
      → IsSimple p
      → w.chip.flash ≡ flash
      → let u = (on_chip k calls erase p w).chip in
        status_by_mode
          (is_plane u)
          (is_multi_chip u)
          t
          u.controller.chip_num
          u.ops_para.chipnr
          (block_of u)
        ≡ get_blcok_status t 0 (chip_block flash p)
  unfolding status_by_mode
  status_on_chip p w simple f =
      let (nr, opt, nr0, page, fl, ct, tab, arg, g, held) =
        on_chip-view k calls erase p w simple.not_slc in
      let u = (on_chip k calls erase p w).chip in
      let n = u.controller.chip_num in
      ap (λ b. status_by_mode b (is_multi_chip u) t n u.ops_para.chipnr (block_of u))
        (ap (λ o. has o dev_multi_plane_mode) opt ∙ simple.one_plane)
      ∙ ap (λ b. status_by_mode false b t n u.ops_para.chipnr (block_of u))
          (ap (λ o. has o dev_multi_chip_mode) opt ∙ simple.one_chip)
      ∙ ap (λ c. get_blcok_status t c (block_of u)) nr0
      ∙ ap (get_blcok_status t 0) (block_on_chip p w simple.not_slc f)

  pub isbad-status :
      (p : Phydev) (w : World D)
      → Selects k
      → IsSimple p
      → p.ops.addr ≤ p.size
      → HasTable w
      → (s : ℤ) × (v : World D) × ((nand_block_isbad k (chip_operation k calls erase) p w
            ≡ some (s, p, v))
          × ((s ≡ get_blcok_status t 0 (chip_block flash p)) × HasTable v))
  unfolding nand_block_isbad fold_page_addr
  isbad-status p w sel simple inside h =
      let (nr, opt, nr0, page, fl, ct, tab, arg, g, held) =
        on_chip-view k calls erase p w simple.not_slc in
      let u = on_chip k calls erase p w in
      let u' = record u { chip = fold_page_addr u.chip } in
      let status =
        status_by_mode (is_plane u.chip) (is_multi_chip u.chip) t u.chip.controller.chip_num
          u.chip.ops_para.chipnr (block_of u.chip) in
      let found = block_isbad-status k calls erase u t (tab ∙ h.has_table) in
      let within : ltb p.size p.ops.addr ≡ false = ground arith in
      let chip = release_device-chip k u' in
      (
        status,
        amlnand_release_device k u',
        (
          rw (within, simple.is_up)
              (on_block-returns k calls erase (block_isbad k calls) p w (status, u') sel h.is_free
                found),
          (
            status_on_chip p w simple h.has_flash,
            record {
              is_free =
                  release_device-IsFree k u'
                    (record { is_locked = held.is_locked; is_flagged = held.is_flagged });
              has_table = ap (λ x. x.blk_status) chip ∙ tab ∙ h.has_table;
              has_flash = ap (λ x. x.flash) chip ∙ fl ∙ h.has_flash;
            },
          ),
        ),
      )
