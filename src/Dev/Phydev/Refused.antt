-- ===== src/Dev/Phydev/Refused.antt =====
-- dev/phydev.c over phy/chip_operation.c: nand_block_markbad when nfc_map.c does not allow marks.
use amlnf.Prelude.{
  ◌+◌, ◌≤◌, ◌≡◌, refl, sym, ap, ◌∙◌, Bool, true, false, some, if◌then◌else◌, ◌==◌, arith, ltb,
}
use amlnf.Prelude.Int.{ℤ, neg}
use amlnf.Prelude.Words.{u32}
use amlnf.Guard.{Guard, refused_count, refuse_write}
use amlnf.Guard.Refuse.{refuse_write-count}
use amlnf.Phy.Chip.{Flash, World, Kernel}
use amlnf.Phy.Lock.{Selects, amlnand_release_device, release_device-IsFree, release_device-chip}
use amlnf.Phy.Bbt.{BbtCalls, Table, block_markbad, erofs, block_markbad_name}
use amlnf.Dev.Phydev.{Phydev}
use amlnf.Dev.Phydev.Bad.{nand_block_isbad, nand_block_markbad}
use amlnf.Dev.Phydev.Marked.{chip_operation, on_chip, on_block-returns, on_chip-view}
use amlnf.Dev.Phydev.Status.{IsSimple, HasTable, isbad-status}

guard_of_if :
    {D : Type 0} (b : Bool) (w v : World D) (g : Guard)
    → w.guard ≡ g
    → v.guard ≡ g
    → (if b then w else v).guard ≡ g
guard_of_if true w v g h i = h
guard_of_if false w v g h i = i

release_device-guard :
    {D : Type 0} (k : Kernel D) (w : World D) → (amlnand_release_device k w).guard ≡ w.guard
unfolding amlnand_release_device
release_device-guard k w = guard_of_if (w.idle_flag == 0) _ _ w.guard refl refl

module _ {D : Type 0} (k : Kernel D) (calls : BbtCalls D) (erase : World D → ℤ × World D)
    (t : Table) (flash : Flash) where
  -- The world of the refusal
  refused_on_chip : Phydev → World D → World D
  refused_on_chip p w =
      let u = on_chip k calls erase p w in
      record u { guard = refuse_write u.guard block_markbad_name u.chip.ops_para.page_addr }

  refuses :
      (p : Phydev) (w : World D)
      → IsSimple p
      → w.guard.allow_markbad ≡ 0
      → block_markbad k calls (on_chip k calls erase p w) ≡ some (neg erofs, refused_on_chip p w)
  unfolding block_markbad refused_on_chip
  refuses p w simple h =
      let (nr, opt, nr0, page, fl, ct, tab, arg, g, held) =
        on_chip-view k calls erase p w simple.not_slc in
      let off : ((on_chip k calls erase p w).guard.allow_markbad == 0) ≡ true =
        ground (arith, ap (λ x. x.allow_markbad) g ∙ h) in
      rw (off) refl

  -- What is left by a mark that is not allowed
  pub record IsRefusedMark (p : Phydev) (w w' : World D) : Type 0 where
    pub still_table : HasTable k calls erase t flash w'
    pub counted : refused_count w'.guard ≡ u32 (refused_count w.guard + 1)
    pub as_before :
        (s : ℤ) × (v : World D) × (v' : World D) × ((nand_block_isbad k
              (chip_operation k calls erase)
              p
              w
            ≡ some (s, p, v))
          × (nand_block_isbad k (chip_operation k calls erase) p w' ≡ some (s, p, v')))

  after_refusal :
      (p : Phydev) (w : World D)
      → IsSimple p
      → HasTable k calls erase t flash w
      → HasTable k calls erase t flash (amlnand_release_device k (refused_on_chip p w))
  unfolding refused_on_chip
  after_refusal p w simple h =
      let (nr, opt, nr0, page, fl, ct, tab, arg, g, held) =
        on_chip-view k calls erase p w simple.not_slc in
      let v = refused_on_chip p w in
      let chip = release_device-chip k v in
      record {
        is_free =
            release_device-IsFree k v
              (record { is_locked = held.is_locked; is_flagged = held.is_flagged });
        has_table = ap (λ x. x.blk_status) chip ∙ tab ∙ h.has_table;
        has_flash = ap (λ x. x.flash) chip ∙ fl ∙ h.has_flash;
      }

  refusal-count :
      (p : Phydev) (w : World D)
      → IsSimple p
      → refused_count (amlnand_release_device k (refused_on_chip p w)).guard
        ≡ u32 (refused_count w.guard + 1)
  unfolding refused_on_chip
  refusal-count p w simple =
      let (nr, opt, nr0, page, fl, ct, tab, arg, g, held) =
        on_chip-view k calls erase p w simple.not_slc in
      ap refused_count (release_device-guard k (refused_on_chip p w))
      ∙ refuse_write-count (on_chip k calls erase p w).guard block_markbad_name
          (on_chip k calls erase p w).chip.ops_para.page_addr
      ∙ ap (λ x. u32 (refused_count x + 1)) g

  -- While marks are not allowed, on a device that is up and works on plain pages of the first chip,
  -- inside whose bounds the address is, with a free chip that has a table, when every pin state can be
  -- selected: nand_block_markbad returns -EROFS, gives the chip back, leaves the table and counts one
  -- refusal; and nand_block_isbad answers for the block what it answered before.
  pub nand_markbad-IsRefusedMark :
      (p : Phydev) (w : World D)
      → Selects k
      → IsSimple p
      → p.ops.addr ≤ p.size
      → HasTable k calls erase t flash w
      → w.guard.allow_markbad ≡ 0
      → (w' : World D) × ((nand_block_markbad k (chip_operation k calls erase) p w
            ≡ some (neg erofs, p, w'))
          × IsRefusedMark p w w')
  unfolding nand_block_markbad
  nand_markbad-IsRefusedMark p w sel simple inside h off =
      let within : ltb p.size p.ops.addr ≡ false = ground arith in
      let w' = amlnand_release_device k (refused_on_chip p w) in
      let h' = after_refusal p w simple h in
      let (s, v, (e, (z, a))) = isbad-status k calls erase t flash p w sel simple inside h in
      let (s', v', (e', (z', a'))) = isbad-status k calls erase t flash p w' sel simple inside h' in
      (
        w',
        (
          rw (within, simple.is_up)
              (on_block-returns k calls erase (block_markbad k calls) p w
                (neg erofs, refused_on_chip p w) sel h.is_free (refuses p w simple off)),
          record {
            still_table = h';
            counted = refusal-count p w simple;
            as_before = (s, v, v', (e, e' ∙ ap (λ x. some (x, p, v')) (z' ∙ sym z)));
          },
        ),
      )
