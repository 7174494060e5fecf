-- ===== src/Phy/Program/Readonly.antt =====
-- phy/chip_operation.c under nfc_map.c: with the readonly parameter set, nothing is written or erased.
use amlnf.Prelude.{◌+◌, ◌≡◌, ◌≢◌, refl, false, ◌==◌, arith}
use amlnf.Prelude.Int.{ℤ, neg}
use amlnf.Prelude.Words.{u32}
use amlnf.Guard.{refused_count}
use amlnf.Guard.Refuse.{refuse_write-count}
use amlnf.Phy.Chip.{World}
use amlnf.Phy.Bbt.{erofs}
use amlnf.Phy.Controller.{Hw}
use amlnf.Phy.Program.{erase_block, write_page, erase_block_name, write_page_name}

module _ {D : Type 0} (hw : Hw D) where
  -- What a refused operation leaves: all but the count of refusals and the log.
  pub record Untouched (w : World D) (r : ℤ × World D) : Type 0 where
    pub answer : r.0 ≡ neg erofs
    pub same_chip : r.1.chip ≡ w.chip
    pub same_dev : r.1.dev ≡ w.dev
    pub counted : refused_count r.1.guard ≡ u32 (refused_count w.guard + 1)

  -- With the readonly parameter set, erase_block and write_page return -EROFS whatever the state of
  -- the chip and the operation, send no command, and count one refusal each.
  pub readonly-Untouched :
      (w : World D)
      → w.guard.readonly ≢ 0
      → Untouched w (erase_block hw w) × Untouched w (write_page hw w)
  unfolding erase_block write_page
  readonly-Untouched w h =
      let on : (w.guard.readonly == 0) ≡ false = ground (arith, h) in
      rw (on) (
        record {
          answer = refl;
          same_chip = refl;
          same_dev = refl;
          counted = refuse_write-count w.guard erase_block_name w.chip.ops_para.page_addr;
        },
        record {
          answer = refl;
          same_chip = refl;
          same_dev = refl;
          counted = refuse_write-count w.guard write_page_name w.chip.ops_para.page_addr;
        },
      )
