-- ===== src/Phy/Bbt/Markbad.antt =====
-- phy/chip_operation.c: block_markbad on a good block marks it, and block_isbad then finds it bad.
use amlnf.Prelude.{ℕ, ◌≡◌, ◌≢◌, refl, ap, ◌∙◌, false, some, arith, ◌==◌, if◌then◌else◌}
use amlnf.Prelude.Int.{ℤ, neg, is_neg}
use amlnf.Phy.Chip.{World, Kernel}
use amlnf.Phy.Lock.{is_ready}
use amlnf.Phy.Bbt.{
  BbtCalls, Table, block_markbad, marked, write_mark, fold_page_addr, block_of, nand_write_failed,
  take_chip, give_chip, mark_page, finish_mark,
}

-- What a call leaves as it was: the table, the geometry, the chip's state and the lock.
pub record Keeps {D : Type 0} (w v : World D) : Type 0 where
  pub same_table : v.chip.blk_status ≡ w.chip.blk_status
  pub same_flash : v.chip.flash ≡ w.chip.flash
  pub same_num : v.chip.controller.chip_num ≡ w.chip.controller.chip_num
  pub same_state : v.chip.state ≡ w.chip.state
  pub same_lock : v.mutex_held ≡ w.mutex_held
  pub same_flag : v.idle_flag ≡ w.idle_flag

pub Keeps-trans : {D : Type 0} (w v u : World D) → Keeps w v → Keeps v u → Keeps w u
Keeps-trans w v u a b = record {
  same_table = b.same_table ∙ a.same_table;
  same_flash = b.same_flash ∙ a.same_flash;
  same_num = b.same_num ∙ a.same_num;
  same_state = b.same_state ∙ a.same_state;
  same_lock = b.same_lock ∙ a.same_lock;
  same_flag = b.same_flag ∙ a.same_flag;
}

module _ {D : Type 0} (k : Kernel D) (calls : BbtCalls D) where
  abbrev pub KeepsWorld : (World D → ℤ × World D) → Type 0
  KeepsWorld run = (w : World D) → Keeps w (run w).1

  not_locked :
      (w v : World D)
      → is_ready w.chip.state ≡ false
      → v.chip.state ≡ w.chip.state
      → is_ready v.chip.state ≡ false
  not_locked w v nr e = ap is_ready e ∙ nr

  take_chip-held : (w : World D) → is_ready w.chip.state ≡ false → take_chip k calls w ≡ some w
  unfolding take_chip
  take_chip-held w h = rw (h) refl

  give_chip-held : (w : World D) → is_ready w.chip.state ≡ false → give_chip k calls w ≡ w
  unfolding give_chip
  give_chip-held w h = rw (h) refl

  mark_page-Keeps : (w : World D) → Keeps w (mark_page k calls w)
  unfolding mark_page
  mark_page-Keeps w = record {
    same_table = refl;
    same_flash = refl;
    same_num = refl;
    same_state = refl;
    same_lock = refl;
    same_flag = refl;
  }

  -- Somebody has the chip, so that the lock is not taken again.
  write_mark-Keeps :
      (w : World D)
      → is_ready w.chip.state ≡ false
      → KeepsWorld calls.write_page
      → (r : ℤ × World D) × (write_mark k calls w ≡ some r) × Keeps w r.1
  unfolding write_mark finish_mark
  write_mark-Keeps w nr keep =
      let w1 = mark_page k calls w in
      let x = calls.write_page w1 in
      let kept = Keeps-trans w w1 x.1 (mark_page-Keeps w) (keep w1) in
      let held = not_locked w w1 nr (mark_page-Keeps w).same_state in
      let held' = not_locked w x.1 nr kept.same_state in
      (
        ((if is_neg x.0 then neg nand_write_failed else x.0), x.1),
        ap (finish_mark k calls) (take_chip-held w1 held)
            ∙ ap (λ v. some ((if is_neg x.0 then neg nand_write_failed else x.0), v))
                (give_chip-held x.1 held'),
        kept,
      )

  marked-state :
      (w : World D) (t : Table) (blk : ℕ)
      → (marked k calls (record w { chip = fold_page_addr w.chip }) t blk).chip.state ≡ w.chip.state
  unfolding marked fold_page_addr
  marked-state w t blk = refl

  -- A good block of a valid table is marked, whatever becomes of the page of zeros.
  pub block_markbad-marks :
      (w : World D) (t : Table)
      → w.guard.allow_markbad ≢ 0
      → w.chip.bbt_arg_valid ≢ 0
      → w.chip.blk_status ≡ some t
      → t w.chip.ops_para.chipnr (block_of w.chip) ≡ 0
      → is_ready w.chip.state ≡ false
      → KeepsWorld calls.amlnand_update_bbt
      → KeepsWorld calls.write_page
      → (r : ℤ × World D) × (block_markbad k calls w ≡ some r)
        × Keeps (marked k calls (record w { chip = fold_page_addr w.chip }) t (block_of w.chip)) r.1
  unfolding block_markbad not_locked marked-state
  block_markbad-marks w t allow valid tab good nr keep_update keep_write =
      let blk = block_of w.chip in
      let v = marked k calls (record w { chip = fold_page_addr w.chip }) t blk in
      let u = (calls.amlnand_update_bbt v).1 in
      let off : (w.guard.allow_markbad == 0) ≡ false = ground arith in
      let arg : (w.chip.bbt_arg_valid == 0) ≡ false = ground arith in
      let done =
        write_mark-Keeps u (not_locked w u nr ((keep_update v).same_state ∙ marked-state w t blk))
          keep_write in
      (done.0, rw (off, arg, tab, good) done.1, Keeps-trans v u done.0.1 (keep_update v) done.2)
