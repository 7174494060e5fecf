-- ===== src/Dev/Phydev/Marked.antt =====
-- dev/phydev.c over phy/chip_operation.c: a block that nand_block_markbad marked is bad for
-- nand_block_isbad.
use amlnf.Prelude.{
  ℕ, ◌+◌, ◌/◌, ◌^◌, ◌<◌, ◌≤◌, ◌≡◌, ◌≢◌, refl, sym, ap, ◌∙◌, false, Option, none, some, arith, ltb,
}
use amlnf.Prelude.Int.{ℤ, pos}
use amlnf.Prelude.Words.{u32, u64}
use amlnf.Phy.Chip.{
  Chip, ChipState, World, Kernel, ChipOperation, has, dev_slc_mode, nand_shut_down,
}
use amlnf.Phy.Lock.{
  IsFree, IsHeld, Selects, taken, get_device-taken, amlnand_release_device, release_device-IsFree,
  release_device-chip, is_ready,
}
use amlnf.Phy.Bbt.{
  BbtCalls, Table, block_markbad, block_isbad, blk_modify_bbt_chip_op, update_bbt_chip_op,
  status_by_mode, mark_by_mode, marked, fold_page_addr, block_of, is_plane, is_multi_chip,
}
use amlnf.Phy.Bbt.Marked.{status-mark}
use amlnf.Phy.Bbt.Markbad.{Keeps, KeepsWorld, block_markbad-marks}
use amlnf.Dev.Phydev.{Phydev, at_page}
use amlnf.Dev.Phydev.Io.{begin_block}
use amlnf.Dev.Phydev.Bad.{on_block, finish_block, nand_block_isbad, nand_block_markbad}
use amlnf.Dev.Phydev.Pages.{at_page-plain}

ltb-false : (a b : ℕ) → b ≤ a → ltb a b ≡ false
ltb-false a b h = ground arith

module _ {D : Type 0} (k : Kernel D) (calls : BbtCalls D) (erase : World D → ℤ × World D) where
  -- The chip's operations, as `struct chip_operation` names them.
  abbrev pub chip_operation : ChipOperation D
  chip_operation = record {
    read_page = calls.read_page;
    write_page = calls.write_page;
    erase_block = erase;
    block_isbad = block_isbad k calls;
    block_markbad = block_markbad k calls;
    blk_modify_bbt = blk_modify_bbt_chip_op k calls;
    update_bbt = update_bbt_chip_op k calls;
  }

  -- The world in which the chip's operation runs.
  unfoldable pub on_chip : Phydev → World D → World D
  on_chip p w =
      at_page p (u64 (p.offset + p.ops.addr))
        (begin_block k chip_operation p (taken k w ChipState.reading))

  pub on_block-returns :
      (run : World D → Option (ℤ × World D)) (p : Phydev) (w : World D) (r : ℤ × World D)
      → Selects k
      → IsFree w
      → run (on_chip p w) ≡ some r
      → on_block k chip_operation run p w ≡ some (r.0, p, amlnand_release_device k r.1)
  unfolding on_block on_chip finish_block
  on_block-returns run p w r sel free h =
      ap
        (λ o. elim o [
          | none ↦ none
          | some w1 ↦
              finish_block k chip_operation p
                (run (at_page p (u64 (p.offset + p.ops.addr)) (begin_block k chip_operation p w1)))
        ])
        (get_device-taken k w ChipState.reading sel free)
      ∙ ap (finish_block k chip_operation p) h

  pub block_isbad-status :
      (w : World D) (t : Table)
      → w.chip.blk_status ≡ some t
      → block_isbad k calls w
        ≡ some (
          status_by_mode
              (is_plane w.chip)
              (is_multi_chip w.chip)
              t
              w.chip.controller.chip_num
              w.chip.ops_para.chipnr
              (block_of w.chip),
          record w { chip = fold_page_addr w.chip },
        )
  unfolding block_isbad
  block_isbad-status w t h = rw (h) refl

  -- What makes the mark go through: the device is in use and not in SLC mode, the chip is free and
  -- has a valid table, in which the block of the address is good.
  pub record CanMark (p : Phydev) (w : World D) (t : Table) : Type 0 where
    pub is_free : IsFree w
    pub in_range : p.ops.addr ≤ p.size
    pub is_up : has p.option nand_shut_down ≡ false
    pub not_slc : has p.option dev_slc_mode ≡ false
    pub allowed : w.guard.allow_markbad ≢ 0
    pub is_valid : w.chip.bbt_arg_valid ≢ 0
    pub has_table : w.chip.blk_status ≡ some t
    pub is_good : t 0 (block_of (on_chip p w).chip) ≡ 0
    pub has_chips : 0 < w.chip.controller.chip_num

  -- What `block_isbad` depends on, beside the table.
  record SameView (v u : World D) : Type 0 where
    same_option : u.chip.ops_para.option ≡ v.chip.ops_para.option
    same_chipnr : u.chip.ops_para.chipnr ≡ v.chip.ops_para.chipnr
    same_num : u.chip.controller.chip_num ≡ v.chip.controller.chip_num
    same_block : block_of u.chip ≡ block_of v.chip

  status-SameView :
      (v u : World D) (t : Table)
      → SameView v u
      → status_by_mode
          (is_plane u.chip)
          (is_multi_chip u.chip)
          t
          u.chip.controller.chip_num
          u.chip.ops_para.chipnr
          (block_of u.chip)
        ≡ status_by_mode
            (is_plane v.chip)
            (is_multi_chip v.chip)
            t
            v.chip.controller.chip_num
            v.chip.ops_para.chipnr
            (block_of v.chip)
  status-SameView v u t s = rw (s.same_block, s.same_option, s.same_chipnr, s.same_num) refl

  -- The fields of `ops_para` and the geometry in the world in which the chip's operation runs.
  pub on_chip-view :
      (p : Phydev) (w : World D)
      → has p.option dev_slc_mode ≡ false
      → (is_ready (on_chip p w).chip.state ≡ false)
        × ((on_chip p w).chip.ops_para.option ≡ p.option)
        × ((on_chip p w).chip.ops_para.chipnr ≡ 0)
        × ((on_chip p w).chip.ops_para.page_addr
            ≡ u32 (u64 (p.offset + p.ops.addr) / 2 ^ p.writesize_shift))
        × ((on_chip p w).chip.flash ≡ w.chip.flash)
        × ((on_chip p w).chip.controller ≡ w.chip.controller)
        × ((on_chip p w).chip.blk_status ≡ w.chip.blk_status)
        × ((on_chip p w).chip.bbt_arg_valid ≡ w.chip.bbt_arg_valid)
        × ((on_chip p w).guard ≡ w.guard)
        × IsHeld (on_chip p w)
  unfolding on_chip begin_block is_ready
  on_chip-view p w ns =
      rw
        (at_page-plain p (u64 (p.offset + p.ops.addr))
          (begin_block k chip_operation p (taken k w ChipState.reading)) ns)
        (
          refl,
          refl,
          refl,
          refl,
          refl,
          refl,
          refl,
          refl,
          refl,
          record { is_locked = refl; is_flagged = refl },
        )

  block_of-cong :
      (c d : Chip)
      → c.ops_para.page_addr ≡ d.ops_para.page_addr
      → c.flash ≡ d.flash
      → block_of c ≡ block_of d
  unfolding block_of
  block_of-cong c d e f = rw (e, f) refl

  -- The marked world, seen by the next operation at the same address.
  next-SameView :
      (p : Phydev) (w : World D) (v' : World D)
      → has p.option dev_slc_mode ≡ false
      → v'.chip.flash ≡ w.chip.flash
      → v'.chip.controller.chip_num ≡ w.chip.controller.chip_num
      → SameView (on_chip p w) (on_chip p v')
  next-SameView p w v' ns f n =
      let (nr, opt, nr0, page, fl, ct, tab, arg, g, held) = on_chip-view p w ns in
      let (nr', opt', nr0', page', fl', ct', tab', arg', g', held') = on_chip-view p v' ns in
      record {
        same_option = opt' ∙ sym opt;
        same_chipnr = nr0' ∙ sym nr0;
        same_num = ap (λ c. c.chip_num) ct' ∙ n ∙ ap (λ c. c.chip_num) (sym ct);
        same_block =
            block_of-cong (on_chip p v').chip (on_chip p w).chip (page' ∙ sym page)
              (fl' ∙ f ∙ sym fl);
      }

  on_chip-IsHeld :
      (p : Phydev) (w : World D) → has p.option dev_slc_mode ≡ false → IsHeld (on_chip p w)
  on_chip-IsHeld p w ns =
      let (nr, opt, nr0, page, fl, ct, tab, arg, g, held) = on_chip-view p w ns in held

  -- The mark as the chip's operation makes it.
  mark_on_chip :
      (p : Phydev) (w : World D) (t : Table)
      → CanMark p w t
      → KeepsWorld k calls calls.amlnand_update_bbt
      → KeepsWorld k calls calls.write_page
      → (r : ℤ × World D) × (block_markbad k calls (on_chip p w) ≡ some r)
        × Keeps
            (marked k calls
              (record (on_chip p w) { chip = fold_page_addr (on_chip p w).chip })
              t
              (block_of (on_chip p w).chip))
            r.1
  mark_on_chip p w t c keep_update keep_write =
      let (nr, opt, nr0, page, fl, ct, tab, arg, g, held) = on_chip-view p w c.not_slc in
      block_markbad-marks k calls (on_chip p w) t
        (λ e. c.allowed (ap (λ x. x.allow_markbad) (sym g) ∙ e)) (λ e. c.is_valid (sym arg ∙ e))
        (tab ∙ c.has_table) (ap (λ n. t n (block_of (on_chip p w).chip)) nr0 ∙ c.is_good) nr
        keep_update keep_write

  -- The chip after the mark: it is held still, its table has the marks, its geometry is as it was.
  record IsMarked (p : Phydev) (w : World D) (t : Table) (v : World D) : Type 0 where
    still_held : IsHeld v
    flash_kept : v.chip.flash ≡ w.chip.flash
    num_kept : v.chip.controller.chip_num ≡ w.chip.controller.chip_num
    table_marked :
        v.chip.blk_status
        ≡ some (
            mark_by_mode
              (is_plane (on_chip p w).chip)
              (is_multi_chip (on_chip p w).chip)
              t
              (on_chip p w).chip.controller.chip_num
              (on_chip p w).chip.ops_para.chipnr
              (block_of (on_chip p w).chip))

  Keeps-IsMarked :
      (p : Phydev) (w : World D) (t : Table) (v : World D)
      → has p.option dev_slc_mode ≡ false
      → Keeps
          (marked k calls
            (record (on_chip p w) { chip = fold_page_addr (on_chip p w).chip })
            t
            (block_of (on_chip p w).chip))
          v
      → IsMarked p w t v
  unfolding marked fold_page_addr
  Keeps-IsMarked p w t v ns h =
      let (nr, opt, nr0, page, fl, ct, tab, arg, g, held) = on_chip-view p w ns in
      record {
        still_held = record {
          is_locked = h.same_lock ∙ held.is_locked;
          is_flagged = h.same_flag ∙ held.is_flagged;
        };
        flash_kept = h.same_flash ∙ fl;
        num_kept = h.same_num ∙ ap (λ c. c.chip_num) ct;
        table_marked = h.same_table;
      }

  -- When a device may mark a block (CanMark: it is up and not in SLC mode, the chip is free, marks
  -- are allowed, and the valid table has the block as good), every pin state can be selected, and
  -- saving the table and writing a page leave the table, the geometry, the chip's state and the
  -- lock alone, nand_block_markbad returns, and nand_block_isbad at the same address then returns
  -- NAND_BLOCK_USED_BAD.
  pub nand_markbad-isbad :
      (p : Phydev) (w : World D) (t : Table)
      → CanMark p w t
      → Selects k
      → KeepsWorld k calls calls.amlnand_update_bbt
      → KeepsWorld k calls calls.write_page
      → (r : ℤ × Phydev × World D) × (nand_block_markbad k chip_operation p w ≡ some r)
        × (s : ℤ × Phydev × World D) × (nand_block_isbad k chip_operation p r.2 ≡ some s)
        × (s.0 ≡ pos 1)
  unfolding nand_block_markbad nand_block_isbad
  nand_markbad-isbad p w t c sel keep_update keep_write =
      let r = mark_on_chip p w t c keep_update keep_write in
      let v = on_chip p w in
      let m = Keeps-IsMarked p w t r.0.1 c.not_slc r.2 in
      let w' = amlnand_release_device k r.0.1 in
      let chip = release_device-chip k r.0.1 in
      let u = on_chip p w' in
      let (nr, opt, nr0, page, fl, ct, tab, arg, g, held) = on_chip-view p w' c.not_slc in
      let same =
        next-SameView p w w' c.not_slc (ap (λ x. x.flash) chip ∙ m.flash_kept)
          (ap (λ x. x.controller.chip_num) chip ∙ m.num_kept) in
      let (nrv, optv, nr0v, pagev, flv, ctv, tabv, argv, gv, heldv) = on_chip-view p w c.not_slc in
      let some_chip : v.chip.ops_para.chipnr < v.chip.controller.chip_num =
        rw (nr0v, ctv) c.has_chips in
      let t' =
        mark_by_mode (is_plane v.chip) (is_multi_chip v.chip) t v.chip.controller.chip_num
          v.chip.ops_para.chipnr (block_of v.chip) in
      let found = block_isbad-status u t' (tab ∙ ap (λ x. x.blk_status) chip ∙ m.table_marked) in
      let inside : ltb p.size p.ops.addr ≡ false = ltb-false p.size p.ops.addr c.in_range in
      let status =
        status_by_mode (is_plane u.chip) (is_multi_chip u.chip) t' u.chip.controller.chip_num
          u.chip.ops_para.chipnr (block_of u.chip) in
      let u' = record u { chip = fold_page_addr u.chip } in
      (
        (r.0.0, p, w'),
        rw (inside, c.is_up) (on_block-returns (block_markbad k calls) p w r.0 sel c.is_free r.1),
        (status, p, amlnand_release_device k u'),
        rw (inside, c.is_up)
            (on_block-returns (block_isbad k calls) p w' (status, u') sel
              (release_device-IsFree k r.0.1 m.still_held) found),
        status-SameView v u t' same
            ∙ status-mark (is_plane v.chip) (is_multi_chip v.chip) t v.chip.controller.chip_num
                v.chip.ops_para.chipnr (block_of v.chip) some_chip,
      )
