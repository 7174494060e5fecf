-- ===== src/Dev/Phydev/Readonly.antt =====
-- dev/phydev.c over phy/chip_operation.c and nfc_map.c: nand_write and nand_erase of a read-only
-- driver.
use amlnf.Prelude.{
  ℕ, suc, ◌+◌, ◌≡◌, ◌≢◌, refl, sym, ap, ◌∙◌, Bool, true, false, ◌&&◌, some, ◌==◌, if◌then◌else◌,
}
use amlnf.Prelude.Int.{ℤ, neg, is_neg}
use amlnf.Prelude.Words.{u32, u64}
use amlnf.Phy.Chip.{
  ChipState, World, Kernel, ChipOperation, has, nand_shut_down, nand_write_verify_bit,
}
use amlnf.Phy.Lock.{amlnand_get_device, amlnand_release_device}
use amlnf.Phy.Bbt.{erofs}
use amlnf.Phy.Controller.{Hw}
use amlnf.Phy.Program.{erase_block, write_page}
use amlnf.Phy.Program.Readonly.{readonly-Untouched}
use amlnf.Dev.Phydev.{Phydev, at_page, transfer}
use amlnf.Dev.Phydev.Io.{
  nand_write, nand_erase, begin_io, begin_block, erase_round, write_round, next_buf, finish_erase,
  finish_write, out_of_space, with_retlen,
}
use amlnf.Dev.Phydev.Transfer.{Body}

transfer_fails :
    {D : Type 0} (fuel len stride : ℕ) (body : Body D) (addr done : ℕ) (w : World D)
    → (body addr w).0 ≡ true
    → transfer (suc fuel) len stride body addr done w
      ≡ some ((body addr w).1, done, (body addr w).2)
unfolding transfer
transfer_fails fuel len stride body addr done w h = rw (transfer, h) refl

module _ {D : Type 0} (k : Kernel D) (hw : Hw D) (op : ChipOperation D) where
  -- The chip's operations, with those of chip_operation.c that write.
  abbrev pub writing : ChipOperation D
  writing = record op { erase_block = erase_block hw; write_page = write_page hw }

  at_page-same :
      (p : Phydev) (a : ℕ) (v : World D)
      → ((at_page p a v).dev ≡ v.dev) × ((at_page p a v).guard ≡ v.guard)
  unfolding at_page
  at_page-same p a v = (refl, refl)

  begin_block-same :
      (p : Phydev) (v : World D)
      → ((begin_block k writing p v).dev ≡ v.dev) × ((begin_block k writing p v).guard ≡ v.guard)
  unfolding begin_block
  begin_block-same p v = (refl, refl)

  begin_io-same :
      (p : Phydev) (v : World D)
      → ((begin_io k writing p v).dev ≡ v.dev) × ((begin_io k writing p v).guard ≡ v.guard)
  unfolding begin_io
  begin_io-same p v = (refl, refl)

  -- A result of an operation that was refused at its first page: -EROFS, no bytes, and the medium as
  -- it was when the chip was got.
  pub record IsRefusedIo (w1 : World D) (r : ℤ × Phydev × World D) : Type 0 where
    pub answer : r.0 ≡ neg erofs
    pub no_bytes : r.1.ops.retlen ≡ 0
    pub untouched : (v : World D) × (r.2 ≡ amlnand_release_device k v) × (v.dev ≡ w1.dev)

  -- With the readonly parameter set, nand_erase of a block of a device that is not shut down, once it
  -- has got the chip, returns -EROFS with a retlen of 0 and releases the chip, with the medium as it
  -- was when the chip was got.
  pub nand_erase-readonly :
      (p : Phydev) (w w1 : World D)
      → out_of_space p ≡ false
      → (p.ops.len == 0) ≡ false
      → has p.option nand_shut_down ≡ false
      → w1.guard.readonly ≢ 0
      → amlnand_get_device k w ChipState.erasing ≡ some w1
      → (r : ℤ × Phydev × World D) × (nand_erase k writing p w ≡ some r) × IsRefusedIo w1 r
  unfolding nand_erase erase_round finish_erase
  nand_erase-readonly p w w1 oos nz up ro got =
      let addr = u64 (p.offset + p.ops.addr) in
      let v0 = begin_block k writing p w1 in
      let v = at_page p addr v0 in
      let same = at_page-same p addr v0 in
      let same0 = begin_block-same p w1 in
      let u =
        (readonly-Untouched hw v (λ e. ro (ap (λ g. g.readonly) (sym (same.1 ∙ same0.1)) ∙ e))).0 in
      let x = erase_block hw v in
      (
        (x.0, with_retlen p (u32 0), amlnand_release_device k x.1),
        rw (oos, nz, up, got)
            (ap (finish_erase k writing p) (
              transfer_fails p.ops.len p.ops.len p.erasesize (erase_round k writing p) addr 0 v0
                (ap is_neg u.answer))),
        record {
          answer = u.answer;
          no_bytes = refl;
          untouched = (x.1, refl, u.same_dev ∙ same.0 ∙ same0.0);
        },
      )

  write_debug_flag :
      (p : Phydev) (a : ℕ) (v : World D)
      → has (at_page p a (begin_io k writing p v)).chip.debug_flag nand_write_verify_bit
        ≡ has v.chip.debug_flag nand_write_verify_bit
  unfolding at_page begin_io
  write_debug_flag p a v = refl

  -- Without verification, the end of a write sets retlen and releases the chip.
  quiet_finish :
      (p : Phydev) (x : ℤ × World D)
      → has x.1.chip.debug_flag nand_write_verify_bit ≡ false
      → finish_write k writing p (some (x.0, 0, x.1))
        ≡ some (x.0, with_retlen p (u32 0), amlnand_release_device k x.1)
  unfolding finish_write
  quiet_finish p x h = rw (h) refl

  fails_if :
      (b : Bool) (x y : Bool × ℤ × World D) → b ≡ true → x.0 ≡ true → (if b then x else y) ≡ x
  fails_if b x y h e = rw (h) refl

  -- With the readonly parameter set and without verification, nand_write of a device that is not shut
  -- down, once it has got the chip, returns -EROFS with a retlen of 0 and releases the chip, with
  -- the medium as it was when the chip was got.
  pub nand_write-readonly :
      (p : Phydev) (w w1 : World D)
      → out_of_space p ≡ false
      → ((p.ops.len == 0) && (p.ops.ooblen == 0)) ≡ false
      → has p.option nand_shut_down ≡ false
      → w1.guard.readonly ≢ 0
      → has w1.chip.debug_flag nand_write_verify_bit ≡ false
      → amlnand_get_device k w ChipState.writing ≡ some w1
      → (r : ℤ × Phydev × World D) × (nand_write k writing p w ≡ some r) × IsRefusedIo w1 r
  unfolding nand_write write_round
  nand_write-readonly p w w1 oos nz up ro quiet got =
      let addr = u64 (p.offset + p.ops.addr) in
      let v0 = begin_io k writing p w1 in
      let v = at_page p addr v0 in
      let same = at_page-same p addr v0 in
      let same0 = begin_io-same p w1 in
      let u =
        (readonly-Untouched hw v (λ e. ro (ap (λ g. g.readonly) (sym (same.1 ∙ same0.1)) ∙ e))).1 in
      let x = write_page hw v in
      let neg_ret : is_neg x.0 ≡ true = ap is_neg u.answer in
      let round : write_round k writing p addr v0 ≡ (true, x.0, x.1) =
        fails_if (is_neg x.0) (true, x.0, x.1) (false, x.0, next_buf k writing p x.1) neg_ret
          refl in
      let flag : has x.1.chip.debug_flag nand_write_verify_bit ≡ false =
        ap (λ c. has c.debug_flag nand_write_verify_bit) u.same_chip
        ∙ write_debug_flag p addr w1
        ∙ quiet in
      (
        (x.0, with_retlen p (u32 0), amlnand_release_device k x.1),
        rw (oos, nz, up, got)
            (ap (finish_write k writing p) (
                transfer_fails p.ops.len p.ops.len p.writesize (write_round k writing p) addr 0 v0
                  (ap (λ r. r.0) round)
                ∙ ap (λ r. some (r.1, 0, r.2)) round)
              ∙ quiet_finish p x flag),
        record {
          answer = u.answer;
          no_bytes = refl;
          untouched = (x.1, refl, u.same_dev ∙ same.0 ∙ same0.0);
        },
      )
