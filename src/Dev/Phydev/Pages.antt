-- ===== src/Dev/Phydev/Pages.antt =====
-- dev/phydev.c: nand_read, nand_write and nand_erase as operations on consecutive pages, away from
-- SLC mode.
use amlnf.Prelude.{
  ℕ, suc, ◌+◌, ◌-◌, ◌*◌, ◌/◌, ◌^◌, ◌≤◌, ◌<◌, ◌≡◌, inr, refl, ap, ◌∙◌, Bool, true, false, ◌&&◌, ◌||◌,
  not, some, arith, ◌==◌, if◌then◌else◌,
}
use native.Mathlib.Nat.{mod-eq_of_lt, div-mul-le_self, lt-div-mul-add, div-le_self}
use amlnf.Prelude.Int.{ℤ, is_neg}
use amlnf.Prelude.Words.{u32, u64}
use amlnf.Phy.Chip.{
  ChipState, World, Kernel, ChipOperation, has, dev_slc_mode, nand_shut_down, nand_write_verify_bit,
}
use amlnf.Phy.Lock.{amlnand_get_device, amlnand_release_device}
use amlnf.Dev.Phydev.{Phydev, with_para, with_mode, at_page, transfer}
use amlnf.Dev.Phydev.Io.{
  nand_read, nand_write, nand_erase, begin_io, begin_block, next_buf, read_round, write_round,
  erase_round, read_result, nand_write_verify, with_retlen, out_of_space,
}
use amlnf.Dev.Phydev.Transfer.{
  Body, IsRounds, IsPlain, run_rounds, transfer_rounds, run_rounds-pages, on_page,
}

-- The rounds after the first that a transfer of `len` bytes needs.
abbrev pub more_rounds : ℕ → ℕ → ℕ
more_rounds len stride = (len - 1) / stride

more_rounds-IsRounds :
    (len stride : ℕ) → 0 < len → 0 < stride → IsRounds (more_rounds len stride) len stride 0
more_rounds-IsRounds len stride a b = record {
  needed = inr (omega (arith, div-mul-le_self (len - 1) stride));
  enough = omega (arith, lt-div-mul-add {a = len - 1} {b = stride} b);
}

more_rounds-lt : (len stride : ℕ) → 0 < len → more_rounds len stride < suc len
more_rounds-lt len stride a = omega (arith, div-le_self (len - 1) stride)

-- Away from SLC mode, `at_page` sets the page of the address.
pub at_page-plain :
    {D : Type 0} (p : Phydev) (a : ℕ) (v : World D)
    → IsPlain v
    → at_page p a v
      ≡ with_para v (record (v.chip.ops_para) { page_addr = u32 (a / 2 ^ p.writesize_shift) })
unfolding at_page
at_page-plain p a v pl = rw (pl) refl

-- Where an operation of `len` bytes may start and end for no address to wrap around. Its rounds are
-- `unit` bytes apart, which is `step` pages.
pub record Fits (p : Phydev) (len unit step : ℕ) : Type 0 where
  pub is_unit : unit ≡ 2 ^ p.writesize_shift * step
  pub unit_bytes : 0 < unit
  pub some_bytes : 0 < len
  pub within : p.ops.addr + p.ops.len ≤ p.size
  pub no_wrap : p.offset + p.size + len + unit < 2 ^ 63
  pub few_pages :
      (p.offset + p.ops.addr) / 2 ^ p.writesize_shift + more_rounds len unit * step < 2 ^ 32

-- The option word of the transfer does not have the SLC mode.
abbrev pub NotSlc : Phydev → Type 0
NotSlc p = has (with_mode p.ops.mode p.option) dev_slc_mode ≡ false

-- The page that the transfer starts on.
abbrev pub first_page : Phydev → ℕ
first_page p = (p.offset + p.ops.addr) / 2 ^ p.writesize_shift

module _ {D : Type 0} (k : Kernel D) (op : ChipOperation D) where
  -- One page read, and whether the transfer breaks there.
  abbrev pub read_page_at : Phydev → Body D
  read_page_at p =
      on_page op.read_page (λ ret w. not (w.chip.ops_para.ecc_err == 0) || is_neg ret)
        (next_buf k op p)

  -- The chip's operation leaves the option word of `ops_para` alone.
  abbrev pub KeepsOption : (World D → ℤ × World D) → Type 0
  KeepsOption run = (v : World D) → (run v).1.chip.ops_para.option ≡ v.chip.ops_para.option

  read_round-page :
      (p : Phydev) (a : ℕ) (v : World D)
      → IsPlain v
      → read_round k op p a v ≡ read_page_at p (u32 (a / 2 ^ p.writesize_shift)) v
  unfolding read_round
  read_round-page p a v pl =
      ap
        (λ x.
          let (ret, w') = op.read_page x in
          if not (w'.chip.ops_para.ecc_err == 0) || is_neg ret
          then (true, ret, w')
          else (false, ret, next_buf k op p w'))
        (at_page-plain p a v pl)

  option_of_if :
      (b : Bool) (x y : Bool × ℤ × World D) (o : ℕ)
      → x.2.chip.ops_para.option ≡ o
      → y.2.chip.ops_para.option ≡ o
      → (if b then x else y).2.chip.ops_para.option ≡ o
  option_of_if true x y o h g = h
  option_of_if false x y o h g = g

  -- A round that keeps the option word stays out of SLC mode.
  on_page-IsPlain :
      (act : World D → ℤ × World D) (failed : ℤ → World D → Bool) (after : World D → World D)
      → KeepsOption act
      → ((v : World D) → (after v).chip.ops_para.option ≡ v.chip.ops_para.option)
      → (page : ℕ) (v : World D) → IsPlain v
      → IsPlain (on_page act failed after page v).2
  on_page-IsPlain act failed after keep same page v pl =
      let x = with_para v (record (v.chip.ops_para) { page_addr = page }) in
      ap (λ o. has o dev_slc_mode)
        (option_of_if (failed (act x).0 (act x).1) (true, (act x).0, (act x).1)
          (false, (act x).0, after (act x).1) (v.chip.ops_para.option) (keep x)
          (same (act x).1 ∙ keep x))
      ∙ pl

  next_buf-option :
      (p : Phydev) (v : World D) → (next_buf k op p v).chip.ops_para.option ≡ v.chip.ops_para.option
  unfolding next_buf
  next_buf-option p v = refl

  begin_io-IsPlain :
      (p : Phydev) (v : World D)
      → has (with_mode p.ops.mode p.option) dev_slc_mode ≡ false
      → IsPlain (begin_io k op p v)
  unfolding begin_io
  begin_io-IsPlain p v h = h

  -- The transfer of an operation that fits, as rounds on pages.
  Fits-pages :
      (p : Phydev) (len unit step : ℕ) (f : Fits p len unit step) (body pbody : Body D)
      (w : World D)
      → ((a : ℕ) (v : World D) → IsPlain v → body a v ≡ pbody (u32 (a / 2 ^ p.writesize_shift)) v)
      → ((page : ℕ) (v : World D) → IsPlain v → IsPlain (pbody page v).2)
      → IsPlain w
      → let r = run_rounds (more_rounds len unit) step pbody (first_page p) w in
        transfer (suc len) len unit body (u64 (p.offset + p.ops.addr)) 0 w
        ≡ some (r.0, r.1 * unit, r.2)
  Fits-pages p len unit step f body pbody w eq keep pl =
      let n = more_rounds len unit in
      let r = run_rounds n unit body (p.offset + p.ops.addr) w in
      let here : u64 (p.offset + p.ops.addr) ≡ p.offset + p.ops.addr = mod-eq_of_lt (omega arith) in
      rw (here) (
        transfer_rounds n (suc len) len unit body (p.offset + p.ops.addr) 0 w
          (more_rounds-lt len unit f.some_bytes)
          (more_rounds-IsRounds len unit f.some_bytes f.unit_bytes)
          (omega (arith, div-mul-le_self (len - 1) unit))
          (omega (arith, div-mul-le_self (len - 1) unit)) (omega arith)
        ∙ ap (λ d. some (r.0, d, r.2)) (omega arith)
        ∙ ap (λ x. some (x.0, x.1 * unit, x.2))
            (run_rounds-pages n p.writesize_shift step unit body pbody (p.offset + p.ops.addr) w
              f.is_unit eq keep f.few_pages pl))

  Fits-in_space : (p : Phydev) (len unit step : ℕ) → Fits p len unit step → out_of_space p ≡ false
  Fits-in_space p len unit step f = ground arith

  -- `nand_read` on pages.
  abbrev pub read_pages : Phydev → ℕ → World D → ℤ × ℕ × World D
  read_pages p len w =
      run_rounds (more_rounds len p.writesize) 1 (read_page_at p) (first_page p) (begin_io k op p w)

  -- When the addresses fit (Fits), the device is not in SLC mode, there is something to read, the
  -- chip is got, and reading a page keeps the option word, nand_read is a run of page reads on
  -- consecutive pages from that of offset + addr on, as many as the length needs or until one
  -- fails: it returns the outcome of the last read, sets retlen to a page for each read that
  -- succeeded, and releases the chip.
  pub nand_read-pages :
      (p : Phydev) (w w1 : World D)
      → Fits p (if p.ops.len == 0 then p.writesize else p.ops.len) p.writesize 1
      → NotSlc p
      → ((p.ops.len == 0) && (p.ops.ooblen == 0)) ≡ false
      → KeepsOption op.read_page
      → amlnand_get_device k w ChipState.reading ≡ some w1
      → let len = if p.ops.len == 0 then p.writesize else p.ops.len in
        let r = read_pages p len w1 in
        let w2 = amlnand_release_device k r.2 in
        nand_read k op p w
        ≡ some (read_result k op r.0 w2, with_retlen p (u32 (r.1 * p.writesize)), w2)
  unfolding nand_read
  nand_read-pages p w w1 f ns nz keep got =
      let len = if p.ops.len == 0 then p.writesize else p.ops.len in
      rw
        (
          Fits-in_space p len p.writesize 1 f,
          nz,
          got,
          Fits-pages p len p.writesize 1 f (read_round k op p) (read_page_at p) (begin_io k op p w1)
              (read_round-page p)
              (on_page-IsPlain op.read_page
                (λ ret v. not (v.chip.ops_para.ecc_err == 0) || is_neg ret) (next_buf k op p) keep
                (next_buf-option p))
              (begin_io-IsPlain p w1 ns),
        )
        refl

  -- One page written, and whether the transfer breaks there.
  abbrev pub write_page_at : Phydev → Body D
  write_page_at p = on_page op.write_page (λ ret w. is_neg ret) (next_buf k op p)

  write_round-page :
      (p : Phydev) (a : ℕ) (v : World D)
      → IsPlain v
      → write_round k op p a v ≡ write_page_at p (u32 (a / 2 ^ p.writesize_shift)) v
  unfolding write_round
  write_round-page p a v pl =
      ap
        (λ x.
          let (ret, w') = op.write_page x in
          if is_neg ret then (true, ret, w') else (false, ret, next_buf k op p w'))
        (at_page-plain p a v pl)

  abbrev pub write_pages : Phydev → World D → ℤ × ℕ × World D
  write_pages p w =
      run_rounds (more_rounds p.ops.len p.writesize) 1 (write_page_at p) (first_page p)
        (begin_io k op p w)

  -- When the addresses fit, the device is neither in SLC mode nor shut down, the chip is got, and
  -- writing a page keeps the option word, nand_write is a run of page writes on consecutive pages,
  -- as many as the length needs or until one fails, then the verification if it is asked for: it
  -- returns the result of the last write, sets retlen to a page for each write that succeeded, and
  -- releases the chip.
  pub nand_write-pages :
      (p : Phydev) (w w1 : World D)
      → Fits p p.ops.len p.writesize 1
      → NotSlc p
      → has p.option nand_shut_down ≡ false
      → KeepsOption op.write_page
      → amlnand_get_device k w ChipState.writing ≡ some w1
      → let r = write_pages p w1 in
        let p' = with_retlen p (u32 (r.1 * p.writesize)) in
        let w2 =
          if has r.2.chip.debug_flag nand_write_verify_bit
          then nand_write_verify k op p' r.2
          else r.2 in
        nand_write k op p w ≡ some (r.0, p', amlnand_release_device k w2)
  unfolding nand_write
  nand_write-pages p w w1 f ns up keep got =
      let nz : ((p.ops.len == 0) && (p.ops.ooblen == 0)) ≡ false = ground arith in
      rw
        (
          Fits-in_space p p.ops.len p.writesize 1 f,
          nz,
          up,
          got,
          Fits-pages p p.ops.len p.writesize 1 f (write_round k op p) (write_page_at p)
              (begin_io k op p w1) (write_round-page p)
              (on_page-IsPlain op.write_page (λ ret v. is_neg ret) (next_buf k op p) keep
                (next_buf-option p))
              (begin_io-IsPlain p w1 ns),
        )
        refl

  -- One block erased, named by its first page.
  abbrev pub erase_page_at : Body D
  erase_page_at page w =
      let (ret, w') =
        op.erase_block (with_para w (record (w.chip.ops_para) { page_addr = page })) in
      (is_neg ret, ret, w')

  erase_round-page :
      (p : Phydev) (a : ℕ) (v : World D)
      → IsPlain v
      → erase_round k op p a v ≡ erase_page_at (u32 (a / 2 ^ p.writesize_shift)) v
  unfolding erase_round
  erase_round-page p a v pl =
      ap (λ x. let (ret, w') = op.erase_block x in (is_neg ret, ret, w')) (at_page-plain p a v pl)

  erase_page_at-IsPlain :
      KeepsOption op.erase_block
      → (page : ℕ) (v : World D) → IsPlain v
      → IsPlain (erase_page_at page v).2
  erase_page_at-IsPlain keep page v pl =
      ap (λ o. has o dev_slc_mode)
        (keep (with_para v (record (v.chip.ops_para) { page_addr = page })))
      ∙ pl

  pub begin_block-IsPlain :
      (p : Phydev) (v : World D)
      → has p.option dev_slc_mode ≡ false
      → IsPlain (begin_block k op p v)
  unfolding begin_block
  begin_block-IsPlain p v h = h

  abbrev pub erase_pages : Phydev → ℕ → World D → ℤ × ℕ × World D
  erase_pages p step w =
      run_rounds (more_rounds p.ops.len p.erasesize) step erase_page_at (first_page p)
        (begin_block k op p w)

  -- When the addresses fit, the device is neither in SLC mode nor shut down, the chip is got, and
  -- an erase keeps the option word, nand_erase is a run of erases on pages a whole erase unit
  -- (step pages) apart, as many as the length needs or until one fails: it returns the result of
  -- the last erase, sets retlen to a unit for each that succeeded, and releases the chip.
  pub nand_erase-pages :
      (p : Phydev) (step : ℕ) (w w1 : World D)
      → Fits p p.ops.len p.erasesize step
      → has p.option dev_slc_mode ≡ false
      → has p.option nand_shut_down ≡ false
      → KeepsOption op.erase_block
      → amlnand_get_device k w ChipState.erasing ≡ some w1
      → let r = erase_pages p step w1 in
        nand_erase k op p w
        ≡ some (r.0, with_retlen p (u32 (r.1 * p.erasesize)), amlnand_release_device k r.2)
  unfolding nand_erase
  nand_erase-pages p step w w1 f ns up keep got =
      let nz : (p.ops.len == 0) ≡ false = ground arith in
      rw
        (
          Fits-in_space p p.ops.len p.erasesize step f,
          nz,
          up,
          got,
          Fits-pages p p.ops.len p.erasesize step f (erase_round k op p) erase_page_at
              (begin_block k op p w1) (erase_round-page p) (erase_page_at-IsPlain keep)
              (begin_block-IsPlain p w1 ns),
        )
        refl
