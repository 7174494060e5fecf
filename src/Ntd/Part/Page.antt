-- ===== src/Ntd/Part/Page.antt =====
-- ntd/aml_ntdpart.c over dev/phydev.c: which page of the chip a page of an NTD device is.
use amlnf.Prelude.{
  ℕ, ◌+◌, ◌*◌, ◌/◌, ◌^◌, ◌≤◌, ◌<◌, ◌≡◌, sym, ap, ◌∙◌, false, ◌&&◌, Option, some, ◌==◌, if_false,
  subst, if◌then◌else◌, arith,
}
use native.Mathlib.Nat.{
  mod-eq_of_lt, div-eq_of_lt, div-lt_iff_lt-mul, add-mul-div_right, one-le-pow,
}
use amlnf.Prelude.Int.{ℤ}
use amlnf.Prelude.Words.{u32, u64}
use amlnf.Phy.Chip.{
  ChipState, World, Kernel, ChipOperation, has, dev_slc_mode, nand_shut_down, nand_write_verify_bit,
}
use amlnf.Phy.Lock.{amlnand_get_device, amlnand_release_device}
use amlnf.Dev.Phydev.{Phydev}
use amlnf.Dev.Phydev.Io.{
  nand_read, nand_write, nand_erase, nand_write_verify, begin_io, read_result, with_retlen,
}
use amlnf.Dev.Phydev.Bad.{nand_block_isbad, nand_block_markbad}
use amlnf.Dev.Phydev.Transfer.{run_rounds}
use amlnf.Dev.Phydev.Pages.{
  Fits, more_rounds, first_page, read_page_at, write_page_at, KeepsOption, nand_read-pages,
  nand_write-pages,
}
use amlnf.Ntd.{NtdInfo}
use amlnf.Ntd.Part.{Methods, with_ops, byte_addr, read_page_with_oob, write_page_with_oob}

-- What the pages of an NTD device need of the physical device: it has pages of `2 ^ shift` bytes,
-- and its end is in reach of a page number.
pub record OnPages (ntd : NtdInfo) (p : Phydev) : Type 0 where
  pub same_page : ntd.pagesize ≡ p.writesize
  pub same_shift : ntd.pagesize_shift ≡ p.writesize_shift
  pub page_bytes : p.writesize ≡ 2 ^ p.writesize_shift
  pub in_reach : p.offset + p.size < 2 ^ 32 * 2 ^ p.writesize_shift
  pub no_wrap : p.offset + p.size + 2 * 2 ^ p.writesize_shift < 2 ^ 63
  pub not_slc : has p.option dev_slc_mode ≡ false

==-nonzero : (a : ℕ) → 0 < a → (a == 0) ≡ false
==-nonzero a h = ground arith

module _ {D : Type 0} (k : Kernel D) (op : ChipOperation D) where
  -- The methods of a physical device.
  abbrev pub phydev_methods : Methods D
  phydev_methods = record {
    read = nand_read k op;
    write = nand_write k op;
    erase = nand_erase k op;
    block_isbad = nand_block_isbad k op;
    block_markbad = nand_block_markbad k op;
  }

  byte_addr-page :
      (ntd : NtdInfo) (p : Phydev) (page : ℕ)
      → OnPages ntd p
      → (page + 1) * 2 ^ p.writesize_shift ≤ p.size
      → byte_addr page ntd.pagesize_shift ≡ page * 2 ^ p.writesize_shift
  byte_addr-page ntd p page o h =
      ap (λ s. u64 (page * 2 ^ s)) o.same_shift ∙ mod-eq_of_lt (omega arith)

  one_round :
      (ntd : NtdInfo) (p : Phydev)
      → OnPages ntd p
      → 0 < 2 ^ p.writesize_shift
      → more_rounds ntd.pagesize p.writesize ≡ 0
  one_round ntd p o h = div-eq_of_lt (omega (arith, o.page_bytes, o.same_page, h))

  -- The page of the chip.
  first_page-part :
      (ntd : NtdInfo) (p : Phydev) (page : ℕ)
      → OnPages ntd p
      → (page + 1) * 2 ^ p.writesize_shift ≤ p.size
      → (p.offset + byte_addr page ntd.pagesize_shift) / 2 ^ p.writesize_shift
        ≡ p.offset / 2 ^ p.writesize_shift + page
  first_page-part ntd p page o h =
      ap (λ a. (p.offset + a) / 2 ^ p.writesize_shift) (byte_addr-page ntd p page o h)
      ∙ add-mul-div_right p.offset page (one-le-pow p.writesize_shift 2 (omega arith))

  few :
      (ntd : NtdInfo) (p : Phydev) (page : ℕ)
      → OnPages ntd p
      → (page + 1) * 2 ^ p.writesize_shift ≤ p.size
      → (p.offset + byte_addr page ntd.pagesize_shift) / 2 ^ p.writesize_shift
          + more_rounds ntd.pagesize p.writesize * 1
        < 2 ^ 32
  few ntd p page o h =
      let positive : 0 < 2 ^ p.writesize_shift = one-le-pow p.writesize_shift 2 (omega arith) in
      let below : (p.offset + byte_addr page ntd.pagesize_shift) / 2 ^ p.writesize_shift < 2 ^ 32 =
        (div-lt_iff_lt-mul positive).1
          (omega (arith, byte_addr-page ntd p page o h, o.in_reach, positive)) in
      omega (arith, below, one_round ntd p o positive)

  page-Fits :
      (ntd : NtdInfo) (p : Phydev) (page oob oob_buf buf : ℕ)
      → OnPages ntd p
      → (page + 1) * 2 ^ p.writesize_shift ≤ p.size
      → Fits
          (with_ops p (byte_addr page ntd.pagesize_shift) ntd.pagesize oob buf oob_buf)
          ntd.pagesize
          p.writesize
          1
  page-Fits ntd p page oob oob_buf buf o h =
      let unit = 2 ^ p.writesize_shift in
      let here = byte_addr-page ntd p page o h in
      let positive : 0 < unit = one-le-pow p.writesize_shift 2 (omega arith) in
      let one : more_rounds ntd.pagesize p.writesize ≡ 0 = one_round ntd p o positive in
      record {
        is_unit = omega (arith, o.page_bytes);
        unit_bytes = omega (arith, o.page_bytes, positive);
        some_bytes = omega (arith, o.page_bytes, o.same_page, positive);
        within = omega (arith, o.page_bytes, o.same_page, here);
        no_wrap = omega (arith, o.page_bytes, o.same_page, o.no_wrap);
        few_pages = few ntd p page o h;
      }

  -- What `nand_read` makes of the rounds.
  abbrev finished : Phydev → Phydev → ℤ × ℕ × World D → Option (ℤ × Phydev × World D)
  finished q p r =
      let w2 = amlnand_release_device k r.2 in
      some (read_result k op r.0 w2, with_retlen q (u32 (r.1 * p.writesize)), w2)

  -- What reading one page of the device `p` does: `page` is that of the chip.
  abbrev pub read_one : Phydev → ℕ → World D → Option (ℤ × Phydev × World D)
  read_one p page w =
      let r = run_rounds 0 1 (read_page_at k op p) page (begin_io k op p w) in
      let w2 = amlnand_release_device k r.2 in
      some (read_result k op r.0 w2, with_retlen p (u32 (r.1 * p.writesize)), w2)

  -- Reading page `page` of an NTD device on a physical device with the same pages, when the page is
  -- within its size, the device does not use SLC addresses, reads keep the option word and the chip
  -- is got, is reading one page: page `offset / 2 ^ shift + page` of the chip. The chip is released
  -- and the answer is that of the page.
  pub read_page-chip_page :
      (ntd : NtdInfo) (p : Phydev) (page oob_buf buf : ℕ) (w w1 : World D)
      → OnPages ntd p
      → (page + 1) * 2 ^ p.writesize_shift ≤ p.size
      → KeepsOption k op op.read_page
      → amlnand_get_device k w ChipState.reading ≡ some w1
      → read_page_with_oob phydev_methods ntd page oob_buf buf p w
        ≡ read_one
            (with_ops p (byte_addr page ntd.pagesize_shift) ntd.pagesize ntd.oobsize buf oob_buf)
            (p.offset / 2 ^ p.writesize_shift + page)
            w1
  unfolding read_page_with_oob
  read_page-chip_page ntd p page oob_buf buf w w1 o h keep got =
      let q = with_ops p (byte_addr page ntd.pagesize_shift) ntd.pagesize ntd.oobsize buf oob_buf in
      let positive : 0 < 2 ^ p.writesize_shift = one-le-pow p.writesize_shift 2 (omega arith) in
      let some_len : (ntd.pagesize == 0) ≡ false =
        ==-nonzero ntd.pagesize (omega (arith, o.same_page, o.page_bytes, positive)) in
      let e : (if ntd.pagesize == 0 then p.writesize else ntd.pagesize) ≡ ntd.pagesize =
        if_false (ntd.pagesize == 0) p.writesize ntd.pagesize some_len in
      let none_left : ((ntd.pagesize == 0) && (ntd.oobsize == 0)) ≡ false =
        ap (λ b. b && (ntd.oobsize == 0)) some_len in
      let fits = page-Fits ntd p page ntd.oobsize oob_buf buf o h in
      nand_read-pages k op q w w1 (subst (λ l. Fits q l p.writesize 1) (sym e) fits) o.not_slc
        none_left keep got
      ∙ ap
          (λ l. finished q p (
            run_rounds (more_rounds l p.writesize) 1 (read_page_at k op q) (first_page q)
              (begin_io k op q w1)))
          e
      ∙ ap
          (λ n.
            finished q p (run_rounds n 1 (read_page_at k op q) (first_page q) (begin_io k op q w1)))
          (one_round ntd p o positive)
      ∙ ap (λ a. finished q p (run_rounds 0 1 (read_page_at k op q) a (begin_io k op q w1)))
          (first_page-part ntd p page o h)

  -- The write of one page, with the verification if it is asked for.
  abbrev finished_write : Phydev → ℤ × ℕ × World D → Option (ℤ × Phydev × World D)
  finished_write q r =
      let q' = with_retlen q (u32 (r.1 * q.writesize)) in
      let w2 =
        if has r.2.chip.debug_flag nand_write_verify_bit
        then nand_write_verify k op q' r.2
        else r.2 in
      some (r.0, q', amlnand_release_device k w2)

  abbrev pub write_one : Phydev → ℕ → World D → Option (ℤ × Phydev × World D)
  write_one q page w =
      let r = run_rounds 0 1 (write_page_at k op q) page (begin_io k op q w) in
      let q' = with_retlen q (u32 (r.1 * q.writesize)) in
      let w2 =
        if has r.2.chip.debug_flag nand_write_verify_bit
        then nand_write_verify k op q' r.2
        else r.2 in
      some (r.0, q', amlnand_release_device k w2)

  -- Writing page `page` of an NTD device on a physical device with the same pages, when the page is
  -- within its size, the device does not use SLC addresses and is not shut down, writes keep the
  -- option word and the chip is got, is writing one page: page `offset / 2 ^ shift + page` of the
  -- chip. The page is verified if that is asked for, and the chip is released.
  pub write_page-chip_page :
      (ntd : NtdInfo) (p : Phydev) (page oob_buf buf : ℕ) (w w1 : World D)
      → OnPages ntd p
      → (page + 1) * 2 ^ p.writesize_shift ≤ p.size
      → has p.option nand_shut_down ≡ false
      → KeepsOption k op op.write_page
      → amlnand_get_device k w ChipState.writing ≡ some w1
      → write_page_with_oob phydev_methods ntd page oob_buf buf p w
        ≡ write_one
            (with_ops p (byte_addr page ntd.pagesize_shift) ntd.pagesize ntd.oobsize buf oob_buf)
            (p.offset / 2 ^ p.writesize_shift + page)
            w1
  unfolding write_page_with_oob
  write_page-chip_page ntd p page oob_buf buf w w1 o h up keep got =
      let q = with_ops p (byte_addr page ntd.pagesize_shift) ntd.pagesize ntd.oobsize buf oob_buf in
      let positive : 0 < 2 ^ p.writesize_shift = one-le-pow p.writesize_shift 2 (omega arith) in
      let fits = page-Fits ntd p page ntd.oobsize oob_buf buf o h in
      nand_write-pages k op q w w1 fits o.not_slc up keep got
      ∙ ap
          (λ n.
            finished_write q
              (run_rounds n 1 (write_page_at k op q) (first_page q) (begin_io k op q w1)))
          (one_round ntd p o positive)
      ∙ ap (λ a. finished_write q (run_rounds 0 1 (write_page_at k op q) a (begin_io k op q w1)))
          (first_page-part ntd p page o h)
