-- ===== src/Block/Interface/Page.antt =====
-- block/aml_nftl_hw_interface.c over ntd/aml_ntdpart.c and dev/phydev.c: which page of the chip the
-- translation layer reads and writes.
use amlnf.Prelude.{
  ℕ, zero, suc, ◌+◌, ◌*◌, ◌/◌, ◌^◌, ◌≤◌, ◌<◌, ◌≡◌, sym, ap, ◌∙◌, false, some, arith, subst,
}
use native.Mathlib.Nat.{mod-eq_of_lt, div-lt_iff_lt-mul, mul-div_cancel, one-le-pow, two-pow-succ}
use amlnf.Prelude.Words.{u32, u64, shr}
use amlnf.Phy.Chip.{ChipState, World, Kernel, ChipOperation, has, nand_shut_down}
use amlnf.Phy.Lock.{amlnand_get_device}
use amlnf.Dev.Phydev.{Phydev}
use amlnf.Dev.Phydev.Pages.{KeepsOption}
use amlnf.Ntd.{NtdInfo}
use amlnf.Ntd.Part.{with_ops, byte_addr}
use amlnf.Ntd.Part.Page.{
  OnPages, phydev_methods, read_one, write_one, read_page-chip_page, write_page-chip_page,
}
use amlnf.Block.Interface.{
  PhysicOpPar, from_page, read_answer, answering, nand_read_page, nand_write_page,
}

-- The page of the device: `d` is the number of pages of a block, as a power of two.
abbrev pub device_page : PhysicOpPar → ℕ → ℕ
device_page op d = op.blk_no_in_chip * 2 ^ d + op.page_no

-- The operation is on a page of the device, whose blocks have `2 ^ d` pages.
pub record InBlocks (ntd : NtdInfo) (p : Phydev) (op : PhysicOpPar) (d : ℕ) : Type 0 where
  pub pages : OnPages ntd p
  pub block_shift : ntd.blocksize_shift ≡ d + p.writesize_shift
  pub within : (device_page op d + 1) * 2 ^ p.writesize_shift ≤ p.size

two_pow_add : (d n : ℕ) → 2 ^ (d + n) ≡ 2 ^ d * 2 ^ n
two_pow_add zero n =
    let zero_add : 0 + n ≡ n = omega arith in ap (λ x. 2 ^ x) zero_add ∙ (omega arith)
two_pow_add (suc d) n =
    let suc_add : suc d + n ≡ suc (d + n) = omega arith in
    ap (λ x. 2 ^ x) suc_add
    ∙ two-pow-succ (d + n)
    ∙ omega (arith, two_pow_add d n)
    ∙ ap (λ x. x * 2 ^ n) (sym (two-pow-succ d))

shifted :
    (blk bs ps d : ℕ)
    → bs ≡ d + ps
    → 0 < 2 ^ ps
    → blk * 2 ^ d * 2 ^ ps < 2 ^ 64
    → shr (u64 (blk * 2 ^ bs)) ps ≡ blk * 2 ^ d
shifted blk bs ps d e lo h =
    ap (λ s. shr (u64 (blk * 2 ^ s)) ps) e
    ∙ ap (λ x. shr (u64 (blk * x)) ps) (two_pow_add d ps)
    ∙ ap (λ x. shr (u64 x) ps) (omega arith)
    ∙ ap (λ x. x / 2 ^ ps) (mod-eq_of_lt h)
    ∙ mul-div_cancel (blk * 2 ^ d) lo

below_lem : (a m n : ℕ) → 0 < m → a * m < n * m → a < n
below_lem a m n lo h = subst (λ x. x < n) (mul-div_cancel a lo) ((div-lt_iff_lt-mul lo).1 h)

from_page-device_page :
    (ntd : NtdInfo) (p : Phydev) (op : PhysicOpPar) (d : ℕ)
    → InBlocks ntd p op d
    → from_page ntd op ≡ device_page op d
unfolding from_page
from_page-device_page ntd p op d b =
    let positive : 0 < 2 ^ p.writesize_shift = one-le-pow p.writesize_shift 2 (omega arith) in
    let small : device_page op d < 2 ^ 32 =
      below_lem (device_page op d) (2 ^ p.writesize_shift) (2 ^ 32) positive
        (omega (arith, b.within, b.pages.in_reach)) in
    let reach : op.blk_no_in_chip * 2 ^ d * 2 ^ p.writesize_shift < 2 ^ 64 =
      omega (arith, b.within, b.pages.no_wrap) in
    ap (λ s. u32 (shr (u64 (op.blk_no_in_chip * 2 ^ ntd.blocksize_shift)) s + op.page_no))
      b.pages.same_shift
    ∙ ap (λ x. u32 (x + op.page_no))
        (shifted op.blk_no_in_chip ntd.blocksize_shift p.writesize_shift d b.block_shift positive
          reach)
    ∙ mod-eq_of_lt small

module _ {D : Type 0} (k : Kernel D) (op : ChipOperation D) where
  device_page-fits :
      (ntd : NtdInfo) (p : Phydev) (par : PhysicOpPar) (d : ℕ)
      → InBlocks ntd p par d
      → (from_page ntd par + 1) * 2 ^ p.writesize_shift ≤ p.size
  device_page-fits ntd p par d b =
      subst (λ x. (x + 1) * 2 ^ p.writesize_shift ≤ p.size)
        (sym (from_page-device_page ntd p par d b)) b.within

  -- The translation layer's read of a page of a block, on an NTD device over a physical device with
  -- the same pages and blocks, when the page is within its size, the device does not use SLC
  -- addresses, reads keep the option word and the chip is got, is a read of one page: page
  -- `offset / 2 ^ shift + block * 2 ^ d + page` of the chip, for blocks of `2 ^ d` pages. Answers
  -- other than 0 and -EUCLEAN become -EBADMSG.
  pub nand_read_page-chip_page :
      (ntd : NtdInfo) (p : Phydev) (par : PhysicOpPar) (d : ℕ) (w w1 : World D)
      → InBlocks ntd p par d
      → KeepsOption k op op.read_page
      → amlnand_get_device k w ChipState.reading ≡ some w1
      → nand_read_page (phydev_methods k op) ntd par p w
        ≡ answering read_answer (
            read_one k op
              (with_ops p
                (byte_addr (device_page par d) ntd.pagesize_shift)
                ntd.pagesize
                ntd.oobsize
                par.main_data_addr
                par.spare_data_addr)
              (p.offset / 2 ^ p.writesize_shift + device_page par d)
              w1)
  unfolding nand_read_page
  nand_read_page-chip_page ntd p par d w w1 b keep got =
      ap (answering read_answer) (
        read_page-chip_page k op ntd p (from_page ntd par) par.spare_data_addr par.main_data_addr w
          w1 b.pages (device_page-fits ntd p par d b) keep got)
      ∙ ap
          (λ n. answering read_answer (
            read_one k op
              (with_ops p (byte_addr n ntd.pagesize_shift) ntd.pagesize ntd.oobsize
                par.main_data_addr par.spare_data_addr)
              (p.offset / 2 ^ p.writesize_shift + n) w1))
          (from_page-device_page ntd p par d b)

  -- The translation layer's write of a page of a block, on an NTD device over a physical device with
  -- the same pages and blocks, when the page is within its size, the device does not use SLC
  -- addresses and is not shut down, writes keep the option word and the chip is got, is a write of
  -- one page: page `offset / 2 ^ shift + block * 2 ^ d + page` of the chip, for blocks of `2 ^ d`
  -- pages.
  pub nand_write_page-chip_page :
      (ntd : NtdInfo) (p : Phydev) (par : PhysicOpPar) (d : ℕ) (w w1 : World D)
      → InBlocks ntd p par d
      → has p.option nand_shut_down ≡ false
      → KeepsOption k op op.write_page
      → amlnand_get_device k w ChipState.writing ≡ some w1
      → nand_write_page (phydev_methods k op) ntd par p w
        ≡ write_one k op
            (with_ops p
              (byte_addr (device_page par d) ntd.pagesize_shift)
              ntd.pagesize
              ntd.oobsize
              par.main_data_addr
              par.spare_data_addr)
            (p.offset / 2 ^ p.writesize_shift + device_page par d)
            w1
  unfolding nand_write_page
  nand_write_page-chip_page ntd p par d w w1 b up keep got =
      write_page-chip_page k op ntd p (from_page ntd par) par.spare_data_addr par.main_data_addr w
        w1 b.pages (device_page-fits ntd p par d b) up keep got
      ∙ ap
          (λ n.
            write_one k op
              (with_ops p (byte_addr n ntd.pagesize_shift) ntd.pagesize ntd.oobsize
                par.main_data_addr par.spare_data_addr)
              (p.offset / 2 ^ p.writesize_shift + n) w1)
          (from_page-device_page ntd p par d b)
