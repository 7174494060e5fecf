-- ===== src/Phy/Info/Read.antt =====
-- phy/chipenv.c: amlnand_read_info_by_name.
use amlnf.Prelude.{
  ℕ, zero, suc, ◌+◌, ◌-◌, Bool, true, false, ◌||◌, not, List, ◌==◌, take, if◌then◌else◌,
}
use Prim.Native.Nat.{min}
use amlnf.Prelude.Int.{ℤ, pos, is_neg}
use amlnf.Guard.Parts.{strn_eq}
use amlnf.Phy.Info.Bytes.{paste}
use amlnf.Phy.Info.{Geometry, Store, ArgInfo, PageRead, page_target, on_chip, rounds_of}

-- Did the read fail?
abbrev pub read_failed : PageRead → Bool
read_failed r = not (r.ecc_err == 0) || is_neg r.ret

module _ {D : Type 0} (s : Store D) (g : Geometry) where
  -- The loop over the pages from `page` on, with `amount` bytes loaded: the result, the buffer.
  unfoldable pub load_pages : ℕ → List ℕ → ℕ → ℕ → ℕ → ℕ → ℤ → List ℕ → D → (ℤ × List ℕ) × D
  unfolding page_target on_chip strn_eq
  load_pages zero name blk page amount size ret buf d = ((ret, buf), d)
  load_pages (suc rounds) name blk page amount size ret buf d =
      let (r, d') = on_chip s (s.read_page (page_target g blk page)) d in
      let buf' =
        if strn_eq 4 r.oob_buf.name name
        then paste buf amount (take (min g.pagesize (size - amount)) r.page_buf)
        else buf in
      elim (read_failed r) [
        | true ↦ ((r.ret, buf), d')
        | false ↦ load_pages rounds name blk (page + 1) (amount + g.pagesize) size r.ret buf' d'
      ]

  -- The result and the buffer. A record that is not valid is not looked for.
  unfoldable pub amlnand_read_info_by_name : ArgInfo → List ℕ → List ℕ → ℕ → D → (ℤ × List ℕ) × D
  unfolding load_pages
  amlnand_read_info_by_name info buf name size d =
      if info.arg_valid == 1
      then load_pages (rounds_of size g.pagesize) name info.valid_blk_addr info.valid_page_addr 0
          size (pos 0) buf d
      else ((pos 0, buf), d)
