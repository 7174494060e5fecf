-- ===== src/Phy/Info/Write.antt =====
-- phy/chipenv.c: amlnand_save_info_by_name, the part that writes the pages of a record.
use amlnf.Prelude.{
  ℕ, zero, suc, ◌+◌, ◌-◌, ◌*◌, ◌%◌, Bool, true, false, ◌&&◌, ◌||◌, not, List, ◌==◌, ltb,
  if◌then◌else◌, take, drop, replicate,
}
use Prim.Native.Nat.{min}
use amlnf.Prelude.Int.{ℤ, is_neg}
use amlnf.Prelude.Words.{u32}
use amlnf.Phy.Info.{
  Geometry, Store, ArgInfo, ArgType, ArgOobinfo, Target, page_target, blk_page, pages_read,
  arg_pages, rounds_of, on_chip, hynix_1ynm_8gb,
}
use amlnf.Phy.Info.Bytes.{paste}

-- `memset` of the two user buffers
abbrev pub filled : ℕ → ℕ → List ℕ
filled byte n = replicate n byte

abbrev pub filled_oob : ℕ → ArgOobinfo
filled_oob byte = record { name = replicate 4 byte; timestamp = byte * 256 + byte }

-- The buffer of a page: zeros, and what is left of the record
abbrev pub page_bytes : Geometry → ℕ → ℕ → List ℕ → List ℕ
page_bytes g total amount buf =
    paste (filled 0 g.pagesize) 0 (take (min g.pagesize (total - amount)) (drop amount buf))

-- `size + extra_page * flash->pagesize`
abbrev pub total_size : Geometry → ℕ → ℕ
total_size g size = size + (if size % g.pagesize == 0 then g.pagesize else 0)

unfoldable pub is_hynix_1ynm : Geometry → Bool
is_hynix_1ynm g = g.new_type == hynix_1ynm_8gb

module _ {D : Type 0} (s : Store D) (g : Geometry) where
  -- The page of the pair is written with ones. The option word is and-ed with DEV_SERIAL_CHIP_MODE,
  -- which is 0, so that it is empty.
  unfoldable pub write_paired : Target → D → ℤ × D
  unfolding on_chip
  write_paired t d =
      let mode = s.ran_mode d in
      let (ret, d') =
        on_chip s
          (s.write_page
            (record { chipnr = t.chipnr; page_addr = u32 (t.page_addr + 1); slc = false })
            (filled 255 g.pagesize) (filled_oob 255))
          (s.set_ran_mode 0 d) in
      (ret, s.set_ran_mode mode d')

  -- A page of 0x5a behind the record, and its pair
  unfoldable pub write_dummy : ℕ → ℕ → D → ℤ × D
  unfolding page_target write_paired on_chip
  write_dummy blk page d =
      let t = record (page_target g blk page) { slc = true } in
      let (ret, d') = on_chip s (s.write_page t (filled 90 g.pagesize) (filled_oob 90)) d in
      write_paired t d'

  -- The pages of a record from `page` on. `num` is the page's `temp_page_num`. The result is whether
  -- a page failed, and the last `ret`.
  unfoldable pub write_pages :
      ℕ → ℕ → (ℕ → ℕ) → ℕ → ℕ → ℕ → List ℕ → ArgOobinfo → ℤ → D → (Bool × ℤ) × D
  unfolding page_target write_paired on_chip
  write_pages zero blk num page amount total buf oob ret d = ((false, ret), d)
  write_pages (suc rounds) blk num page amount total buf oob ret d =
      let t = page_target g blk page in
      let (ret1, d1) = on_chip s (s.write_page t (page_bytes g total amount buf) oob) d in
      let (ret2, d2) =
        if is_hynix_1ynm g && not (num page == 0) then write_paired t d1 else (ret1, d1) in
      elim (is_neg ret1) [
        | true ↦ ((true, ret1), d1)
        | false ↦ write_pages rounds blk num (page + 1) (amount + g.pagesize) total buf oob ret2 d2
      ]

  -- FULL_BLK: copies of the record, `i` being the page of the next one. There are no more rounds than
  -- pages. Behind the last copy comes a dummy page, for a Hynix of 1y nm.
  unfoldable pub write_copies : ℕ → ℕ → ℕ → ℕ → List ℕ → ArgOobinfo → ℤ → D → (Bool × ℤ) × D
  unfolding write_pages write_dummy pages_read arg_pages
  write_copies zero blk i size buf oob ret d = ((false, ret), d)
  write_copies (suc rounds) blk i size buf oob ret d =
      let total = total_size g size in
      let last =
        if is_hynix_1ynm g
        then (let (ret', d') = write_dummy blk i d in ((false, ret'), d'))
        else ((false, ret), d) in
      let (r, d1) =
        write_pages (rounds_of total g.pagesize) blk (λ page. page) i 0 total buf oob ret d in
      elim (ltb i (pages_read g)) [
        | false ↦ ((false, ret), d)
        | true ↦ elim (ltb (pages_read g - i) (arg_pages g size)) [
          | true ↦ last
          | false ↦ elim (r.0 || is_neg r.1) [
            | true ↦ (r, d1)
            | false ↦ write_copies rounds blk (i + arg_pages g size) size buf oob r.1 d1
          ]
        ]
      ]

  -- FULL_PAGE: the first page of the record in the block
  unfoldable pub next_page : ArgInfo → Bool → ℕ → ℕ
  unfolding arg_pages
  next_page info full size =
      if not (info.arg_valid == 0) && not full && (info.update_flag == 0)
      then info.valid_page_addr + arg_pages g size + (if is_hynix_1ynm g then 1 else 0)
      else 0

  -- FULL_PAGE: one copy of the record, and the dummy page behind it for a Hynix of 1y nm.
  unfoldable pub write_one_copy :
      ArgInfo → Bool → ℕ → ℕ → List ℕ → ArgOobinfo → ℤ → D → (Bool × ℤ) × D
  unfolding write_pages write_dummy next_page blk_page
  write_one_copy info full blk size buf oob ret d =
      let total = total_size g size in
      let rounds = rounds_of total g.pagesize in
      let page = next_page info full size in
      let num = λ (p : ℕ). blk_page g blk p % 256 in
      let (r, d1) = write_pages rounds blk num page 0 total buf oob ret d in
      if is_hynix_1ynm g && not r.0
      then (let (ret', d2) = write_dummy blk (num (page + rounds - 1) + 1) d1 in
          ((false, ret'), d2))
      else (r, d1)

  unfoldable pub write_record :
      ArgType → ArgInfo → Bool → ℕ → ℕ → List ℕ → ArgOobinfo → ℤ → D → (Bool × ℤ) × D
  unfolding write_copies write_one_copy pages_read
  write_record ArgType.full_blk info full blk size buf oob ret d =
      write_copies (pages_read g) blk 0 size buf oob ret d
  write_record ArgType.full_page info full blk size buf oob ret d =
      write_one_copy info full blk size buf oob ret d
