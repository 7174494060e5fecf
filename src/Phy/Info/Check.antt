-- ===== src/Phy/Info/Check.antt =====
-- phy/chipenv.c: amlnand_check_info_by_name, which looks for a record on the reserved blocks when the
-- driver starts. `none` is out of fuel.
use amlnf.Prelude.{
  ℕ, zero, suc, ◌+◌, ◌*◌, ◌/◌, ◌%◌, Bool, false, ◌&&◌, ◌||◌, not, Option, none, some, List, ◌==◌,
  ltb, if◌then◌else◌,
}
use amlnf.Prelude.Int.{ℤ, pos, is_zero}
use amlnf.Guard.Parts.{strn_eq}
use amlnf.Phy.Info.{
  Geometry, Store, ArgInfo, ArgType, ArgOobinfo, PageRead, page_target, blk_target, pages_per_blk,
  pages_read, first_blk, arg_pages, on_chip, reserved_block_cnt,
}
use amlnf.Phy.Info.Read.{read_failed}
use amlnf.Phy.Info.Write.{is_hynix_1ynm}
use amlnf.Phy.Info.Save.{add_reserved}

-- `read_middle_page_failed`: 0, -1 and -2
pub data Part : Type 0 where
  first_part middle_part last_part : Part

-- The place and the stamp of a record after a block was found to hold it.
unfoldable pub note_block : ArgInfo → ℕ → ArgOobinfo → ArgInfo
note_block info blk oob =
    if info.arg_valid == 1
    then (if ltb info.timestamp oob.timestamp
        then record info {
          free_blk_addr = info.valid_blk_addr;
          valid_blk_addr = blk;
          timestamp = oob.timestamp;
        }
        else record info { free_blk_addr = blk })
    else record info { arg_valid = 1; valid_blk_addr = blk; timestamp = oob.timestamp }

-- The block counts if the page that was read on it has the record's name.
unfoldable pub noted : List ℕ → ℕ → ArgInfo → Option ArgOobinfo → ArgInfo
unfolding note_block strn_eq
noted name blk info none = info
noted name blk info (some oob) = if strn_eq 4 oob.name name then note_block info blk oob else info

-- The place and the stamp of a record after a page was found to hold it.
unfoldable pub note_page : ArgInfo → ℕ → ArgOobinfo → ArgInfo
note_page info page oob = record info { valid_page_addr = page % 65536; timestamp = oob.timestamp }

module _ {D : Type 0} (s : Store D) (g : Geometry) where
  -- A page of a block that is looked at. The chip is taken and released whatever its state is.
  unfoldable pub read_blk_page : ℕ → ℕ → D → PageRead × D
  unfolding page_target
  read_blk_page blk page d =
      let (r, d') = s.read_page (page_target g blk page) (s.get_chip d) in (r, s.release_chip d')

  -- After a page that cannot be read, `failed` being the count with it: where to look next.
  unfoldable pub next_try : ℕ → ℕ → ℕ → Part → ℕ × Part
  unfolding arg_pages pages_per_blk
  next_try size i failed Part.first_part =
      let n = arg_pages g size in
      if ltb 8 failed
      then (n * (pages_per_blk g / n / 2), Part.middle_part)
      else (i + n, Part.first_part)
  next_try size i failed Part.middle_part =
      let n = arg_pages g size in (n * (pages_per_blk g / n), Part.last_part)
  next_try size i failed Part.last_part = (i + arg_pages g size, Part.last_part)

  -- The first page of the block that can be read, if there is one; `ret` is the last result.
  unfoldable pub first_page :
      ℕ → ℕ → ℕ → ℕ → ℕ → Part → ℤ → D → Option ((ℤ × Option ArgOobinfo) × D)
  unfolding read_blk_page next_try pages_read
  first_page zero size blk i failed part ret d =
      if ltb i (pages_read g) then none else some ((ret, none), d)
  first_page (suc fuel) size blk i failed part ret d =
      let (r, d') = read_blk_page blk i d in
      let next = next_try size i (failed + 1) part in
      let rest = first_page fuel size blk next.0 (failed + 1) next.1 r.ret d' in
      if ltb i (pages_read g)
      then (if read_failed r then rest else some ((r.ret, some r.oob_buf), d'))
      else some ((ret, none), d)

  -- A block of the scan. A block that is bad in any way is passed over.
  unfoldable pub check_block : ℕ → List ℕ → ℕ → ℕ → ArgInfo → D → Option ((ℤ × ArgInfo) × D)
  unfolding first_page noted blk_target
  check_block fuel name size blk info d =
      let (bad, d1) = s.block_isbad (blk_target g blk) d in
      if not (is_zero bad)
      then some ((bad, info), d1)
      else elim (first_page fuel size blk 0 0 Part.first_part bad d1) [
        | none ↦ none
        | some ((ret, found), d2) ↦ some ((ret, noted name blk info found), d2)
      ]

  -- A record of type FULL_BLK is looked for up to the first block that holds it.
  abbrev pub scan_ends : ArgType → ArgInfo → Bool
  scan_ends ArgType.full_blk info = (info.arg_valid == 1) && not (info.valid_blk_addr == 0)
  scan_ends ArgType.full_page info = false

  -- The `left` blocks from `blk` on, which is of 16 bits
  unfoldable pub check_blocks :
      ℕ → ℕ → List ℕ → ℕ → ℕ → ArgInfo → ℤ → D → Option ((ℤ × ArgInfo) × D)
  unfolding check_block
  check_blocks fuel zero name size blk info ret d = some ((ret, info), d)
  check_blocks fuel (suc left) name size blk info ret d =
      elim (check_block fuel name size blk info d) [
        | none ↦ none
        | some ((ret', info'), d') ↦
            if (not (is_zero (s.block_isbad (blk_target g blk) d).0))
              || not (scan_ends info.arg_type info')
            then check_blocks fuel left name size ((blk + 1) % 65536) info' ret' d'
            else some ((ret', info'), d')
      ]

  -- FULL_BLK: the first page of the block that can be read and holds the record. There are no more
  -- rounds than pages.
  unfoldable pub first_copy_page : ℕ → List ℕ → ℕ → ℕ → ArgInfo → ℤ → D → (ℤ × ArgInfo) × D
  unfolding page_target on_chip note_page pages_read arg_pages strn_eq
  first_copy_page zero name size i info ret d = ((ret, info), d)
  first_copy_page (suc rounds) name size i info ret d =
      let next = i + arg_pages g size in
      let (r, d') = on_chip s (s.read_page (page_target g info.valid_blk_addr i)) d in
      let unread =
        first_copy_page rounds name size next (record info { update_flag = 1 }) r.ret d' in
      let other = first_copy_page rounds name size next info r.ret d' in
      if not (ltb i (pages_read g))
      then ((ret, info), d)
      else if read_failed r
      then unread
      else if strn_eq 4 r.oob_buf.name name
      then ((r.ret, note_page info i r.oob_buf), d')
      else other

  -- FULL_PAGE: the last copy before a page that can be read and holds none.
  unfoldable pub last_copy_page : ℕ → List ℕ → ℕ → ℕ → ArgInfo → ℤ → D → (ℤ × ArgInfo) × D
  unfolding page_target on_chip note_page pages_read arg_pages strn_eq is_hynix_1ynm
  last_copy_page zero name size i info ret d = ((ret, info), d)
  last_copy_page (suc rounds) name size i info ret d =
      let next = i + arg_pages g size in
      let (r, d') = on_chip s (s.read_page (page_target g info.valid_blk_addr i)) d in
      let unread =
        last_copy_page rounds name size next (record info { update_flag = 1 }) r.ret d' in
      let more =
        last_copy_page rounds name size (next + (if is_hynix_1ynm g then 1 else 0))
          (note_page info i r.oob_buf) r.ret d' in
      if not (ltb i (pages_read g))
      then ((ret, info), d)
      else if read_failed r
      then unread
      else if strn_eq 4 r.oob_buf.name name
      then more
      else ((r.ret, info), d')

  unfoldable pub find_page : ArgType → List ℕ → ℕ → ArgInfo → ℤ → D → (ℤ × ArgInfo) × D
  unfolding first_copy_page last_copy_page
  find_page ArgType.full_blk name size info ret d =
      first_copy_page (pages_read g) name size 0 info ret d
  find_page ArgType.full_page name size info ret d =
      last_copy_page (pages_read g) name size 0 info ret d

  -- The result, the record's place, and the table of the blocks in use
  unfoldable pub amlnand_check_info_by_name :
      ℕ → ArgInfo → List ℕ → List ℕ → ℕ → D → Option ((ℤ × ArgInfo × List ℕ) × D)
  unfolding check_blocks find_page first_blk add_reserved
  amlnand_check_info_by_name fuel info table name size d =
      elim (check_blocks fuel reserved_block_cnt name size (first_blk g % 65536) info (pos 0) d) [
        | none ↦ none
        | some ((ret, info1), d1) ↦
            if info1.arg_valid == 1
            then (let (r, d2) = find_page info.arg_type name size info1 ret d1 in
                some ((r.0, r.1, add_reserved table r.1.valid_blk_addr), d2))
            else some ((ret, info1, table), d1)
      ]
