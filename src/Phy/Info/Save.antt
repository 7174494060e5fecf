-- ===== src/Phy/Info/Save.antt =====
-- phy/chipenv.c: amlnand_save_info_by_name. With arg_type FULL_BLK a record fills a fresh block with
-- its copies; with FULL_PAGE it is added behind the last one, twice. `none` is out of fuel in the
-- search of the last reserved block.
use amlnf.Prelude.{
  ℕ, zero, suc, ◌+◌, ◌*◌, ◌%◌, Bool, true, false, ◌&&◌, ◌||◌, not, Option, none, some, List, [],
  ◌∷◌, ◌==◌, ltb, if◌then◌else◌, take,
}
use amlnf.Prelude.Int.{ℤ, pos, negsuc, neg, is_neg, is_zero}
use amlnf.Guard.{Guard}
use amlnf.Phy.Bbt.{erofs, nand_write_failed}
use amlnf.Phy.Info.{
  Geometry, Store, ArgInfo, ArgType, ArgOobinfo, written_target, pages_read, arg_pages, on_chip,
  nand_bad_blcok_failure,
}
use amlnf.Phy.Info.Free.{amlnand_get_free_block}
use amlnf.Phy.Info.Write.{is_hynix_1ynm, write_record}

-- `reserved_blk` is of bytes, and 0xff marks a free place: the first of them is taken.
unfoldable pub add_reserved : List ℕ → ℕ → List ℕ
add_reserved [] blk = []
add_reserved (b ∷ table) blk =
    let rest = add_reserved table blk in if b == 255 then (blk % 256) ∷ table else b ∷ rest

-- The first place of the block is freed.
unfoldable pub free_reserved : List ℕ → ℕ → List ℕ
free_reserved [] blk = []
free_reserved (b ∷ table) blk =
    let rest = free_reserved table blk in if b == blk then 255 ∷ table else b ∷ rest

-- The unsigned word of a result that is not negative
abbrev pub blk_of : ℤ → ℕ
blk_of (pos n) = n
blk_of (negsuc n) = 0

-- What one attempt to write a record comes to: there is no block for it, it was written with the
-- last result, or a page failed. The block and `full_page_flag` go with it.
pub data Attempt : Type 0 where
  no_block : Attempt
  wrote failed : ℤ → ℕ → Bool → Attempt

-- The end of a pass: whether the function returns, and with what.
pub record Pass : Type 0 where
  pub exits : Bool
  pub ret : ℤ
  pub info : ArgInfo
  pub table : List ℕ
  pub blk : ℕ
  pub tries : ℕ

module _ {D : Type 0} (s : Store D) (g : Geometry) where
  abbrev pub is_full_page : ArgType → Bool
  is_full_page ArgType.full_blk = false
  is_full_page ArgType.full_page = true

  -- Does the record stay in its block? If not, does the block lack room for it?
  abbrev pub stays : ArgInfo → Bool
  stays info = not (info.arg_valid == 0) && (info.update_flag == 0) && is_full_page info.arg_type

  unfoldable pub lacks_room : ArgInfo → ℕ → Bool
  unfolding arg_pages pages_read
  lacks_room info size = ltb (pages_read g) (info.valid_page_addr + 2 * arg_pages g size)

  -- From `get_free_blk` to the end of the write. `fuel` is for the search of the last reserved block.
  unfoldable pub attempt :
      ℕ → ArgInfo → List ℕ → Bool → ℕ → ℕ → List ℕ → ArgOobinfo → ℤ → D → Option (Attempt × D)
  unfolding lacks_room amlnand_get_free_block write_record
  attempt fuel info table full blk size buf oob ret d =
      let written : Bool → ℕ → ℤ → D → Attempt × D = λ full' blk' ret' d'.
        let (r, d2) = write_record s g info.arg_type info full' blk' size buf oob ret' d' in
        ((if r.0 then Attempt.failed r.1 blk' full' else Attempt.wrote r.1 blk' full'), d2) in
      if stays info && not (lacks_room info size)
      then some (written full info.valid_blk_addr ret d)
      else elim (amlnand_get_free_block s g fuel table blk d) [
        | none ↦ none
        | some (got, d1) ↦ some (
            if is_neg got
            then (Attempt.no_block, d1)
            else written (full || stays info) (blk_of got) got d1)
      ]

  -- After a page or an erase that failed: the block is tested, and marked if the test fails.
  unfoldable pub after_failure : ℕ → D → ℤ × D
  unfolding written_target
  after_failure blk d =
      let (ret, d1) = s.test_block_reserved blk d in
      if is_zero ret then (ret, d1) else s.block_markbad (written_target g blk) d1

  -- The attempts: three tests may go before the last of them.
  unfoldable pub attempts :
      ℕ
      → ℕ
      → ArgInfo
      → List ℕ
      → Bool
      → ℕ
      → ℕ
      → List ℕ
      → ArgOobinfo
      → ℤ
      → D
      → Option ((ℕ × Attempt) × D)
  unfolding attempt after_failure
  attempts zero fuel info table full blk size buf oob ret d =
      elim (attempt fuel info table full blk size buf oob ret d) [
        | none ↦ none
        | some (a, d1) ↦ some ((0, a), d1)
      ]
  attempts (suc tries) fuel info table full blk size buf oob ret d =
      elim (attempt fuel info table full blk size buf oob ret d) [
        | none ↦ none
        | some (a, d1) ↦ elim a [
          | no_block ↦ some ((suc tries, Attempt.no_block), d1)
          | wrote ret1 blk1 full1 ↦ some ((suc tries, Attempt.wrote ret1 blk1 full1), d1)
          | failed ret1 blk1 full1 ↦
              let (ret2, d2) = after_failure blk1 d1 in
              attempts tries fuel info table full1 blk1 size buf oob ret2 d2
        ]
      ]

  -- The block of the record changes with FULL_BLK, and with FULL_PAGE when it was full or worn.
  abbrev pub moves : ArgInfo → Bool → Bool
  moves info full = not (is_full_page info.arg_type) || full || not (info.update_flag == 0)

  -- The record's place after the write
  unfoldable pub moved : ArgInfo → Bool → ℕ → ℕ → ArgInfo
  unfolding arg_pages
  moved info full blk size = record info {
    valid_blk_addr = blk % 65536;
    valid_page_addr =
        if info.arg_valid == 0
        then info.valid_page_addr
        else if moves info full
        then 0
        else (info.valid_page_addr + arg_pages g size + (if is_hynix_1ynm g then 1 else 0)) % 65536;
  }

  -- The old block is erased and freed; the error of a mark that fails goes out.
  unfoldable pub erase_old : ArgInfo → Bool → List ℕ → ℤ → D → (Bool × ℤ × List ℕ) × D
  unfolding written_target on_chip free_reserved after_failure
  erase_old info full table ret d =
      let old = info.valid_blk_addr in
      if moves info full && not (info.arg_valid == 0) && not (old == 0)
      then (let (ret1, d1) = on_chip s (s.erase_block (written_target g old)) d in
          let (ret2, d2) = if is_neg ret1 then after_failure old d1 else (ret1, d1) in
          if is_neg ret1 && is_neg ret2
          then ((true, ret2, table), d2)
          else ((false, ret2, free_reserved table old), d2))
      else ((false, ret, table), d)

  -- What follows the attempts
  unfoldable pub finish_pass : ArgInfo → List ℕ → ℕ → ℕ → Attempt → D → Pass × D
  unfolding moved erase_old add_reserved
  finish_pass info table size tries Attempt.no_block d = (
    record {
      exits = true;
      ret = neg nand_bad_blcok_failure;
      info = info;
      table = table;
      blk = 0;
      tries = tries;
    },
    d,
  )
  finish_pass info table size tries (Attempt.failed ret blk full) d = (
    record {
      exits = true;
      ret = neg nand_write_failed;
      info = info;
      table = table;
      blk = blk;
      tries = tries;
    },
    d,
  )
  finish_pass info table size tries (Attempt.wrote ret blk full) d =
      let table1 =
        if (info.arg_valid == 0) || moves info full then add_reserved table blk else table in
      let ((exits, ret2, table2), d2) = erase_old info full table1 ret d in
      if is_neg ret
      then (
        record {
          exits = true;
          ret = neg nand_write_failed;
          info = info;
          table = table;
          blk = blk;
          tries = tries;
        },
        d,
      )
      else (
        record {
          exits = exits;
          ret = ret2;
          info = moved info full blk size;
          table = table2;
          blk = blk;
          tries = tries;
        },
        d2,
      )

  -- From `write_again` on, with the tries that are left
  unfoldable pub save_pass :
      ℕ → ℕ → ArgInfo → List ℕ → ℕ → ℕ → List ℕ → List ℕ → D → Option (Pass × D)
  unfolding attempts finish_pass
  save_pass tries fuel info table blk size buf name d =
      let stamp = (info.timestamp + 1) % 65536 in
      let info1 = record info { timestamp = stamp } in
      let oob : ArgOobinfo = record { name = take 4 name; timestamp = stamp } in
      elim (attempts tries fuel info1 table false blk size buf oob (pos 0) d) [
        | none ↦ none
        | some ((tries', a), d1) ↦ some (finish_pass info1 table size tries' a d1)
      ]

  abbrev pub made_valid : ArgInfo → ArgInfo
  made_valid info = record info { arg_valid = 1 }

  -- The result, the record's place and the table of the blocks in use
  unfoldable pub second_pass :
      ArgType → ℕ → Pass → ℕ → List ℕ → List ℕ → D → Option ((ℤ × ArgInfo × List ℕ) × D)
  unfolding save_pass
  second_pass ArgType.full_blk fuel p size buf name d =
      some ((p.ret, made_valid p.info, p.table), d)
  second_pass ArgType.full_page fuel p size buf name d =
      elim (save_pass p.tries fuel (record p.info { arg_valid = 1; update_flag = 0 }) p.table p.blk
        size buf name d) [
          | none ↦ none
          | some (q, d1) ↦
              some ((q.ret, (if q.exits then q.info else made_valid q.info), q.table), d1)
        ]

  unfoldable pub amlnand_save_info_by_name :
      Guard → ℕ → ArgInfo → List ℕ → List ℕ → List ℕ → ℕ → D → Option ((ℤ × ArgInfo × List ℕ) × D)
  unfolding save_pass second_pass
  amlnand_save_info_by_name guard fuel info table buf name size d =
      if guard.allow_meta == 0
      then some ((neg erofs, info, table), d)
      else elim (save_pass 3 fuel info table 0 size buf name d) [
        | none ↦ none
        | some (p, d1) ↦
            if p.exits
            then some ((p.ret, p.info, p.table), d1)
            else second_pass info.arg_type fuel p size buf name d1
      ]
