-- ===== src/Phy/Bbt.antt =====
-- phy/chip_operation.c: the operations on the table of bad blocks.
pub mod Marked
pub mod Markbad
mod Tests
use amlnf.Prelude.{
  ℕ, zero, suc, ◌+◌, ◌-◌, ◌*◌, ◌%◌, ◌^◌, Bool, true, false, ◌&&◌, ◌||◌, not, Option, none, some,
  List, [], ◌∷◌, ◌==◌, ltb, if◌then◌else◌,
}
use amlnf.Prelude.Int.{ℤ, pos, negsuc, neg, is_neg, is_zero}
use amlnf.Prelude.Words.{u32, shr, ffs, and_word, or_word}
use amlnf.Guard.{refuse_write}
use amlnf.Phy.Chip.{Chip, ChipState, World, Kernel, has, dev_multi_chip_mode, dev_multi_plane_mode}
use amlnf.Phy.Lock.{nand_get_chip, nand_release_chip, is_ready}

abbrev pub nand_block_good : ℕ
nand_block_good = 0

abbrev pub nand_block_used_bad : ℕ
nand_block_used_bad = 1

abbrev pub nand_block_factory_bad : ℕ
nand_block_factory_bad = 2

abbrev pub nand_write_failed : ℕ
nand_write_failed = 14

abbrev pub nand_read_failed : ℕ
nand_read_failed = 16

abbrev pub nand_bad_blcok_failure : ℕ
nand_bad_blcok_failure = 17

abbrev pub erofs : ℕ
erofs = 30

-- "block_markbad" and "blk_modify_bbt"
abbrev pub block_markbad_name : List ℕ
block_markbad_name = 98 ∷ 108 ∷ 111 ∷ 99 ∷ 107 ∷ 95 ∷ 109 ∷ 97 ∷ 114 ∷ 107 ∷ 98 ∷ 97 ∷ 100 ∷ []

abbrev pub blk_modify_bbt_name : List ℕ
blk_modify_bbt_name =
    98 ∷ 108 ∷ 107 ∷ 95 ∷ 109 ∷ 111 ∷ 100 ∷ 105 ∷ 102 ∷ 121 ∷ 95 ∷ 98 ∷ 98 ∷ 116 ∷ []

-- Statuses by chip and block: `block_status->blk_status`.
abbrev pub Table : Type 0
Table = ℕ → ℕ → ℕ

-- What these operations call: the page operations, the code that saves the table, the controller,
-- and memory. `memset` takes a buffer and a length and clears it.
pub record BbtCalls (D : Type 0) : Type 0 where
  pub read_page : World D → ℤ × World D
  pub write_page : World D → ℤ × World D
  pub amlnand_update_bbt : World D → ℤ × World D
  pub select_chip : ℕ → D → D
  pub memset : ℕ → ℕ → D → D
  pub first_byte : ℕ → D → ℕ

unfoldable pub set_blcok_status : Table → ℕ → ℕ → ℕ → Table
set_blcok_status t chipnr addr value c b =
    if (c == chipnr) && (b == addr) then value % 2 ^ 16 else t c b

unfoldable pub get_blcok_status : Table → ℕ → ℕ → ℤ
get_blcok_status t chipnr addr =
    if t chipnr addr == nand_block_used_bad
    then pos nand_block_used_bad
    else if t chipnr addr == nand_block_factory_bad
    then pos nand_block_factory_bad
    else if t chipnr addr == nand_block_good
    then pos nand_block_good
    else negsuc 0

-- `ops_para->page_addr >> (ffs(blocksize) - ffs(pagesize))`
unfoldable pub block_of : Chip → ℕ
unfolding ffs
block_of c = shr c.ops_para.page_addr (ffs c.flash.blocksize - ffs c.flash.pagesize)

-- The block of the other plane.
abbrev pub partner : ℕ → ℕ
partner blk = if blk % 2 == 0 then u32 (blk + 1) else u32 (blk - 1)

-- `blk_addr <<= 1`
abbrev pub plane_block : ℕ → ℕ
plane_block blk = u32 (blk * 2)

-- `controller->page_addr` is moved into the second internal chip.
unfoldable pub fold_page_addr : Chip → Chip
unfolding or_word
fold_page_addr c =
    let a = c.controller.ctrl_page_addr in
    let n = c.controller.internal_page_nums in
    record c {
      controller = record (c.controller) {
        ctrl_page_addr = if ltb a n then a else or_word (a - n) (u32 (n * c.flash.internal_chipnr));
      };
    }

-- Both planes: the other is looked at when the first is good.
unfoldable pub pair_status : Table → ℕ → ℕ → ℤ
unfolding get_blcok_status
pair_status t chipnr blk =
    let ret = get_blcok_status t chipnr blk in
    if is_zero ret then get_blcok_status t chipnr (partner blk) else ret

-- `for (chipnr = 0; chipnr < chip_num; chipnr++)`, left at the first status that is not good.
unfoldable pub chips_status : ℕ → ℕ → (ℕ → ℤ) → ℤ → ℤ
chips_status zero chipnr status ret = ret
chips_status (suc n) chipnr status ret =
    let rest = chips_status n (suc chipnr) status (status chipnr) in
    if is_zero (status chipnr) then rest else status chipnr

-- What `block_isbad` reads in the table, by the mode of the option.
unfoldable pub status_by_mode : Bool → Bool → Table → ℕ → ℕ → ℕ → ℤ
unfolding pair_status chips_status
status_by_mode true false t chip_num chipnr blk = pair_status t chipnr (plane_block blk)
status_by_mode false true t chip_num chipnr blk =
    chips_status chip_num 0 (λ c. get_blcok_status t c blk) (pos 0)
status_by_mode true true t chip_num chipnr blk =
    let ret = get_blcok_status t chipnr (plane_block blk) in
    let all = chips_status chip_num 0 (λ c. pair_status t c (plane_block blk)) ret in
    if is_zero ret then all else ret
status_by_mode false false t chip_num chipnr blk = get_blcok_status t chipnr blk

-- `for (chipnr = 0; chipnr < chip_num; chipnr++)` with a change of the table for each.
unfoldable pub chips_set : ℕ → ℕ → (ℕ → Table → Table) → Table → Table
chips_set zero chipnr set t = t
chips_set (suc n) chipnr set t = chips_set n (suc chipnr) set (set chipnr t)

-- The blocks that `block_markbad` marks, by the mode of the option.
unfoldable pub mark_by_mode : Bool → Bool → Table → ℕ → ℕ → ℕ → Table
unfolding set_blcok_status chips_set
mark_by_mode true false t chip_num chipnr blk =
    let b = plane_block blk in
    set_blcok_status (set_blcok_status t chipnr b nand_block_used_bad) chipnr (partner b)
      nand_block_used_bad
mark_by_mode false true t chip_num chipnr blk =
    chips_set chip_num 0 (λ c s. set_blcok_status s c blk nand_block_used_bad) t
mark_by_mode true true t chip_num chipnr blk =
    let b = plane_block blk in
    chips_set chip_num 0
      (λ c s.
        set_blcok_status (set_blcok_status s c (partner b) nand_block_used_bad) c b
          nand_block_used_bad)
      t
mark_by_mode false false t chip_num chipnr blk = set_blcok_status t chipnr blk nand_block_used_bad

-- The blocks that `blk_modify_bbt_chip_op` changes. Its second test is `option & value`, where
-- `by_chip` is what that comes to; a `set` returns 0 always, so no loop is left early.
unfoldable pub modify_by_mode : Bool → Bool → Bool → Table → ℕ → ℕ → ℕ → ℕ → Table
unfolding set_blcok_status chips_set
modify_by_mode plane chip by_chip t chip_num chipnr blk value =
    let b = plane_block blk in
    let pair : ℕ → Table → Table =
      λ c s. set_blcok_status (set_blcok_status s c b value) c (partner b) value in
    if plane && not chip
    then pair chipnr t
    else if not plane && by_chip
    then chips_set chip_num 0 (λ c s. set_blcok_status s c blk value) t
    else if plane && chip
    then chips_set chip_num 0 pair (set_blcok_status t chipnr b value)
    else set_blcok_status t chipnr blk value

abbrev pub is_plane : Chip → Bool
is_plane c = has c.ops_para.option dev_multi_plane_mode

abbrev pub is_multi_chip : Chip → Bool
is_multi_chip c = has c.ops_para.option dev_multi_chip_mode

module _ {D : Type 0} (k : Kernel D) (calls : BbtCalls D) where
  -- Without a table, the mark is the first spare byte of the page. `nand_get_chip` sleeps for ever
  -- if the caller has the chip.
  unfoldable pub isbad_on_page : World D → Option (ℤ × World D)
  isbad_on_page w =
      let para = record (w.chip.ops_para) {
        data_buf = w.chip.controller.page_buf;
        oob_buf = w.chip.controller.ctrl_oob_buf;
        ooblen = 8;
      } in
      let w1 = record w {
        chip = record (w.chip) { ops_para = para };
        dev = calls.memset para.oob_buf 8 (calls.memset para.data_buf w.chip.flash.pagesize w.dev);
      } in
      elim (nand_get_chip k w1) [
        | none ↦ none
        | some w2 ↦
            let (ret, w3) = calls.read_page w2 in
            let w4 = nand_release_chip k w3 in
            let failed = is_neg ret || not (w4.chip.ops_para.ecc_err == 0) in
            let bad = calls.first_byte w4.chip.ops_para.oob_buf w4.dev == 0 in
            some (
              (if failed
                  then neg nand_read_failed
                  else if bad
                  then neg nand_bad_blcok_failure
                  else ret),
              w4,
            )
      ]

  unfoldable pub block_isbad : World D → Option (ℤ × World D)
  unfolding block_of fold_page_addr status_by_mode isbad_on_page
  block_isbad w =
      let w1 = record w { chip = fold_page_addr w.chip } in
      elim (w.chip.blk_status) [
        | none ↦ isbad_on_page w1
        | some t ↦ some (
          status_by_mode (is_plane w.chip) (is_multi_chip w.chip) t w.chip.controller.chip_num
              w.chip.ops_para.chipnr (block_of w.chip),
          w1,
        )
      ]

  -- `if (aml_chip->state == CHIP_READY) nand_get_chip(aml_chip);`, and the same for the release
  unfoldable pub take_chip : World D → Option (World D)
  take_chip w = if is_ready w.chip.state then nand_get_chip k w else some w

  unfoldable pub give_chip : World D → World D
  give_chip w = if is_ready w.chip.state then nand_release_chip k w else w

  -- The buffers of `block_markbad`, cleared.
  unfoldable pub mark_page : World D → World D
  mark_page w =
      let c = w.chip.controller in
      let d = calls.select_chip w.chip.ops_para.chipnr w.dev in
      record w {
        chip = record (w.chip) {
          ops_para = record (w.chip.ops_para) { data_buf = c.page_buf; oob_buf = c.ctrl_oob_buf };
        };
        dev =
            calls.memset c.ctrl_oob_buf w.chip.flash.oobsize
              (calls.memset c.page_buf w.chip.flash.pagesize d);
      }

  unfoldable pub finish_mark : Option (World D) → Option (ℤ × World D)
  unfolding give_chip
  finish_mark none = none
  finish_mark (some w) =
      let (ret, w') = calls.write_page w in
      some ((if is_neg ret then neg nand_write_failed else ret), give_chip w')

  -- The end of `block_markbad`: a page of zeros is written at the block.
  unfoldable pub write_mark : World D → Option (ℤ × World D)
  unfolding take_chip mark_page finish_mark
  write_mark w = finish_mark (take_chip (mark_page w))

  -- The table with the marks set.
  unfoldable pub marked : World D → Table → ℕ → World D
  unfolding mark_by_mode
  marked w t blk =
      let t' =
        mark_by_mode (is_plane w.chip) (is_multi_chip w.chip) t w.chip.controller.chip_num
          w.chip.ops_para.chipnr blk in
      record w { chip = record (w.chip) { blk_status = some t' } }

  unfoldable pub block_markbad : World D → Option (ℤ × World D)
  unfolding block_of fold_page_addr marked write_mark refuse_write
  block_markbad w =
      let w1 = record w { chip = fold_page_addr w.chip } in
      let blk = block_of w.chip in
      let chipnr = w.chip.ops_para.chipnr in
      if w.guard.allow_markbad == 0
      then some (
        neg erofs,
        record w { guard = refuse_write w.guard block_markbad_name w.chip.ops_para.page_addr },
      )
      else if w.chip.bbt_arg_valid == 0
      then write_mark w1
      else elim (w.chip.blk_status) [
        | none ↦ write_mark w1
        | some t ↦
            if (t chipnr blk == nand_block_used_bad) || (t chipnr blk == nand_block_factory_bad)
            then some (pos 0, w1)
            else if t chipnr blk == nand_block_good
            then write_mark (calls.amlnand_update_bbt (marked w1 t blk)).1
            else write_mark w1
      ]

  -- The table is not tested for NULL here.
  unfoldable pub blk_modify_bbt_chip_op : ℕ → World D → Option (ℤ × World D)
  unfolding block_of fold_page_addr modify_by_mode refuse_write and_word
  blk_modify_bbt_chip_op value w =
      let w1 = record w { chip = fold_page_addr w.chip } in
      if w.guard.allow_markbad == 0
      then some (
        neg erofs,
        record w { guard = refuse_write w.guard blk_modify_bbt_name w.chip.ops_para.page_addr },
      )
      else elim (w.chip.blk_status) [
        | none ↦ none
        | some t ↦
            let by_chip = not (and_word w.chip.ops_para.option value == 0) in
            let t' =
              modify_by_mode (is_plane w.chip) (is_multi_chip w.chip) by_chip t
                w.chip.controller.chip_num w.chip.ops_para.chipnr (block_of w.chip) value in
            some (pos 0, record w1 { chip = record (w1.chip) { blk_status = some t' } })
      ]

  unfoldable pub update_bbt_chip_op : World D → Option (ℤ × World D)
  unfolding fold_page_addr
  update_bbt_chip_op w = some (calls.amlnand_update_bbt (record w { chip = fold_page_addr w.chip }))
