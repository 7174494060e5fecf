-- ===== src/Phy/Info.antt =====
-- phy/chipenv.c: the records that the driver keeps on the reserved blocks of the flash (the table of
-- bad blocks, the configuration, the environment): what they are made of, and where their pages are.
pub mod Free
pub mod Fresh
mod Table
pub mod Read
pub mod Write
pub mod Save
pub mod Check
pub mod Init
pub mod Visited
pub mod Restart
pub mod Reload
pub mod Update
pub mod Datasum
pub mod Scanned
pub mod Copies
pub mod Found
pub mod Bytes
pub mod Medium
mod Written
mod Loaded
pub mod Pages
pub mod Stored
pub mod Roundtrip
pub mod Samples
mod Tests
use amlnf.Prelude.{
  ℕ, zero, suc, ◌+◌, ◌-◌, ◌*◌, ◌/◌, ◌%◌, ◌^◌, Bool, true, false, ◌&&◌, ◌||◌, not, List, [], ◌∷◌,
  ◌==◌, ltb, if◌then◌else◌,
}
use amlnf.Prelude.Int.{ℤ}
use amlnf.Prelude.Words.{u32, ffs, or_word}
use amlnf.Phy.Chip.{sandisk_19nm}

-- RESERVED_BLOCK_CNT
abbrev pub reserved_block_cnt : ℕ
reserved_block_cnt = 48

abbrev pub nand_bad_blcok_failure : ℕ
nand_bad_blcok_failure = 17

-- HYNIX_1YNM_8GB
abbrev pub hynix_1ynm_8gb : ℕ
hynix_1ynm_8gb = 6

-- What this code reads of the flash and of the controller. `pagelist` is that of `slc_info`.
pub record Geometry : Type 0 where
  pub pagesize : ℕ
  pub blocksize : ℕ
  pub new_type : ℕ
  pub chip_num : ℕ
  pub pagelist : ℕ → ℕ

-- struct _nand_arg_oobinfo, which each page carries in its spare bytes
pub record ArgOobinfo : Type 0 where
  pub name : List ℕ
  pub timestamp : ℕ

-- `arg_type`: FULL_BLK is 0, FULL_PAGE is 1.
pub data ArgType : Type 0 where
  full_blk full_page : ArgType

-- struct _nand_arg_info
pub record ArgInfo : Type 0 where
  pub arg_type : ArgType
  pub valid_blk_addr : ℕ
  pub valid_page_addr : ℕ
  pub free_blk_addr : ℕ
  pub arg_valid : ℕ
  pub timestamp : ℕ
  pub update_flag : ℕ

-- `ops_para` of an operation: the chip, the page, and whether the option word has DEV_SLC_MODE.
pub record Target : Type 0 where
  pub chipnr : ℕ
  pub page_addr : ℕ
  pub slc : Bool

-- What an operation that reads leaves: its result, `ecc_err`, and the two user buffers.
pub record PageRead : Type 0 where
  pub ret : ℤ
  pub ecc_err : ℕ
  pub page_buf : List ℕ
  pub oob_buf : ArgOobinfo

-- The operations of the chip, with `user_page_buf` and `user_oob_buf` as arguments and results, over
-- all that is outside. Each of them selects its chip first.
pub record Store (D : Type 0) : Type 0 where
  pub read_page : Target → D → PageRead × D
  pub write_page : Target → List ℕ → ArgOobinfo → D → ℤ × D
  pub erase_block : Target → D → ℤ × D
  pub block_isbad : Target → D → ℤ × D
  pub block_markbad : Target → D → ℤ × D
  pub test_block_reserved : ℕ → D → ℤ × D
  pub is_ready : D → Bool
  pub get_chip : D → D
  pub release_chip : D → D
  pub set_ran_mode : ℕ → D → D
  pub ran_mode : D → ℕ

-- `pages_per_blk`
unfoldable pub pages_per_blk : Geometry → ℕ
unfolding ffs
pages_per_blk g = 2 ^ ((ffs g.blocksize - 1) - (ffs g.pagesize - 1))

-- `offset >> phys_erase_shift`, the first of the reserved blocks
unfoldable pub first_blk : Geometry → ℕ
unfolding ffs
first_blk g = 1024 * g.pagesize / 2 ^ (ffs g.blocksize - 1)

-- `(flash->new_type) && ((flash->new_type < 10) || (flash->new_type == SANDISK_19NM))`
abbrev pub is_slc : Geometry → Bool
is_slc g = not (g.new_type == 0) && (ltb g.new_type 10 || (g.new_type == sandisk_19nm))

-- `pages_read`
unfoldable pub pages_read : Geometry → ℕ
unfolding pages_per_blk
pages_read g = if is_slc g then pages_per_blk g / 2 else pages_per_blk g

-- The first page of a block on its chip, and pages from there on
unfoldable pub blk_page : Geometry → ℕ → ℕ → ℕ
unfolding pages_per_blk first_blk
blk_page g blk page =
    let tmp = first_blk g in
    u32
      (((blk - blk % g.chip_num) / g.chip_num + (tmp - tmp / g.chip_num)) * pages_per_blk g + page)

-- The page in SLC mode
unfoldable pub slc_page : Geometry → ℕ → ℕ
unfolding pages_per_blk or_word
slc_page g page =
    let n = pages_per_blk g in
    if not (is_slc g)
    then page
    else if ltb g.new_type 10
    then or_word (page / n * n) (g.pagelist (page % 256))
    else or_word (page / n * n) (page % n * 2)

-- The operand of an operation on a page of a block of a record
unfoldable pub page_target : Geometry → ℕ → ℕ → Target
unfolding blk_page slc_page
page_target g blk page = record {
  chipnr = blk % g.chip_num;
  page_addr = slc_page g (blk_page g blk page);
  slc = is_slc g;
}

-- The operand of an operation on a whole block
unfoldable pub blk_target : Geometry → ℕ → Target
unfolding blk_page
blk_target g blk = record { chipnr = blk % g.chip_num; page_addr = blk_page g blk 0; slc = false }

-- The operand of an operation on a whole block after pages of a record were written: the option word
-- is still that of the pages.
unfoldable pub written_target : Geometry → ℕ → Target
unfolding blk_page
written_target g blk = record {
  chipnr = blk % g.chip_num;
  page_addr = blk_page g blk 0;
  slc = is_slc g;
}

-- `if (aml_chip->state == CHIP_READY) nand_get_chip(aml_chip);`, an operation, and the release
unfoldable pub on_chip : {D A : Type 0} → Store D → (D → A × D) → D → A × D
on_chip s act d =
    let (a, d') = act (if s.is_ready d then s.get_chip d else d) in
    (a, if s.is_ready d' then s.release_chip d' else d')

-- The number of rounds of a loop that takes `pagesize` bytes a round up to `size`
abbrev pub rounds_of : ℕ → ℕ → ℕ
rounds_of size pagesize = (size + (pagesize - 1)) / pagesize

-- `(size >> phys_page_shift) + 1`
unfoldable pub arg_pages : Geometry → ℕ → ℕ
unfolding ffs
arg_pages g size = size / 2 ^ (ffs g.pagesize - 1) + 1
