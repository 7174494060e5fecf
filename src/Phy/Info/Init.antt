-- ===== src/Phy/Info/Init.antt =====
-- phy/chipenv.c: amlnand_info_init, which finds and reads a record when the driver starts, and
-- aml_info_check_datasum on the bytes of a record.
use amlnf.Prelude.{
  ℕ, ◌+◌, ◌*◌, Option, none, some, List, [], ◌∷◌, ◌==◌, drop, get_or, if◌then◌else◌,
}
use amlnf.Prelude.Int.{ℤ, pos, neg, is_neg}
use amlnf.Guard.Parts.{strn_eq}
use amlnf.Phy.Bbt.{nand_read_failed}
use amlnf.Phy.Chipenv.{aml_info_checksum, max_chip_num, max_blk_num}
use amlnf.Phy.Info.{Geometry, Store, ArgInfo}
use amlnf.Phy.Info.Read.{amlnand_read_info_by_name}
use amlnf.Phy.Info.Check.{amlnand_check_info_by_name}

-- "nbbt", "fbbt" and "ncnf"
abbrev pub bbt_head_magic : List ℕ
bbt_head_magic = 110 ∷ 98 ∷ 98 ∷ 116 ∷ []

abbrev pub shipped_bbt_head_magic : List ℕ
shipped_bbt_head_magic = 102 ∷ 98 ∷ 98 ∷ 116 ∷ []

abbrev pub config_head_magic : List ℕ
config_head_magic = 110 ∷ 99 ∷ 110 ∷ 102 ∷ []

abbrev pub max_bad_blk_num : ℕ
max_bad_blk_num = 2048

-- Where dev_para starts in struct nand_config, which the alignment decides, and its size in bytes
pub record Layout : Type 0 where
  pub para_at : ℕ
  pub para_size : ℕ

-- `crc`, the first word of each record, the lower bytes first
unfoldable pub crc_of : List ℕ → ℕ
crc_of bytes =
    get_or bytes 0 0
    + 256 * get_or bytes 1 0
    + 65536 * get_or bytes 2 0
    + 16777216 * get_or bytes 3 0

-- One of the three tests: the sum over the `lenth` bytes from `at` on, or `ret`.
unfoldable pub check_sum : List ℕ → List ℕ → List ℕ → ℕ → ℕ → ℤ → ℤ
unfolding crc_of aml_info_checksum strn_eq
check_sum bytes name magic at lenth ret =
    if strn_eq 4 name magic
    then (if aml_info_checksum (drop at bytes) lenth == crc_of bytes
        then ret
        else neg nand_read_failed)
    else ret

unfoldable pub aml_info_check_datasum : Layout → List ℕ → List ℕ → ℤ
unfolding check_sum
aml_info_check_datasum layout bytes name =
    check_sum bytes name config_head_magic layout.para_at layout.para_size (
      check_sum bytes name shipped_bbt_head_magic 4 (max_chip_num * max_bad_blk_num)
        (check_sum bytes name bbt_head_magic 4 (max_chip_num * max_blk_num) (pos 0)))

-- What a start leaves: the result, the record's place, the table of the blocks, and the buffer.
pub record Started : Type 0 where
  pub ret : ℤ
  pub info : ArgInfo
  pub table : List ℕ
  pub buf : List ℕ

module _ {D : Type 0} (s : Store D) (g : Geometry) (layout : Layout) where
  -- The record that was found is read and checked.
  unfoldable pub read_found : ArgInfo → List ℕ → List ℕ → List ℕ → ℕ → D → Started × D
  unfolding amlnand_read_info_by_name aml_info_check_datasum
  read_found info table buf name size d =
      let (r, d') = amlnand_read_info_by_name s g info buf name size d in
      (
        record {
          ret = if is_neg r.0 then r.0 else aml_info_check_datasum layout r.1 name;
          info = info;
          table = table;
          buf = r.1;
        },
        d',
      )

  unfoldable pub amlnand_info_init :
      ℕ → ArgInfo → List ℕ → List ℕ → List ℕ → ℕ → D → Option (Started × D)
  unfolding amlnand_check_info_by_name read_found
  amlnand_info_init fuel info table buf name size d =
      elim (amlnand_check_info_by_name s g fuel info table name size d) [
        | none ↦ none
        | some ((ret, info1, table1), d1) ↦ some (
            if is_neg ret
            then (record { ret = ret; info = info1; table = table1; buf = buf }, d1)
            else if info1.arg_valid == 1
            then read_found info1 table1 buf name size d1
            else (record { ret = ret; info = info1; table = table1; buf = buf }, d1))
      ]
