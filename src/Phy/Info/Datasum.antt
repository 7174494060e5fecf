-- ===== src/Phy/Info/Datasum.antt =====
-- phy/chipenv.c: aml_info_check_datasum on the bytes of the table of bad blocks, as it is saved.
use amlnf.Prelude.{ℕ, ◌*◌, ◌^◌, ◌<◌, ◌≡◌, ap, ◌∙◌, ◌++◌, List, ◌==◌, if◌then◌else◌, arith}
use amlnf.Prelude.Int.{pos, neg}
use amlnf.Guard.Parts.{strn_eq}
use amlnf.Phy.Bbt.{nand_read_failed}
use amlnf.Phy.Chipenv.{
  BlockStatus, bytes_of, status_checksum, check_block_status, seal, aml_info_checksum, max_chip_num,
  max_blk_num,
}
use amlnf.Phy.Chipenv.Checksum.{status_checksum-bound, seal-passes}
use amlnf.Phy.Info.Init.{Layout, bbt_head_magic, crc_of, check_sum, aml_info_check_datasum}
use amlnf.Phy.Info.Update.{word_bytes, status_bytes}

crc_of-word_bytes : (w : ℕ) (l : List ℕ) → w < 2 ^ 32 → crc_of (word_bytes w ++ l) ≡ w
unfolding crc_of word_bytes
crc_of-word_bytes w l h = omega arith

datasum-fields :
    (layout : Layout) (b : BlockStatus)
    → b.crc < 2 ^ 32
    → aml_info_check_datasum layout (status_bytes b) bbt_head_magic ≡ check_block_status b
unfolding aml_info_check_datasum check_sum status_bytes check_block_status status_checksum strn_eq
datasum-fields layout b h =
    ap
      (λ w.
        if aml_info_checksum (bytes_of b.blk_status) (max_chip_num * max_blk_num) == w
        then pos 0
        else neg nand_read_failed)
      (crc_of-word_bytes b.crc (bytes_of b.blk_status) h)

-- On the bytes of a table of bad blocks, as they are saved and under the table's name,
-- aml_info_check_datasum gives what the comparison of the sum with `crc` gives on the table's fields,
-- where `crc` is of 32 bits; and the table that amlnand_update_bbt has just sealed passes it.
pub datasum-status :
    (layout : Layout) (b : BlockStatus)
    → b.crc < 2 ^ 32
    → (aml_info_check_datasum layout (status_bytes b) bbt_head_magic ≡ check_block_status b)
      × (aml_info_check_datasum layout (status_bytes (seal b)) bbt_head_magic ≡ pos 0)
unfolding seal
datasum-status layout b h = (
  datasum-fields layout b h,
  datasum-fields layout (seal b) (status_checksum-bound b.blk_status) ∙ seal-passes b,
)
