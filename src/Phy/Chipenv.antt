-- ===== src/Phy/Chipenv.antt =====
-- phy/chipenv.c: the checksum that guards the records kept on the flash.
pub mod Checksum
mod Tests
use amlnf.Prelude.{
  ℕ, zero, suc, ◌+◌, ◌*◌, ◌%◌, ◌^◌, ◌/◌, Bool, true, false, ◌&&◌, List, [], ◌∷◌, ◌++◌, ◌==◌,
  if◌then◌else◌, take,
}
use amlnf.Prelude.Int.{ℤ, pos, neg}
use amlnf.Prelude.Words.{u32}
use amlnf.Phy.Bbt.{nand_read_failed}

-- MAX_CHIP_NUM, MAX_BLK_NUM
abbrev pub max_chip_num : ℕ
max_chip_num = 4

abbrev pub max_blk_num : ℕ
max_blk_num = 8192

-- The loop of `aml_info_checksum`
unfoldable pub add_bytes : ℕ → List ℕ → ℕ
add_bytes checksum [] = checksum
add_bytes checksum (byte ∷ pdata) = add_bytes (u32 (checksum + byte)) pdata

-- The sum of the first `lenth` bytes; the caller has that many.
unfoldable pub aml_info_checksum : List ℕ → ℕ → ℕ
unfolding add_bytes
aml_info_checksum pdata lenth = add_bytes 0 (take lenth pdata)

-- struct block_status: the entries of 16 bits, chip after chip
pub record BlockStatus : Type 0 where
  pub crc : ℕ
  pub blk_status : List ℕ

-- The bytes of the entries, the lower byte of each first
unfoldable pub bytes_of : List ℕ → List ℕ
bytes_of [] = []
bytes_of (entry ∷ entries) = entry % 256 ∷ entry / 256 % 256 ∷ bytes_of entries

-- The sum over MAX_CHIP_NUM * MAX_BLK_NUM bytes
unfoldable pub status_checksum : List ℕ → ℕ
unfolding aml_info_checksum bytes_of
status_checksum entries = aml_info_checksum (bytes_of entries) (max_chip_num * max_blk_num)

-- `aml_info_check_datasum` of a table of bad blocks
unfoldable pub check_block_status : BlockStatus → ℤ
unfolding status_checksum
check_block_status pdata =
    if status_checksum pdata.blk_status == pdata.crc then pos 0 else neg nand_read_failed

-- What `amlnand_update_bbt` sets before it saves the table
unfoldable pub seal : BlockStatus → BlockStatus
unfolding status_checksum
seal pdata = record pdata { crc = status_checksum pdata.blk_status }
