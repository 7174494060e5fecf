-- ===== src/Phy/Info/Update.antt =====
-- phy/chipenv.c: amlnand_update_bbt and amlnand_info_error_handle, which save the driver's records
-- again. `none` is out of fuel in the search of the last reserved block.
use amlnf.Prelude.{
  ℕ, ◌+◌, ◌*◌, ◌/◌, ◌%◌, Bool, ◌&&◌, not, Option, none, some, List, [], ◌∷◌, ◌++◌, ◌==◌, drop,
  if◌then◌else◌,
}
use amlnf.Prelude.Int.{ℤ, is_zero}
use amlnf.Guard.{Guard}
use amlnf.Phy.Chipenv.{BlockStatus, bytes_of, seal, aml_info_checksum, max_chip_num, max_blk_num}
use amlnf.Phy.Info.{Geometry, Store, ArgInfo}
use amlnf.Phy.Info.Save.{amlnand_save_info_by_name}
use amlnf.Phy.Info.Init.{Layout, bbt_head_magic, config_head_magic}

-- The four bytes of an unsigned int
unfoldable pub word_bytes : ℕ → List ℕ
word_bytes w = w % 256 ∷ w / 256 % 256 ∷ w / 65536 % 256 ∷ w / 16777216 % 256 ∷ []

-- The bytes of struct block_status
unfoldable pub status_bytes : BlockStatus → List ℕ
unfolding word_bytes bytes_of
status_bytes b = word_bytes b.crc ++ bytes_of b.blk_status

-- sizeof(struct block_status)
abbrev pub status_size : ℕ
status_size = 4 + 2 * (max_chip_num * max_blk_num)

-- What this code reads and changes of the chip, and all that is outside. `config` has the bytes of
-- `*config_ptr`.
pub record Records (D : Type 0) : Type 0 where
  pub guard : Guard
  pub block_status : BlockStatus
  pub config : List ℕ
  pub nand_bbtinfo : ArgInfo
  pub config_msg : ArgInfo
  pub reserved_blk : List ℕ
  pub outside : D

-- `crc` of the configuration is set.
unfoldable pub seal_config : Layout → List ℕ → List ℕ
unfolding word_bytes aml_info_checksum
seal_config layout config =
    word_bytes (aml_info_checksum (drop layout.para_at config) layout.para_size) ++ drop 4 config

-- Is the record valid, and did the scan see a page of it that cannot be read?
abbrev pub is_stale : ArgInfo → Bool
is_stale info = not (info.arg_valid == 0) && not (info.update_flag == 0)

-- `size` is sizeof(struct nand_config).
module _ {D : Type 0} (s : Store D) (g : Geometry) (layout : Layout) (size : ℕ) where
  unfoldable pub amlnand_update_bbt : ℕ → Records D → Option (ℤ × Records D)
  unfolding amlnand_save_info_by_name seal status_bytes
  amlnand_update_bbt fuel c =
      let b = seal c.block_status in
      elim (amlnand_save_info_by_name s g c.guard fuel c.nand_bbtinfo c.reserved_blk
        (status_bytes b) bbt_head_magic status_size c.outside) [
          | none ↦ none
          | some (r, d) ↦ some (
            r.0,
            record c { block_status = b; nand_bbtinfo = r.1; reserved_blk = r.2; outside = d },
          )
        ]

  -- The configuration is saved, and its flag is reset whatever the save returns.
  unfoldable pub update_config : ℕ → Records D → Option (Records D)
  unfolding amlnand_save_info_by_name seal_config
  update_config fuel c =
      let bytes = seal_config layout c.config in
      elim (amlnand_save_info_by_name s g c.guard fuel c.config_msg c.reserved_blk bytes
        config_head_magic size c.outside) [
          | none ↦ none
          | some (r, d) ↦ some (record c {
            config = bytes;
            config_msg = record r.1 { update_flag = 0 };
            reserved_blk = r.2;
            outside = d;
          })
        ]

  unfoldable pub handle_config : ℕ → Records D → Option (Records D)
  unfolding update_config
  handle_config fuel c = if is_stale c.config_msg then update_config fuel c else some c

  -- The configuration is left alone after a table of bad blocks that was not saved.
  unfoldable pub amlnand_info_error_handle : ℕ → Records D → Option (Records D)
  unfolding amlnand_update_bbt handle_config
  amlnand_info_error_handle fuel c =
      if is_stale c.nand_bbtinfo
      then elim (amlnand_update_bbt fuel c) [
        | none ↦ none
        | some (ret, c') ↦
            let c2 = record c' { nand_bbtinfo = record c'.nand_bbtinfo { update_flag = 0 } } in
            (if is_zero ret then handle_config fuel c2 else some c2)
      ]
      else handle_config fuel c
