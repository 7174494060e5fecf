-- ===== src/Phy/Program.antt =====
-- phy/chip_operation.c: write_page and erase_block, as commands to the controller. What the
-- controller's functions do is a parameter; so is check_cmdfifo_size, whose timeout is a BUG().
pub mod Readonly
mod Tests
use amlnf.Prelude.{
  ℕ, zero, suc, ◌+◌, ◌-◌, ◌*◌, ◌/◌, ◌%◌, ◌^◌, Bool, true, false, ◌&&◌, ◌||◌, not, List, [], ◌∷◌,
  ◌++◌, ◌==◌, ltb, if◌then◌else◌,
}
use amlnf.Prelude.Int.{ℤ, pos, neg, is_zero}
use amlnf.Prelude.Words.{u32, shr, ffs}
use amlnf.Guard.{refuse_write}
use amlnf.Phy.Chip.{
  Chip, World, has, dev_slc_mode, dev_multi_chip_mode, dev_multi_plane_mode, dev_ecc_soft_mode,
  sandisk_19nm,
}
use amlnf.Phy.Bbt.{fold_page_addr, is_plane, is_multi_chip, erofs}
use amlnf.Phy.Controller.{
  Latch, Hw, tracking, nand_cmd_pageprog, nand_cmd_dummy_program, nand_cmd_erase1, nand_cmd_status,
  nand_cmd_seqin, nand_cmd_twoplane_write2, nand_cmd_erase2, nand_cmd_erase1_end, twb, twhr, tadl,
  mfr_micron, mfr_hynix, mfr_samsung, Cycles, send, command, row, column, after_zero, plane_row,
  try_status, each_chip,
}

abbrev pub nand_argument_failure : ℕ
nand_argument_failure = 8

-- "write_page" and "erase_block"
abbrev pub write_page_name : List ℕ
write_page_name = b'w' ∷ b'r' ∷ b'i' ∷ b't' ∷ b'e' ∷ b'_' ∷ b'p' ∷ b'a' ∷ b'g' ∷ b'e' ∷ []

abbrev pub erase_block_name : List ℕ
erase_block_name = b'e' ∷ b'r' ∷ b'a' ∷ b's' ∷ b'e' ∷ b'_' ∷ b'b' ∷ b'l' ∷ b'o' ∷ b'c' ∷ b'k' ∷ []

-- What the two operations take from the chip's record. `slc` is 0, 1, or 2 for the pages of Hynix.
pub record Job : Type 0 where
  pub chips : ℕ
  pub one_chip : ℕ
  pub two_planes : Bool
  pub slc : ℕ
  pub page : ℕ
  pub shift : ℕ
  pub maker : ℕ

-- `chipnr = (chip_num > 1) ? i : ops_para->chipnr`
abbrev pub chipnr_of : Job → ℕ → ℕ
chipnr_of j i = if ltb 1 j.chips then i else j.one_chip

module _ {D : Type 0} (hw : Hw D) where
  -- The status of one chip; a page of Hynix leaves the SLC mode.
  unfoldable pub chip_status : Job → Bool → ℕ → D → ℤ × D
  unfolding try_status send
  chip_status j leaves i d = after_zero (hw.quene_rb (chipnr_of j i) d) (λ d1.
      after_zero (try_status hw 6 (hw.idle twhr (send hw (command nand_cmd_status) d1)))
        (λ d2. (pos 0, if leaves && (j.slc == 2) then (hw.slc_exit d2).1 else d2)))

  -- The commands that erase a block of one chip
  unfoldable pub erase_chip : Job → ℕ → D → ℤ × D
  unfolding plane_row send
  erase_chip j i d =
      let plane = λ (n : ℕ). command nand_cmd_erase1 ++ row (plane_row j.shift j.page n) in
      let second : D → ℤ × D = λ e.
        (pos 0, hw.check_cmdfifo (hw.idle twb (send hw (plane 1 ++ command nand_cmd_erase2) e))) in
      let single = command nand_cmd_erase1 ++ row j.page ++ command nand_cmd_erase2 in
      after_zero (hw.quene_rb (chipnr_of j i) d) (λ d1.
        if j.two_planes
        then if j.maker == mfr_micron
          then after_zero
              (hw.quene_rb (chipnr_of j i)
                (hw.idle twb (send hw (plane 0 ++ command nand_cmd_erase1_end) d1)))
              second
          else second (send hw (plane 0) d1)
        else (
          pos 0,
          hw.check_cmdfifo
              (hw.idle twb (send hw single (if j.slc == 0 then d1 else (hw.slc_enter d1).1))),
        ))

  -- The bytes of a page as they are written: with ECC or without, and the spare bytes of each page.
  pub record Bytes : Type 0 where
    pub buf : ℕ
    pub oob : ℕ
    pub mode : ℕ
    pub page_size : ℕ
    pub user_bytes : ℕ

  -- The controller's buffer goes out with the spare bytes, when there is ECC.
  unfoldable pub put_page : Bytes → ℕ → ℕ → D → ℤ × D
  put_page b addr n d =
      let d1 =
        if b.mode == 0 then d else hw.set_usr_byte (b.oob + n * b.user_bytes) b.user_bytes d in
      hw.dma_write addr (b.buf + n * b.page_size) b.page_size b.mode d1

  -- The commands that write a page, or a page of each plane, to one chip. The planes' rows are those of
  -- `controller->page_addr` at the transfers.
  unfoldable pub write_chip : Job → Bytes → ℕ → D → ℤ × D
  unfolding plane_row put_page send
  write_chip j b i d =
      let nr = chipnr_of j i in
      let first = command nand_cmd_seqin ++ column ++ row (plane_row j.shift j.page 0) in
      let again =
        if (j.maker == mfr_hynix) || (j.maker == mfr_samsung)
        then nand_cmd_twoplane_write2
        else nand_cmd_seqin in
      let second = command again ++ column ++ row (plane_row j.shift j.page 1) in
      let single = command nand_cmd_seqin ++ column ++ row j.page in
      let start : D → ℤ × D =
        λ e. (pos 0, hw.check_cmdfifo (hw.idle twb (send hw (command nand_cmd_pageprog) e))) in
      after_zero (hw.quene_rb nr d) (λ d1.
        if j.two_planes
        then after_zero (put_page b (plane_row j.shift j.page 0) (2 * i) (send hw first d1)) (λ d2.
          after_zero (hw.quene_rb nr (hw.idle tadl (send hw (command nand_cmd_dummy_program) d2)))
            (λ d3.
              after_zero
                (put_page b (plane_row j.shift j.page 1) (2 * i + 1)
                  (hw.idle tadl (send hw second d3)))
                start))
        else (let d2 = (hw.quene_rb nr (if j.slc == 0 then d1 else (hw.slc_enter d1).1)).1 in
            after_zero (put_page b j.page i (hw.idle tadl (send hw single d2))) start))

  abbrev pub chips_of : Chip → ℕ
  chips_of c = if is_multi_chip c then c.controller.chip_num else 1

  unfoldable pub erase_job : Chip → Job
  unfolding ffs fold_page_addr
  erase_job c = record {
    chips = chips_of c;
    one_chip = c.ops_para.chipnr;
    two_planes = is_plane c;
    slc = if has c.ops_para.option dev_slc_mode && (c.flash.new_type == sandisk_19nm) then 1 else 0;
    page = c.controller.ctrl_page_addr;
    shift = ffs c.flash.blocksize - ffs c.flash.pagesize;
    maker = c.controller.mfr_type;
  }

  unfoldable pub write_job : Chip → Job
  unfolding fold_page_addr
  write_job c = record {
    chips = chips_of c;
    one_chip = c.ops_para.chipnr;
    two_planes = is_plane c;
    slc =
        if not (has c.ops_para.option dev_slc_mode)
        then 0
        else if c.flash.new_type == sandisk_19nm
        then 1
        else if ltb 0 c.flash.new_type && ltb c.flash.new_type 10
        then 2
        else 0;
    page = c.controller.ctrl_page_addr;
    shift = c.controller.block_shift - c.controller.page_shift;
    maker = c.controller.mfr_type;
  }

  -- The size of a page and the spare bytes by the mode. The spare bytes go through the controller's
  -- buffer when there is ECC.
  unfoldable pub write_bytes : Chip → Bytes
  write_bytes c =
      let raw = has c.ops_para.option dev_ecc_soft_mode || (c.controller.bch_mode == 0) in
      record {
        buf = c.ops_para.data_buf;
        oob = if raw then c.ops_para.oob_buf else c.controller.ctrl_oob_buf;
        mode = if raw then 0 else c.controller.bch_mode;
        page_size =
            if raw
            then c.flash.pagesize + c.flash.oobsize
            else c.controller.ecc_steps * c.controller.ecc_unit;
        user_bytes = if raw then 0 else c.controller.ecc_steps * c.controller.user_mode % 256;
      }

  -- `controller->page_addr = ops_para->page_addr`, and the fold into the second internal chip
  unfoldable pub aimed : Chip → Chip
  unfolding fold_page_addr
  aimed c =
      fold_page_addr
        (record c { controller = record (c.controller) { ctrl_page_addr = c.ops_para.page_addr } })

module _ {D : Type 0} (hw : Hw D) where
  -- The state of the medium after the commands
  abbrev pub with_dev : World D → Chip → ℤ × D → ℤ × World D
  with_dev w c (ret, d) = (ret, record w { chip = c; dev = d })

  unfoldable pub erase_block : World D → ℤ × World D
  unfolding refuse_write aimed erase_job erase_chip chip_status each_chip
  erase_block w =
      let c = aimed hw w.chip in
      let j = erase_job hw c in
      if not (w.guard.readonly == 0)
      then (
        neg erofs,
        record w { guard = refuse_write w.guard erase_block_name w.chip.ops_para.page_addr },
      )
      else if not (w.chip.nand_status == 0)
      then (pos 0, w)
      else with_dev w c (
          after_zero (each_chip j.chips 0 (erase_chip hw j) w.dev)
            (each_chip j.chips 0 (chip_status hw j false)))

  -- The chip and the medium after a write
  abbrev pub with_tracked : World D → Chip → ℤ × (ℕ × D) → ℤ × World D
  with_tracked w c (ret, (page_addr, d)) = (
    ret,
    record w {
      chip = record c { controller = record (c.controller) { ctrl_page_addr = page_addr } };
      dev = d;
    },
  )

  unfoldable pub write_page : World D → ℤ × World D
  unfolding refuse_write tracking aimed write_job write_bytes write_chip chip_status each_chip
  write_page w =
      let c = aimed hw w.chip in
      let j = write_job (tracking hw) c in
      let b = write_bytes (tracking hw) c in
      let d : D =
        if b.mode == 0
        then w.dev
        else hw.prepare_oob c.ops_para.oob_buf
            (b.user_bytes * ((if j.two_planes then 2 else 1) * j.chips)) w.dev in
      if not (w.guard.readonly == 0)
      then (
        neg erofs,
        record w { guard = refuse_write w.guard write_page_name w.chip.ops_para.page_addr },
      )
      else if w.chip.ops_para.data_buf == 0
      then (neg nand_argument_failure, w)
      else if not (w.chip.nand_status == 0)
      then (pos 0, w)
      else with_tracked w c (
          after_zero
            (each_chip j.chips 0 (write_chip (tracking hw) j b) (c.controller.ctrl_page_addr, d))
            (each_chip j.chips 0 (chip_status (tracking hw) j true)))
