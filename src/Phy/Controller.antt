-- ===== src/Phy/Controller.antt =====
-- include/phynand.h and phy/chip_operation.c: the controller's functions that programming and erasing
-- call, and the cycles, waits and retries made of them.
use amlnf.Prelude.{ℕ, zero, suc, ◌+◌, ◌*◌, ◌%◌, ◌^◌, List, [], ◌∷◌, ◌==◌, if◌then◌else◌}
use amlnf.Prelude.Int.{ℤ, pos, neg, is_zero}
use amlnf.Prelude.Words.{u32, shr}
use amlnf.Phy.Bbt.{nand_write_failed}

-- Is a cycle a command (CLE) or a part of an address (ALE)?
pub data Latch : Type 0 where
  cle ale : Latch

-- struct hw_controller's functions, as far as they are called here. `idle` is NFC_SEND_CMD_IDLE;
-- `dma_write` takes `controller->page_addr`, a buffer, a length and the mode; `prepare_oob` fills the controller's buffer of spare bytes from a buffer, or by 0xa5 for NULL.
pub record Hw (D : Type 0) : Type 0 where
  pub quene_rb : ℕ → D → ℤ × D
  pub cmd_ctrl : ℕ → Latch → D → D
  pub idle : ℕ → D → D
  pub set_usr_byte : ℕ → ℕ → D → D
  pub dma_write : ℕ → ℕ → ℕ → ℕ → D → ℤ × D
  pub readbyte : D → ℕ × D
  pub slc_enter : D → ℤ × D
  pub slc_exit : D → ℤ × D
  pub check_cmdfifo : D → D
  pub prepare_oob : ℕ → ℕ → D → D

-- The controller with its field `page_addr` beside the medium: it is set before each `dma_write`.
unfoldable pub tracking : {D : Type 0} → Hw D → Hw (ℕ × D)
tracking hw = record {
  quene_rb = λ nr s. let (ret, d) = hw.quene_rb nr s.1 in (ret, (s.0, d));
  cmd_ctrl = λ byte latch s. (s.0, hw.cmd_ctrl byte latch s.1);
  idle = λ cycles s. (s.0, hw.idle cycles s.1);
  set_usr_byte = λ buf len s. (s.0, hw.set_usr_byte buf len s.1);
  dma_write =
      λ addr buf len mode s. let (ret, d) = hw.dma_write addr buf len mode s.1 in (ret, (addr, d));
  readbyte = λ s. let (byte, d) = hw.readbyte s.1 in (byte, (s.0, d));
  slc_enter = λ s. let (ret, d) = hw.slc_enter s.1 in (ret, (s.0, d));
  slc_exit = λ s. let (ret, d) = hw.slc_exit s.1 in (ret, (s.0, d));
  check_cmdfifo = λ s. (s.0, hw.check_cmdfifo s.1);
  prepare_oob = λ buf len s. (s.0, hw.prepare_oob buf len s.1);
}

-- The command bytes, and the times to wait.
abbrev pub nand_cmd_pageprog : ℕ
nand_cmd_pageprog = 16

abbrev pub nand_cmd_dummy_program : ℕ
nand_cmd_dummy_program = 17

abbrev pub nand_cmd_erase1 : ℕ
nand_cmd_erase1 = 96

abbrev pub nand_cmd_status : ℕ
nand_cmd_status = 112

abbrev pub nand_cmd_seqin : ℕ
nand_cmd_seqin = 128

abbrev pub nand_cmd_twoplane_write2 : ℕ
nand_cmd_twoplane_write2 = 129

abbrev pub nand_cmd_erase2 : ℕ
nand_cmd_erase2 = 208

abbrev pub nand_cmd_erase1_end : ℕ
nand_cmd_erase1_end = 209

abbrev pub twb : ℕ
twb = 10

abbrev pub twhr : ℕ
twhr = 20

abbrev pub tadl : ℕ
tadl = 20

-- The makers: Micron, Hynix, Samsung
abbrev pub mfr_micron : ℕ
mfr_micron = 44

abbrev pub mfr_hynix : ℕ
mfr_hynix = 173

abbrev pub mfr_samsung : ℕ
mfr_samsung = 236

-- Cycles, sent one after the other.
abbrev pub Cycles : Type 0
Cycles = List (ℕ × Latch)

unfoldable pub send : {D : Type 0} → Hw D → Cycles → D → D
send hw [] d = d
send hw ((byte, latch) ∷ cycles) d = send hw cycles (hw.cmd_ctrl byte latch d)

abbrev pub command : ℕ → Cycles
command byte = (byte, Latch.cle) ∷ []

-- The three cycles of a row address
abbrev pub row : ℕ → Cycles
row addr = (addr, Latch.ale) ∷ (shr addr 8, Latch.ale) ∷ (shr addr 16, Latch.ale) ∷ []

-- The two cycles of column 0
abbrev pub column : Cycles
column = (0, Latch.ale) ∷ (0, Latch.ale) ∷ []

-- `if (ret) goto error_exit0;`: what follows is done only after a 0.
abbrev pub after_zero : {D : Type 0} → ℤ × D → (D → ℤ × D) → ℤ × D
after_zero (ret, d) next = if is_zero ret then next d else (ret, d)

-- The row of a plane of the pair of blocks that a page belongs to
unfoldable pub plane_row : ℕ → ℕ → ℕ → ℕ
plane_row shift page plane = u32 ((u32 (shr page shift * 2) + plane) * 2 ^ shift) + page % 2 ^ shift

-- WSTATUS_TRY and ESTATUS_TRY: `tries` more reads after this one, with a wait before each
unfoldable pub try_status : {D : Type 0} → Hw D → ℕ → D → ℤ × D
try_status hw zero d =
    let (status, d') = hw.readbyte d in
    ((if status == 225 then neg nand_write_failed else pos 0), d')
try_status hw (suc tries) d =
    let (status, d') = hw.readbyte d in
    let again = try_status hw tries (hw.idle twb d') in
    if status == 225
    then (neg nand_write_failed, d')
    else if status == 224
    then (pos 0, d')
    else again

-- `for (i = 0; i < chip_num; i++)` with `goto error_exit0` for a result that is not 0
unfoldable pub each_chip : {D : Type 0} → ℕ → ℕ → (ℕ → D → ℤ × D) → D → ℤ × D
each_chip zero i act d = (pos 0, d)
each_chip (suc n) i act d = after_zero (act i d) (each_chip n (suc i) act)
