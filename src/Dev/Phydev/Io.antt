-- ===== src/Dev/Phydev/Io.antt =====
-- dev/phydev.c: nand_read, nand_write, nand_erase. `none` is a caller that sleeps, or a transfer
-- that never ends.
use amlnf.Prelude.{
  ℕ, suc, ◌+◌, ◌*◌, ◌%◌, Bool, true, false, ◌&&◌, ◌||◌, not, Option, none, some, ◌==◌, ltb,
  if◌then◌else◌,
}
use amlnf.Prelude.Int.{ℤ, pos, neg, is_neg, is_zero}
use amlnf.Prelude.Words.{u32, u64}
use amlnf.Phy.Chip.{
  ChipState, World, Kernel, ChipOperation, zero_para, has, nand_shut_down, nand_write_verify_bit,
}
use amlnf.Phy.Lock.{amlnand_get_device, amlnand_release_device}
use amlnf.Dev.Phydev.{Phydev, with_para, with_mode, at_page, transfer}

abbrev pub nand_ecc_failure : ℕ
nand_ecc_failure = 5

abbrev pub nand_argument_failure : ℕ
nand_argument_failure = 8

abbrev pub euclean : ℕ
euclean = 117

abbrev pub with_retlen : Phydev → ℕ → Phydev
with_retlen p n = record p { ops = record (p.ops) { retlen = n } }

-- `(devops->addr + devops->len) > phydev->size`
abbrev pub out_of_space : Phydev → Bool
out_of_space p = ltb p.size (u64 (p.ops.addr + p.ops.len))

module _ {D : Type 0} (k : Kernel D) (op : ChipOperation D) where
  -- The fields of `ops_para` that a transfer sets before its loop. Its `ooblen` is of 8 bits.
  unfoldable pub begin_io : Phydev → World D → World D
  begin_io p w = with_para w (record zero_para {
    data_buf = p.ops.datbuf;
    oob_buf = p.ops.oobbuf;
    ooblen = p.ops.ooblen % 256;
    option = with_mode p.ops.mode p.option;
  })

  -- `ops_para->data_buf += phydev->writesize`
  unfoldable pub next_buf : Phydev → World D → World D
  next_buf p w =
      with_para w (record (w.chip.ops_para) { data_buf = w.chip.ops_para.data_buf + p.writesize })

  unfoldable pub read_round : Phydev → ℕ → World D → Bool × ℤ × World D
  unfolding at_page next_buf
  read_round p addr w =
      let (ret, w') = op.read_page (at_page p addr w) in
      if not (w'.chip.ops_para.ecc_err == 0) || is_neg ret
      then (true, ret, w')
      else (false, ret, next_buf p w')

  -- What `nand_read` makes of the last `ret`.
  unfoldable pub read_result : ℤ → World D → ℤ
  read_result ret w =
      if is_zero ret
      then if w.chip.ops_para.ecc_err == 0
        then if w.chip.ops_para.bit_flip == 0 then ret else neg euclean
        else pos nand_ecc_failure
      else ret

  unfoldable pub finish_read : Phydev → Option (ℤ × ℕ × World D) → Option (ℤ × Phydev × World D)
  unfolding read_result
  finish_read p none = none
  finish_read p (some (ret, done, w)) =
      let w' = amlnand_release_device k w in some (read_result ret w', with_retlen p (u32 done), w')

  unfoldable pub nand_read : Phydev → World D → Option (ℤ × Phydev × World D)
  unfolding begin_io read_round finish_read
  nand_read p w =
      let len = if p.ops.len == 0 then p.writesize else p.ops.len in
      let addr = u64 (p.offset + p.ops.addr) in
      if out_of_space p
      then some (neg nand_argument_failure, p, w)
      else if (p.ops.len == 0) && (p.ops.ooblen == 0)
      then some (pos 0, p, w)
      else elim (amlnand_get_device k w ChipState.reading) [
        | none ↦ none
        | some w1 ↦
            finish_read p (transfer (suc len) len p.writesize (read_round p) addr 0 (begin_io p w1))
      ]

  -- nand_write_verify: the outcome of the comparison is only printed.
  unfoldable pub nand_write_verify : Phydev → World D → World D
  nand_write_verify p w =
      let (verify_buf, d) = k.kmalloc (2 * p.writesize) w.dev in
      let w1 = record w { dev = d } in
      if verify_buf == 0
      then w1
      else (op.read_page (with_para w1 (record (w1.chip.ops_para) { data_buf = verify_buf }))).1

  unfoldable pub write_round : Phydev → ℕ → World D → Bool × ℤ × World D
  unfolding at_page next_buf
  write_round p addr w =
      let (ret, w') = op.write_page (at_page p addr w) in
      if is_neg ret then (true, ret, w') else (false, ret, next_buf p w')

  unfoldable pub finish_write : Phydev → Option (ℤ × ℕ × World D) → Option (ℤ × Phydev × World D)
  unfolding nand_write_verify
  finish_write p none = none
  finish_write p (some (ret, done, w)) =
      let p' = with_retlen p (u32 done) in
      let w' = if has w.chip.debug_flag nand_write_verify_bit then nand_write_verify p' w else w in
      some (ret, p', amlnand_release_device k w')

  unfoldable pub nand_write : Phydev → World D → Option (ℤ × Phydev × World D)
  unfolding begin_io write_round finish_write
  nand_write p w =
      let addr = u64 (p.offset + p.ops.addr) in
      if out_of_space p
      then some (neg nand_argument_failure, p, w)
      else if (p.ops.len == 0) && (p.ops.ooblen == 0)
      then some (pos 0, p, w)
      else if has p.option nand_shut_down
      then some (pos 0, p, w)
      else elim (amlnand_get_device k w ChipState.writing) [
        | none ↦ none
        | some w1 ↦
            finish_write p (
              transfer (suc p.ops.len) p.ops.len p.writesize (write_round p) addr 0 (begin_io p w1))
      ]

  -- An erase sets the option alone.
  unfoldable pub begin_block : Phydev → World D → World D
  begin_block p w = with_para w (record zero_para { option = p.option })

  unfoldable pub erase_round : Phydev → ℕ → World D → Bool × ℤ × World D
  unfolding at_page
  erase_round p addr w = let (ret, w') = op.erase_block (at_page p addr w) in (is_neg ret, ret, w')

  unfoldable pub finish_erase : Phydev → Option (ℤ × ℕ × World D) → Option (ℤ × Phydev × World D)
  finish_erase p none = none
  finish_erase p (some (ret, done, w)) =
      some (ret, with_retlen p (u32 done), amlnand_release_device k w)

  unfoldable pub nand_erase : Phydev → World D → Option (ℤ × Phydev × World D)
  unfolding begin_block erase_round finish_erase
  nand_erase p w =
      let addr = u64 (p.offset + p.ops.addr) in
      if out_of_space p
      then some (neg nand_argument_failure, p, w)
      else if p.ops.len == 0
      then some (pos 0, p, w)
      else if has p.option nand_shut_down
      then some (pos 0, p, w)
      else elim (amlnand_get_device k w ChipState.erasing) [
        | none ↦ none
        | some w1 ↦ finish_erase p (
            transfer (suc p.ops.len) p.ops.len p.erasesize (erase_round p) addr 0
              (begin_block p w1))
      ]
