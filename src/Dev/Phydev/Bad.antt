-- ===== src/Dev/Phydev/Bad.antt =====
-- dev/phydev.c: nand_block_isbad, nand_block_markbad, block_modifybbt, update_bbt.
use amlnf.Prelude.{ℕ, ◌+◌, Option, none, some, ltb, if◌then◌else◌}
use amlnf.Prelude.Int.{ℤ, pos, neg}
use amlnf.Prelude.Words.{u64}
use amlnf.Phy.Chip.{ChipState, World, Kernel, ChipOperation, has, nand_shut_down}
use amlnf.Phy.Lock.{amlnand_get_device, amlnand_release_device}
use amlnf.Dev.Phydev.{Phydev, at_page}
use amlnf.Dev.Phydev.Io.{nand_argument_failure, begin_block}

module _ {D : Type 0} (k : Kernel D) (op : ChipOperation D) where
  unfoldable pub finish_block : Phydev → Option (ℤ × World D) → Option (ℤ × Phydev × World D)
  finish_block p none = none
  finish_block p (some (ret, w)) = some (ret, p, amlnand_release_device k w)

  -- What the four operations share from `amlnand_get_device` on: clear `ops_para`, set the option
  -- and the page of the address, run the chip's operation, release the chip.
  unfoldable pub on_block :
      (World D → Option (ℤ × World D)) → Phydev → World D → Option (ℤ × Phydev × World D)
  unfolding finish_block
  on_block run p w =
      let addr = u64 (p.offset + p.ops.addr) in
      elim (amlnand_get_device k w ChipState.reading) [
        | none ↦ none
        | some w1 ↦ finish_block p (run (at_page p addr (begin_block k op p w1)))
      ]

  unfoldable pub nand_block_isbad : Phydev → World D → Option (ℤ × Phydev × World D)
  unfolding on_block
  nand_block_isbad p w =
      if ltb p.size p.ops.addr
      then some (neg nand_argument_failure, p, w)
      else if has p.option nand_shut_down
      then some (pos 0, p, w)
      else on_block op.block_isbad p w

  unfoldable pub nand_block_markbad : Phydev → World D → Option (ℤ × Phydev × World D)
  unfolding on_block
  nand_block_markbad p w =
      if ltb p.size p.ops.addr
      then some (neg nand_argument_failure, p, w)
      else if has p.option nand_shut_down
      then some (pos 0, p, w)
      else on_block op.block_markbad p w

  unfoldable pub block_modifybbt : Phydev → ℕ → World D → Option (ℤ × Phydev × World D)
  unfolding on_block
  block_modifybbt p value w =
      if ltb p.size p.ops.addr
      then some (neg nand_argument_failure, p, w)
      else on_block (op.blk_modify_bbt value) p w

  unfoldable pub update_bbt : Phydev → World D → Option (ℤ × Phydev × World D)
  unfolding on_block
  update_bbt p w =
      if ltb p.size p.ops.addr
      then some (neg nand_argument_failure, p, w)
      else on_block op.update_bbt p w
