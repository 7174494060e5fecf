-- ===== src/Ntd/Part/Counted.antt =====
-- ntd/aml_ntdpart.c over dev/phydev.c and phy/chip_operation.c: allocate_partition counts the blocks of
-- the device that are bad in the chip's table.
use amlnf.Prelude.{
  ℕ, ◌^◌, ◌<◌, ◌≤◌, ◌≡◌, ◌≢◌, refl, sym, ap, ◌∙◌, Bool, true, false, not, some, ◌==◌, arith,
}
use native.Mathlib.Nat.{mul-le-mul_right, div-mul-le_self}
use amlnf.Prelude.Int.{ℤ, is_zero}
use amlnf.Prelude.Words.{shr}
use amlnf.Phy.Chip.{
  Flash, World, Kernel, has, dev_slc_mode, dev_multi_plane_mode, dev_multi_chip_mode,
  nand_shut_down,
}
use amlnf.Phy.Lock.{Selects}
use amlnf.Phy.Bbt.{BbtCalls, Table}
use amlnf.Dev.Phydev.{Phydev}
use amlnf.Dev.Phydev.Marked.{chip_operation}
use amlnf.Dev.Phydev.Status.{chip_block, IsSimple, HasTable, isbad-status, status-zero}
use amlnf.Ntd.{NtdInfo}
use amlnf.Ntd.Part.{
  Methods, Allocated, allocate_partition, new_slave, checked_flags, part_block_isbad, block_ops,
  byte_addr,
}
use amlnf.Ntd.Part.Page.{phydev_methods}
use amlnf.Ntd.Part.Count.{bad_blocks, Answers, allocate-counts}

not-not : (b : Bool) → not (not b) ≡ b
not-not true = refl
not-not false = refl

-- A block of the device starts inside it.
block-inside : (block size shift : ℕ) → block < shr size shift → byte_addr block shift ≤ size
block-inside block size shift h =
    let fewer : block ≤ shr size shift = omega arith in
    omega (arith, mul-le-mul_right (2 ^ shift) fewer, div-mul-le_self size (2 ^ shift))

module _ {D : Type 0} (k : Kernel D) (calls : BbtCalls D) (erase : World D → ℤ × World D)
    (t : Table) (flash : Flash) where
  -- The methods of a physical device on this chip
  abbrev pub methods : Methods D
  methods = phydev_methods k (chip_operation k calls erase)

  -- A block of the partition is bad when its entry for the first chip is not 0.
  abbrev pub is_bad : NtdInfo → Phydev → ℕ → Bool
  is_bad slave master block =
      not (t 0 (chip_block flash (block_ops methods slave block master)) == 0)

  -- What holds while the blocks are counted: the device is the master but for its operands, and the
  -- chip is free, with the table.
  abbrev Counting : Phydev → Phydev → World D → Type 0
  Counting master p w = (record p { ops = master.ops } ≡ master) × HasTable k calls erase t flash w

  block-IsSimple :
      (slave : NtdInfo) (block : ℕ) (master p : Phydev)
      → record p { ops = master.ops } ≡ master
      → IsSimple master
      → IsSimple (block_ops methods slave block p)
  block-IsSimple slave block master p e simple =
      let option : p.option ≡ master.option = ap (λ x. x.option) e in
      record {
        not_slc = ap (λ o. has o dev_slc_mode) option ∙ simple.not_slc;
        one_plane = ap (λ o. has o dev_multi_plane_mode) option ∙ simple.one_plane;
        one_chip = ap (λ o. has o dev_multi_chip_mode) option ∙ simple.one_chip;
        is_up = ap (λ o. has o nand_shut_down) option ∙ simple.is_up;
      }

  answers :
      (slave : NtdInfo) (master : Phydev)
      → Selects k
      → IsSimple master
      → slave.size ≡ master.size
      → Answers methods
          (Counting master)
          slave
          (shr slave.size slave.blocksize_shift)
          (is_bad slave master)
  unfolding part_block_isbad
  answers slave master sel simple size block p w inside inv =
      let q = block_ops methods slave block p in
      let q_size : q.size ≡ slave.size = ap (λ x. x.size) inv.0 ∙ sym size in
      let first = block-inside block slave.size slave.blocksize_shift inside in
      let (st, v, (e, (z, h))) =
        isbad-status k calls erase t flash q w sel
          (block-IsSimple slave block master p inv.0 simple) (omega (arith, q_size, first)) inv.1 in
      let same_block =
        ap (λ x. t 0 (chip_block flash (block_ops methods slave block x)) == 0) inv.0 in
      (
        (st, q, v),
        e,
        ap is_zero z ∙ status-zero t 0 (chip_block flash q) ∙ same_block ∙ sym (not-not _),
        (inv.0, h),
      )

  -- On a device that is up and works on plain pages of the first chip, with a free chip that has a table
  -- of bad blocks, when every pin state can be selected and memory is had: allocate_partition of a
  -- device of at least one block, and less than 2^32, returns the partition of the device's bounds. Its
  -- count is that of the blocks, from the first to the last of the device, whose entry in the table is
  -- not 0.
  pub allocate-bad_blocks :
      (addr number : ℕ) (master : Phydev) (w : World D)
      → let slave = new_slave methods addr number master in
        let slave' = record slave { flags = checked_flags methods slave } in
        let blocks = shr slave.size slave.blocksize_shift in
        addr ≢ 0
        → 0 < blocks
        → blocks < 2 ^ 32
        → Selects k
        → IsSimple master
        → HasTable k calls erase t flash w
        → (r : Allocated × Phydev × World D) × (allocate_partition methods addr number master w
            ≡ some r)
          × (r.0
              ≡ Allocated.made
                  (record slave' { badblocks = bad_blocks (is_bad slave' master) blocks 0 }))
  unfolding new_slave
  allocate-bad_blocks addr number master w nz lo hi sel simple h =
      let slave = new_slave methods addr number master in
      let slave' = record slave { flags = checked_flags methods slave } in
      allocate-counts methods (Counting master) addr number master w (is_bad slave' master) nz lo hi
        (answers slave' master sel simple refl) (refl, h)
