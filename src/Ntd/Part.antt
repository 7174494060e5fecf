-- ===== src/Ntd/Part.antt =====
-- ntd/aml_ntdpart.c: an NTD device on a physical device. Its methods translate a page or a block to
-- a byte address, and call the physical device through its record of methods.
pub mod Page
pub mod Count
pub mod Deleted
pub mod Counted
use amlnf.Prelude.{
  ℕ, zero, suc, ◌+◌, ◌-◌, ◌*◌, ◌/◌, ◌%◌, ◌^◌, Bool, true, false, ◌&&◌, ◌||◌, not, Option, none,
  some, List, [], ◌∷◌, ◌==◌, if◌then◌else◌,
}
use amlnf.Prelude.Int.{ℤ, pos, negsuc, neg, is_neg, is_zero}
use amlnf.Prelude.Words.{u32, u64, shr, ffs}
use amlnf.Phy.Chip.{World, has}
use amlnf.Dev.Phydev.{EccMode, PhydevOps, Phydev}
use amlnf.Ntd.{NtdInfo, ntd_mod_by_eb}

abbrev pub enomem : ℕ
enomem = 12

-- NTD_WRITEABLE is bit 10.
abbrev pub ntd_writeable : ℕ
ntd_writeable = 10

-- A method of a physical device: `none` does not return.
abbrev pub Method : Type 0 → Type 0
Method D = Phydev → World D → Option (ℤ × Phydev × World D)

-- The methods of struct amlnand_phydev that this file calls.
pub record Methods (D : Type 0) : Type 0 where
  pub read : Method D
  pub write : Method D
  pub erase : Method D
  pub block_isbad : Method D
  pub block_markbad : Method D

-- `nand_dev->ops` set for an operation
abbrev pub with_ops : Phydev → ℕ → ℕ → ℕ → ℕ → ℕ → Phydev
with_ops p addr len ooblen datbuf oobbuf = record p {
  ops = record {
    mode = EccMode.hw_ecc;
    addr = addr;
    len = len;
    retlen = 0;
    ooblen = ooblen;
    datbuf = datbuf;
    oobbuf = oobbuf;
  };
}

-- `byte_addr = page; byte_addr <<= shift`
abbrev pub byte_addr : ℕ → ℕ → ℕ
byte_addr unit shift = u64 (unit * 2 ^ shift)

-- The error of `add_ntd_partitions` is `ERR_PTR`'s; a partition is made or there is no memory.
pub data Allocated : Type 0 where
  failed : ℤ → Allocated
  made : NtdInfo → Allocated

-- `do ... while (block_num != 0)` counts 0 down through all the words.
unfoldable pub do_while_rounds : ℕ → ℕ
do_while_rounds block_num = if block_num == 0 then 2 ^ 32 else block_num

module _ {D : Type 0} (m : Methods D) where
  unfoldable pub read_page_with_oob : NtdInfo → ℕ → ℕ → ℕ → Method D
  read_page_with_oob ntd page oob_buf buf p w =
      m.read (with_ops p (byte_addr page ntd.pagesize_shift) ntd.pagesize ntd.oobsize buf oob_buf) w

  unfoldable pub read_only_oob : NtdInfo → ℕ → ℕ → Method D
  read_only_oob ntd page oob_buf p w =
      m.read (with_ops p (byte_addr page ntd.pagesize_shift) ntd.pagesize ntd.oobsize 0 oob_buf) w

  unfoldable pub write_page_with_oob : NtdInfo → ℕ → ℕ → ℕ → Method D
  write_page_with_oob ntd page oob_buf buf p w =
      m.write (with_ops p (byte_addr page ntd.pagesize_shift) ntd.pagesize ntd.oobsize buf oob_buf)
        w

  -- `nand_dev->ops` for an operation on a block
  abbrev pub block_ops : NtdInfo → ℕ → Phydev → Phydev
  block_ops ntd block p = with_ops p (byte_addr block ntd.blocksize_shift) ntd.blocksize 0 0 0

  unfoldable pub part_erase : NtdInfo → ℕ → Method D
  part_erase ntd block p w = m.erase (block_ops ntd block p) w

  unfoldable pub part_block_isbad : NtdInfo → ℕ → Method D
  part_block_isbad ntd block p w = m.block_isbad (block_ops ntd block p) w

  unfoldable pub part_block_markbad : NtdInfo → ℕ → Method D
  part_block_markbad ntd block p w = m.block_markbad (block_ops ntd block p) w

  -- The `do ... while` that counts the bad blocks, `rounds` times.
  unfoldable pub count_bad : NtdInfo → ℕ → ℕ → ℕ → Phydev → World D → Option (ℕ × Phydev × World D)
  unfolding part_block_isbad
  count_bad ntd zero block bad p w = some (bad, p, w)
  count_bad ntd (suc rounds) block bad p w = elim (part_block_isbad ntd block p w) [
    | none ↦ none
    | some r ↦ count_bad ntd rounds (u32 (block + 1)) (if is_zero r.0 then bad else bad + 1) r.1 r.2
  ]

  -- `slave->flags &= ~NTD_WRITEABLE` when a bound of the partition is not a multiple of a block
  unfoldable pub checked_flags : NtdInfo → ℕ
  unfolding ntd_mod_by_eb
  checked_flags slave =
      let bad_start =
        has slave.flags ntd_writeable && not (ntd_mod_by_eb slave.offset slave == 0) in
      let flags = if bad_start then slave.flags - 2 ^ ntd_writeable else slave.flags in
      let bad_end = has flags ntd_writeable && not (ntd_mod_by_eb slave.size slave == 0) in
      if bad_end then flags - 2 ^ ntd_writeable else flags

  -- The record as `allocate_partition` fills it, at the address that `kzalloc` gave. The mask of the
  -- block is left as `kzalloc` cleared it.
  unfoldable pub new_slave : ℕ → ℕ → Phydev → NtdInfo
  unfolding ffs
  new_slave addr number master = record {
    addr = addr;
    flags = master.flags;
    size = master.size;
    offset = master.offset;
    blocksize = master.erasesize;
    pagesize = master.writesize;
    oobsize = master.oobavail;
    blocksize_shift = ffs master.erasesize - 1;
    pagesize_shift = ffs master.writesize - 1;
    blocksize_mask = 0;
    name = some master.name;
    index = 0;
    parts = master.partitions;
    priv = number;
    usecount = 0;
    badblocks = 0;
  }

  unfoldable pub finish_allocate :
      NtdInfo → Option (ℕ × Phydev × World D) → Option (Allocated × Phydev × World D)
  finish_allocate slave none = none
  finish_allocate slave (some (bad, p, w)) =
      some (Allocated.made (record slave { badblocks = bad }), p, w)

  -- `addr` is what the two allocations gave: 0 when one of them failed. `number` stands for the
  -- address of `master`.
  unfoldable pub allocate_partition :
      ℕ → ℕ → Phydev → World D → Option (Allocated × Phydev × World D)
  unfolding new_slave checked_flags count_bad finish_allocate do_while_rounds
  allocate_partition addr number master w =
      let slave = new_slave addr number master in
      let slave' = record slave { flags = checked_flags slave } in
      let rounds = do_while_rounds (u32 (shr slave.size slave.blocksize_shift)) in
      if addr == 0
      then some (Allocated.failed (neg enomem), master, w)
      else finish_allocate slave' (count_bad slave' rounds 0 0 master w)

-- Whether `del_ntd_partitions` deletes a slave: it has a name, and is of the master.
abbrev pub is_slave_of : ℕ → NtdInfo → Bool
is_slave_of master slave = elim (slave.name) [ none ↦ false | some name ↦ slave.priv == master ]

-- `del_ntd_partitions`: the slaves of `master` are deleted, but those that `del` refuses; `del` is
-- `del_ntd_device` with the table that it changes.
unfoldable pub del_ntd_partitions :
    {T : Type 0} → (NtdInfo → T → ℤ × T) → ℕ → List NtdInfo → T → ℤ → ℤ × List NtdInfo × T
del_ntd_partitions del master [] t err = (err, [], t)
del_ntd_partitions del master (slave ∷ list) t err =
    let (ret, t') = del slave t in
    let mine = is_slave_of master slave in
    let refused = mine && is_neg ret in
    let (e, l, u) =
      del_ntd_partitions del master list (if mine then t' else t) (if refused then ret else err) in
    (e, (if mine && not (is_neg ret) then l else slave ∷ l), u)

-- `add_ntd_partitions`: the new slave is put first on the list, and given to `add_ntd_device`, whose
-- answer is not looked at.
unfoldable pub add_ntd_partitions :
    {T : Type 0} → (NtdInfo → T → ℤ × T) → Allocated → List NtdInfo → T → ℤ × List NtdInfo × T
add_ntd_partitions add (Allocated.failed err) list t = (err, list, t)
add_ntd_partitions add (Allocated.made slave) list t = (pos 0, slave ∷ list, (add slave t).1)
