-- ===== src/Dev/Env.antt =====
-- dev/amlnf_env.c: the environment of the boot loader, which is a record on the flash, and its
-- character device. `none` is out of fuel in the search of the last reserved block.
pub mod Quiet
mod Held
pub mod Roundtrip
pub mod Start
pub mod Started
mod Tests
use amlnf.Prelude.{
  ℕ, ◌+◌, ◌-◌, Bool, true, false, not, Option, none, some, List, [], ◌∷◌, ◌==◌, ltb, if◌then◌else◌,
  take, drop, replicate, length,
}
use amlnf.Prelude.Int.{ℤ, pos, negsuc, neg, is_zero}
use amlnf.Guard.{Guard}
use amlnf.Phy.Info.{Geometry, Store, ArgInfo}
use amlnf.Phy.Info.Bytes.{paste}
use amlnf.Phy.Info.Read.{amlnand_read_info_by_name}
use amlnf.Phy.Info.Save.{amlnand_save_info_by_name}

abbrev pub efault : ℕ
efault = 14

abbrev pub enomem : ℕ
enomem = 12

-- ENV_INFO_HEAD_MAGIC, "nenv"
abbrev pub env_info_head_magic : List ℕ
env_info_head_magic = 110 ∷ 101 ∷ 110 ∷ 118 ∷ []

-- What this file calls. `vmalloc` gives the memory with what it holds, or none. The destination of
-- `copy_from_user` is zero where the copy fails.
pub record EnvCalls (D : Type 0) : Type 0 where
  pub vmalloc : ℕ → D → Option (List ℕ) × D
  pub kzalloc : ℕ → D → Bool × D
  pub get_device : D → D
  pub release_device : D → D
  pub copy_to_user : List ℕ → D → D
  pub copy_from_user : ℕ → D → List ℕ × D

-- `aml_chip_env`, as far as this file and the records read it, and all that is outside
pub record EnvChip (D : Type 0) : Type 0 where
  pub guard : Guard
  pub uboot_env : ArgInfo
  pub reserved_blk : List ℕ
  pub outside : D

abbrev pub with_outside : {D : Type 0} → EnvChip D → D → EnvChip D
with_outside c d = record c { outside = d }

-- `size` is CONFIG_ENV_SIZE.
module _ {D : Type 0} (s : Store D) (g : Geometry) (calls : EnvCalls D) (size : ℕ) where
  -- The record is saved, and its place and the table of the blocks are updated.
  unfoldable pub save_env : ℕ → List ℕ → EnvChip D → Option (ℤ × EnvChip D)
  unfolding amlnand_save_info_by_name
  save_env fuel env_buf c =
      elim (amlnand_save_info_by_name s g c.guard fuel c.uboot_env c.reserved_blk env_buf
        env_info_head_magic size c.outside) [
          | none ↦ none
          | some (r, d) ↦ some (r.0, record c { uboot_env = r.1; reserved_blk = r.2; outside = d })
        ]

  -- The buffer of `amlnf_env_save`: zeros with the data at the start
  abbrev pub env_bytes : List ℕ → List ℕ → ℕ → List ℕ
  env_bytes memory buf len = paste (paste memory 0 (replicate size 0)) 0 (take len buf)

  unfoldable pub amlnf_env_save : ℕ → List ℕ → ℕ → EnvChip D → Option (ℤ × EnvChip D)
  unfolding save_env
  amlnf_env_save fuel buf len c =
      if ltb size len
      then some (neg efault, c)
      else (let (memory, d) = calls.vmalloc (size + g.pagesize) c.outside in
          elim memory [
            | none ↦ some (negsuc 0, with_outside c d)
            | some bytes ↦ elim (save_env fuel (env_bytes bytes buf len) (with_outside c d)) [
              | none ↦ none
              | some (ret, c') ↦ some ((if is_zero ret then ret else neg efault), c')
            ]
          ])

  -- The record is read into memory that is zero.
  unfoldable pub read_env : List ℕ → EnvChip D → (ℤ × List ℕ) × EnvChip D
  unfolding amlnand_read_info_by_name
  read_env env_buf c =
      let (r, d) =
        amlnand_read_info_by_name s g c.uboot_env env_buf env_info_head_magic size c.outside in
      (r, with_outside c d)

  -- The result and the caller's buffer
  unfoldable pub amlnf_env_read : List ℕ → ℕ → EnvChip D → (ℤ × List ℕ) × EnvChip D
  unfolding read_env
  amlnf_env_read buf len c =
      if ltb size len
      then ((neg efault, buf), c)
      else if c.uboot_env.arg_valid == 0
      then ((pos 0, paste buf 0 (replicate len 0)), c)
      else (let (memory, d) = calls.vmalloc (size + g.pagesize) c.outside in
          elim memory [
            | none ↦ ((negsuc 0, buf), with_outside c d)
            | some bytes ↦
                let (r, c') = read_env (paste bytes 0 (replicate size 0)) (with_outside c d) in
                if is_zero r.0
                then ((r.0, paste buf 0 (take len r.1)), c')
                else ((neg efault, buf), c')
          ])

  unfoldable pub aml_nand_update_ubootenv : ℕ → EnvChip D → Option (ℤ × EnvChip D)
  unfolding save_env read_env
  aml_nand_update_ubootenv fuel c =
      let (got, d) = calls.kzalloc size c.outside in
      let (r, c1) = read_env (replicate size 0) (with_outside c d) in
      if not got
      then some (neg enomem, with_outside c d)
      else if not (is_zero r.0)
      then some (pos 0, c1)
      else elim (save_env fuel r.1 c1) [ none ↦ none | some (ret, c2) ↦ some (pos 0, c2) ]

  -- The part of a transfer of `count` bytes at `ppos` that lies in the environment
  abbrev pub clipped : ℕ → ℕ → ℕ
  clipped ppos count = if ltb size (ppos + count) then size - ppos else count

  -- The result, and the position in the file
  unfoldable pub uboot_env_read : ℕ → ℕ → EnvChip D → (ℤ × ℕ) × EnvChip D
  unfolding amlnf_env_read
  uboot_env_read count ppos c =
      if ppos == size
      then ((pos 0, ppos), c)
      else if ltb size ppos
      then ((neg efault, ppos), c)
      else (let (memory, d) = calls.vmalloc (size + g.pagesize) c.outside in
          elim memory [
            | none ↦ ((neg enomem, ppos), with_outside c d)
            | some bytes ↦
                let (r, c1) = amlnf_env_read bytes size (with_outside c (calls.get_device d)) in
                let n = clipped ppos count in
                let d1 = calls.copy_to_user (take n (drop ppos r.1)) c1.outside in
                if is_zero r.0
                then ((pos n, ppos + n), with_outside c1 (calls.release_device d1))
                else ((pos 0, ppos), with_outside c1 (calls.release_device c1.outside))
          ])

  -- The result is the size of the write whether the save succeeds or not.
  unfoldable pub finish_write : ℕ → ℕ → Option (ℤ × EnvChip D) → Option ((ℤ × ℕ) × EnvChip D)
  finish_write n ppos none = none
  finish_write n ppos (some (ret, c)) = some (
    (pos n, (if is_zero ret then ppos + n else ppos)),
    with_outside c (calls.release_device c.outside),
  )

  -- The user's bytes are put into the environment, which is saved.
  unfoldable pub write_data : ℕ → ℕ → ℕ → List ℕ → EnvChip D → Option ((ℤ × ℕ) × EnvChip D)
  unfolding amlnf_env_save finish_write
  write_data fuel n ppos env_ptr c =
      let (arrived, d) = calls.copy_from_user n c.outside in
      finish_write n ppos (amlnf_env_save fuel (paste env_ptr ppos arrived) size (with_outside c d))

  -- The result is 0 when the read fails.
  unfoldable pub write_after : ℕ → ℕ → ℕ → (ℤ × List ℕ) × EnvChip D → Option ((ℤ × ℕ) × EnvChip D)
  unfolding write_data
  write_after fuel n ppos r =
      if is_zero r.0.0
      then write_data fuel n ppos r.0.1 r.1
      else some ((pos 0, ppos), with_outside r.1 (calls.release_device r.1.outside))

  unfoldable pub uboot_env_write : ℕ → ℕ → ℕ → EnvChip D → Option ((ℤ × ℕ) × EnvChip D)
  unfolding amlnf_env_read write_after
  uboot_env_write fuel count ppos c =
      if ppos == size
      then some ((pos 0, ppos), c)
      else if ltb size ppos
      then some ((neg efault, ppos), c)
      else (let (memory, d) = calls.vmalloc (size + g.pagesize) c.outside in
          elim memory [
            | none ↦ some ((neg enomem, ppos), with_outside c d)
            | some bytes ↦
                write_after fuel (clipped ppos count) ppos
                  (amlnf_env_read bytes size (with_outside c (calls.get_device d)))
          ])
