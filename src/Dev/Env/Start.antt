-- ===== src/Dev/Env/Start.antt =====
-- dev/amlnf_env.c: aml_ubootenv_init, which looks for the environment on the flash and registers its
-- character device. `none` is out of fuel in the scan.
use amlnf.Prelude.{ℕ, Bool, not, Option, none, some, replicate, if◌then◌else◌}
use amlnf.Prelude.Int.{ℤ, negsuc, is_neg, is_zero}
use amlnf.Phy.Info.{Geometry, Store}
use amlnf.Phy.Info.Init.{Layout, amlnand_info_init}
use amlnf.Dev.Env.{EnvChip, with_outside, env_info_head_magic}

-- What the kernel answers to a registration, and what takes it back. A `true` is a pointer that is
-- no error.
pub record RegisterCalls (D : Type 0) : Type 0 where
  pub aml_nand_malloc : ℕ → D → Bool × D
  pub alloc_chrdev_region : D → ℤ × D
  pub cdev_add : D → ℤ × D
  pub class_create : D → Bool × D
  pub device_create : D → Bool × D
  pub class_destroy : D → D
  pub cdev_del : D → D
  pub unregister_chrdev_region : D → D

-- `size` is CONFIG_ENV_SIZE.
module _ {D : Type 0} (s : Store D) (g : Geometry) (layout : Layout) (calls : RegisterCalls D)
    (size : ℕ) where
  -- exit_err1, exit_err2 and exit_err3
  abbrev pub exit_err1 : D → ℤ × D
  exit_err1 d = (negsuc 0, calls.unregister_chrdev_region d)

  abbrev pub exit_err2 : D → ℤ × D
  exit_err2 d = exit_err1 (calls.cdev_del d)

  abbrev pub exit_err3 : D → ℤ × D
  exit_err3 d = exit_err2 (calls.class_destroy d)

  -- The registration of the character device
  unfoldable pub register_env : D → ℤ × D
  register_env d =
      let (region, d1) = calls.alloc_chrdev_region d in
      let (added, d2) = calls.cdev_add d1 in
      let (class, d3) = calls.class_create d2 in
      let (dev, d4) = calls.device_create d3 in
      if is_neg region
      then (negsuc 0, d1)
      else if not (is_zero added)
      then exit_err1 d2
      else if not class
      then exit_err2 d3
      else if not dev
      then exit_err3 d4
      else (added, d4)

  unfoldable pub aml_ubootenv_init : ℕ → EnvChip D → Option (ℤ × EnvChip D)
  unfolding amlnand_info_init register_env
  aml_ubootenv_init fuel c =
      let (got, d) = calls.aml_nand_malloc size c.outside in
      if not got
      then some (negsuc 0, with_outside c d)
      else elim (amlnand_info_init s g layout fuel c.uboot_env c.reserved_blk (replicate size 0)
          env_info_head_magic size d) [
            | none ↦ none
            | some (r, d1) ↦
                let c1 = record c { uboot_env = r.info; reserved_blk = r.table; outside = d1 } in
                let (ret, d2) = register_env d1 in
                some (if is_neg r.ret then (negsuc 0, c1) else (ret, with_outside c1 d2))
          ]
