-- ===== src/Dev/Env/Held.antt =====
-- dev/amlnf_env.c: the environment as a record that is kept on the flash.
use amlnf.Prelude.{
  ℕ, ◌+◌, ◌≤◌, ◌≡◌, true, false, some, List, ◌++◌, refl, ap, ◌∙◌, arith, take, drop, replicate,
  length, length-take, ltb, ◌==◌, if◌then◌else◌,
}
use amlnf.Prelude.Int.{ℤ, pos, neg, is_zero}
use amlnf.Guard.{Guard}
use amlnf.Phy.Info.{Geometry, Store, Target, arg_pages}
use amlnf.Phy.Info.Bytes.{paste, take-append, take-take}
use amlnf.Phy.Info.Medium.{Medium}
use amlnf.Phy.Info.Pages.{IsPaged, total_size-le}
use amlnf.Phy.Info.Read.{amlnand_read_info_by_name}
use amlnf.Phy.Info.Write.{is_hynix_1ynm, total_size}
use amlnf.Phy.Info.Save.{amlnand_save_info_by_name}
use amlnf.Phy.Bbt.{erofs}
use amlnf.Phy.Info.Stored.{stored}
use amlnf.Phy.Info.Roundtrip.{
  HasRoom, Kept, stamp_of, both_copies, save-stored, save-Kept, read-stored, peek-read_info,
}
use amlnf.Dev.Env.{
  EnvCalls, EnvChip, efault, amlnf_env_save, amlnf_env_read, save_env, read_env, env_bytes,
  env_info_head_magic,
}
use amlnf.Dev.Env.Quiet.{Quiet}

module _ {D : Type 0} {s : Store D} (m : Medium s) (g : Geometry) (hx : is_hynix_1ynm g ≡ false)
    (guard : Guard) (calls : EnvCalls D) (user : List ℕ) (q : Quiet m calls user) (size : ℕ) where
  -- The chip with a valid environment on it
  abbrev pub env_chip : (blk page free stamp : ℕ) → List ℕ → D → EnvChip D
  env_chip blk page free stamp table d = record {
    guard = guard;
    uboot_env = stored blk page free stamp;
    reserved_blk = table;
    outside = d;
  }

  -- The environment on the flash is `old`.
  abbrev pub Holds : (blk page stamp : ℕ) → List ℕ → D → Type 0
  Holds blk page stamp old d = Kept m g hx blk page size old env_info_head_magic stamp d

  -- The flash after a memory of the environment's size was taken
  abbrev pub taken : D → D
  taken d = (calls.vmalloc (size + g.pagesize) d).1

  -- What is saved, and the flash afterwards
  abbrev pub saved_bytes : List ℕ → D → List ℕ
  saved_bytes buf d = env_bytes s g calls size (q.memory (size + g.pagesize) d) buf size

  abbrev pub saved : (blk page stamp : ℕ) → List ℕ → D → D
  saved blk page stamp buf d =
      both_copies m g hx blk page stamp size (saved_bytes buf d) env_info_head_magic (taken d)

  abbrev stamp' : ℕ → ℕ
  stamp' stamp = stamp_of m g hx 2 stamp

  save_env-stored :
      (guard.allow_meta == 0) ≡ false
      → (fuel blk page free stamp : ℕ) (table buf : List ℕ) (d : D) → HasRoom g blk page size
      → save_env s g calls size fuel buf (env_chip blk page free stamp table d)
        ≡ some (
          pos 0,
          env_chip blk
              (page + arg_pages g size + arg_pages g size)
              free
              (stamp' stamp)
              table
              (both_copies m g hx blk page stamp size buf env_info_head_magic d),
        )
  unfolding save_env
  save_env-stored allowed fuel blk page free stamp table buf d h =
      rw
        (
          save_env,
          save-stored m g hx guard allowed fuel blk page free stamp size table buf
              env_info_head_magic d h,
        )
        refl

  itself : ltb size size ≡ false
  itself = ground arith

  pub env_save-stored :
      (guard.allow_meta == 0) ≡ false
      → (fuel blk page free stamp : ℕ) (table buf : List ℕ) (d : D) → HasRoom g blk page size
      → amlnf_env_save s g calls size fuel buf size (env_chip blk page free stamp table d)
        ≡ some (
          pos 0,
          env_chip blk
              (page + arg_pages g size + arg_pages g size)
              free
              (stamp' stamp)
              table
              (saved blk page stamp buf d),
        )
  unfolding amlnf_env_save
  env_save-stored allowed fuel blk page free stamp table buf d h =
      rw
        (
          amlnf_env_save,
          itself,
          q.vmalloc-some (size + g.pagesize) d,
          save_env-stored allowed fuel blk page free stamp table (saved_bytes buf d) (taken d) h,
        )
        refl

  save_env-refused :
      (guard.allow_meta == 0) ≡ true
      → (fuel blk page free stamp : ℕ) (table buf : List ℕ) (d : D)
      → save_env s g calls size fuel buf (env_chip blk page free stamp table d)
        ≡ some (neg erofs, env_chip blk page free stamp table d)
  unfolding save_env amlnand_save_info_by_name
  save_env-refused refused fuel blk page free stamp table buf d =
      rw (save_env, amlnand_save_info_by_name, refused) refl

  pub env_save-refused :
      (guard.allow_meta == 0) ≡ true
      → (fuel blk page free stamp : ℕ) (table buf : List ℕ) (d : D)
      → amlnf_env_save s g calls size fuel buf size (env_chip blk page free stamp table d)
        ≡ some (neg efault, env_chip blk page free stamp table (taken d))
  unfolding amlnf_env_save
  env_save-refused refused fuel blk page free stamp table buf d =
      rw
        (
          amlnf_env_save,
          itself,
          q.vmalloc-some (size + g.pagesize) d,
          save_env-refused refused fuel blk page free stamp table (saved_bytes buf d) (taken d),
        )
        refl

  pub saved-Holds :
      (blk page stamp : ℕ) (buf : List ℕ) (d : D)
      → HasRoom g blk page size
      → Holds blk
          (page + arg_pages g size + arg_pages g size)
          (stamp' stamp)
          (saved_bytes buf d)
          (saved blk page stamp buf d)
  saved-Holds blk page stamp buf d h =
      save-Kept m g hx blk page stamp size (saved_bytes buf d) env_info_head_magic (taken d) h

  -- The pages are as they were, so that they hold what they held.
  pub Holds-kept :
      (blk page stamp : ℕ) (old : List ℕ) (d d' : D)
      → ((t : Target) → m.peek t d' ≡ m.peek t d)
      → Holds blk page stamp old d
      → Holds blk page stamp old d'
  Holds-kept blk page stamp old d d' same h i a = same _ ∙ h i a

  -- The flash after a read
  abbrev pub zeroed : D → List ℕ
  zeroed d = paste (q.memory (size + g.pagesize) d) 0 (replicate size 0)

  abbrev pub after_read : (blk page free stamp : ℕ) → D → D
  after_read blk page free stamp d =
      (amlnand_read_info_by_name s g (stored blk page free stamp) (zeroed d) env_info_head_magic
        size (taken d)).1

  pub peek-after_read :
      (blk page free stamp : ℕ) (d : D) (t : Target)
      → m.peek t (after_read blk page free stamp d) ≡ m.peek t d
  peek-after_read blk page free stamp d t =
      peek-read_info m g hx (stored blk page free stamp) (zeroed d) env_info_head_magic size
        (taken d) t
      ∙ q.peek-vmalloc (size + g.pagesize) d t

  read_env-stored :
      (blk page free stamp : ℕ) (table old : List ℕ) (d : D)
      → IsPaged g
      → total_size g size ≤ length old
      → Holds blk page stamp old d
      → read_env s g calls size (zeroed d) (env_chip blk page free stamp table (taken d)) ≡ (
        (pos 0, take size old ++ drop size (zeroed d)),
        env_chip blk page free stamp table (after_read blk page free stamp d),
      )
  unfolding read_env
  read_env-stored blk page free stamp table old d paged long holds =
      let there =
        Holds-kept blk page stamp old d (taken d) (q.peek-vmalloc (size + g.pagesize) d) holds in
      let r =
        read-stored m g hx blk page free stamp size old (zeroed d) env_info_head_magic stamp
          (taken d) paged long there in
      rw (read_env, r) refl

  pub env_read-stored :
      (blk page free stamp : ℕ) (table old buf : List ℕ) (d : D)
      → IsPaged g
      → total_size g size ≤ length old
      → Holds blk page stamp old d
      → amlnf_env_read s g calls size buf size (env_chip blk page free stamp table d) ≡ (
        (pos 0, paste buf 0 (take size old)),
        env_chip blk page free stamp table (after_read blk page free stamp d),
      )
  unfolding amlnf_env_read
  env_read-stored blk page free stamp table old buf d paged long holds =
      let le = total_size-le g size in
      let whole : take size (take size old ++ drop size (zeroed d)) ≡ take size old =
        take-append size (take size old) (drop size (zeroed d))
          (omega (arith, length-take size old))
        ∙ take-take size size old (omega arith) in
      let finish : (ℤ × List ℕ) × EnvChip D → (ℤ × List ℕ) × EnvChip D = λ r.
        if is_zero r.0.0
        then ((r.0.0, paste buf 0 (take size r.0.1)), r.1)
        else ((neg efault, buf), r.1) in
      let taking : amlnf_env_read s g calls size buf size (env_chip blk page free stamp table d)
          ≡ finish
              (read_env s g calls size (zeroed d) (env_chip blk page free stamp table (taken d))) =
        rw (amlnf_env_read, itself, q.vmalloc-some (size + g.pagesize) d) refl in
      taking
      ∙ ap finish (read_env-stored blk page free stamp table old d paged long holds)
      ∙ ap
          (λ l. (
            (pos 0, paste buf 0 l),
            env_chip blk page free stamp table (after_read blk page free stamp d),
          ))
          whole
