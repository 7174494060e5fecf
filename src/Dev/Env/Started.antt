-- ===== src/Dev/Env/Started.antt =====
-- dev/amlnf_env.c: after aml_ubootenv_init, amlnf_env_read gives the environment that is on the flash.
use amlnf.Prelude.{
  ℕ, suc, ◌+◌, ◌*◌, ◌<◌, ◌≤◌, ◌≡◌, refl, sym, ap, subst, ◌∙◌, Bool, true, false, not, some, List,
  ◌++◌, take, drop, length, replicate, arith,
}
use mathlib.Core.Option
use amlnf.Prelude.Int.{ℤ, pos, is_zero}
use amlnf.Guard.{Guard}
use amlnf.Guard.Parts.{strn_eq}
use amlnf.Phy.Info.{
  Geometry, Store, Target, page_target, blk_target, arg_pages, pages_read, first_blk, rounds_of,
}
use amlnf.Phy.Info.Bytes.{paste}
use amlnf.Phy.Info.Medium.{Medium}
use amlnf.Phy.Info.Pages.{IsPaged}
use amlnf.Phy.Info.Write.{total_size, is_hynix_1ynm}
use amlnf.Phy.Info.Copies.{spare}
use amlnf.Phy.Info.Visited.{blank, Same}
use amlnf.Phy.Info.Roundtrip.{Kept}
use amlnf.Phy.Info.Init.{Layout, check_sum, aml_info_check_datasum}
use amlnf.Phy.Info.Restart.{IsOnly, IsOnly-Same, init-found}
use amlnf.Phy.Info.Save.{add_reserved}
use amlnf.Dev.Env.{EnvCalls, EnvChip, amlnf_env_read, env_info_head_magic}
use amlnf.Dev.Env.Quiet.{Quiet}
use amlnf.Dev.Env.Held.{env_chip, env_read-stored}
use amlnf.Dev.Env.Start.{RegisterCalls, register_env, aml_ubootenv_init}

-- What the kernel promises of a registration that goes through: the pages of the flash are left.
pub record Registers {D : Type 0} {s : Store D} (m : Medium s) (calls : RegisterCalls D)
    : Type 0 where
  pub has_memory : (n : ℕ) (d : D) → (calls.aml_nand_malloc n d).0 ≡ true
  pub has_region : (d : D) → (calls.alloc_chrdev_region d).0 ≡ pos 0
  pub has_cdev : (d : D) → (calls.cdev_add d).0 ≡ pos 0
  pub has_class : (d : D) → (calls.class_create d).0 ≡ true
  pub has_device : (d : D) → (calls.device_create d).0 ≡ true
  pub peek-malloc :
      (n : ℕ) (d : D) (t : Target) → m.peek t (calls.aml_nand_malloc n d).1 ≡ m.peek t d
  pub peek-region : (d : D) (t : Target) → m.peek t (calls.alloc_chrdev_region d).1 ≡ m.peek t d
  pub peek-cdev : (d : D) (t : Target) → m.peek t (calls.cdev_add d).1 ≡ m.peek t d
  pub peek-class : (d : D) (t : Target) → m.peek t (calls.class_create d).1 ≡ m.peek t d
  pub peek-device : (d : D) (t : Target) → m.peek t (calls.device_create d).1 ≡ m.peek t d

module _ {D : Type 0} {s : Store D} (m : Medium s) (g : Geometry) (layout : Layout)
    (calls : RegisterCalls D) (r : Registers m calls) (size : ℕ) where
  -- The device after the four steps of a registration
  registered : D → D
  registered d =
      (calls.device_create
        (calls.class_create (calls.cdev_add (calls.alloc_chrdev_region d).1).1).1).1

  register-ok : (d : D) → register_env s g layout calls size d ≡ (pos 0, registered d)
  unfolding register_env registered
  register-ok d =
      rw
        (
          r.has_region d,
          r.has_cdev (calls.alloc_chrdev_region d).1,
          r.has_class (calls.cdev_add (calls.alloc_chrdev_region d).1).1,
          r.has_device (calls.class_create (calls.cdev_add (calls.alloc_chrdev_region d).1).1).1,
        )
        refl

  registered-Same : (d : D) → Same m g d (registered d)
  unfolding registered
  registered-Same d t = r.peek-device _ t ∙ r.peek-class _ t ∙ r.peek-cdev _ t ∙ r.peek-region d t

-- The checksum is not asked for under the environment's name.
env-datasum :
    (layout : Layout) (bytes : List ℕ)
    → aml_info_check_datasum layout bytes env_info_head_magic ≡ pos 0
unfolding aml_info_check_datasum check_sum strn_eq
env-datasum layout bytes = refl

module _ {D : Type 0} {s : Store D} (m : Medium s) (g : Geometry) (hx : is_hynix_1ynm g ≡ false)
    (layout : Layout) (calls : RegisterCalls D) (r : Registers m calls) (guard : Guard)
    (env_calls : EnvCalls D) (user : List ℕ) (q : Quiet m env_calls user) (size fuel : ℕ)
    (bad : ℕ → Bool)
    (isbad : (b : ℕ) (d : D) → is_zero (s.block_isbad (blk_target g b) d).0 ≡ not (bad b))
    (same : (b : ℕ) (d : D) → Same m g d (s.block_isbad (blk_target g b) d).1)
    (few_pages : pages_read g ≤ 65536) where
  -- The chip before the start, with a record of type FULL_PAGE that is not valid
  abbrev pub blank_chip : (v p free st : ℕ) → List ℕ → D → EnvChip D
  blank_chip v p free st table d = record {
    guard = guard;
    uboot_env = blank v p free st;
    reserved_blk = table;
    outside = d;
  }

  -- What the start returns, and what a read of the whole environment gives then
  abbrev pub read_at_start : List ℕ → ℤ × EnvChip D → ℤ × (ℤ × List ℕ)
  read_at_start buf x = (x.0, (amlnf_env_read s g env_calls size buf size x.1).0)

  init-Registered :
      (place k v p free st stamp : ℕ) (table old : List ℕ) (d : D)
      → IsOnly m g hx env_info_head_magic size fuel bad isbad same few_pages place k d
      → 0 < arg_pages g size
      → IsPaged g
      → total_size g size ≤ length old
      → Kept m g hx
          (first_blk g + place)
          (k * arg_pages g size)
          size
          old
          env_info_head_magic
          stamp
          d
      → (d' : D) × ((aml_ubootenv_init s g layout calls size
              (suc fuel)
              (blank_chip v p free st table d)
            ≡ some (
              pos 0,
              env_chip m g hx guard env_calls user q size
                  (first_blk g + place)
                  (k * arg_pages g size)
                  free
                  (spare m g hx env_info_head_magic size
                    (first_blk g + place)
                    k
                    (calls.aml_nand_malloc size d).1).timestamp
                  (add_reserved table (first_blk g + place))
                  d',
            ))
          × Same m g d d')
  unfolding aml_ubootenv_init
  init-Registered place k v p free st stamp table old d only few paged long kept =
      let d0 = (calls.aml_nand_malloc size d).1 in
      let same0 : Same m g d d0 = r.peek-malloc size d in
      let (d1, (e, same1)) =
        init-found m g hx env_info_head_magic size fuel bad isbad same few_pages layout place k v p
          free st stamp table old (replicate size 0) d0
          (IsOnly-Same m g hx env_info_head_magic size fuel bad isbad same few_pages place k d d0
            same0 only)
          few paged long (λ i a. same0 _ ∙ kept i a) in
      let ok = register-ok m g layout calls r size d1 in
      let bytes = take size old ++ drop size (replicate size 0) in
      (
        registered m g layout calls r size d1,
        (
          rw (aml_ubootenv_init, r.has_memory size d, e, env-datasum layout bytes, ok) refl,
          λ t. registered-Same m g layout calls r size d1 t ∙ same1 t ∙ same0 t,
        ),
      )

  -- The stamp that the scan finds is that of the pages.
  stamp-Kept :
      (place k stamp : ℕ) (old : List ℕ) (d : D)
      → 0 < rounds_of (total_size g size) g.pagesize
      → Kept m g hx
          (first_blk g + place)
          (k * arg_pages g size)
          size
          old
          env_info_head_magic
          stamp
          d
      → (spare m g hx env_info_head_magic size (first_blk g + place) k d).timestamp ≡ stamp
  stamp-Kept place k stamp old d some_rounds kept =
      let first : k * arg_pages g size ≡ k * arg_pages g size + 0 = omega arith in
      ap (λ q. (m.peek (page_target g (first_blk g + place) q) d).1.timestamp) first
      ∙ ap (λ c. c.1.timestamp) (kept 0 some_rounds)

  -- On a flash without errors that is not a Hynix of 1y nm, whose block_isbad answers the same
  -- throughout and leaves the pages, with at most 65536 pages to scan in a block and the reserved
  -- blocks below number 65536: where one reserved block is good and every other is bad or has another
  -- name on its first page, copies of at least one page fill that block up to number `k`, the place
  -- after it has another name and is within the pages to scan, and the pages of that copy hold `old`,
  -- which is at least as long as the saved area. When memory is had, the registration goes through
  -- and the kernel's calls leave the pages, aml_ubootenv_init, on a record of a full page that is not
  -- valid and with any fuel but 0, returns 0, and amlnf_env_read of the whole environment, with a
  -- user whose copies leave the pages, returns 0 and copies the first `size` bytes of `old` to the
  -- caller's buffer.
  pub init-env_read :
      (place k v p free st stamp : ℕ) (table old buf : List ℕ) (d : D)
      → IsOnly m g hx env_info_head_magic size fuel bad isbad same few_pages place k d
      → 0 < arg_pages g size
      → 0 < rounds_of (total_size g size) g.pagesize
      → IsPaged g
      → total_size g size ≤ length old
      → Kept m g hx
          (first_blk g + place)
          (k * arg_pages g size)
          size
          old
          env_info_head_magic
          stamp
          d
      → Option.map
          (read_at_start buf)
          (aml_ubootenv_init s g layout calls size (suc fuel) (blank_chip v p free st table d))
        ≡ some (pos 0, (pos 0, paste buf 0 (take size old)))
  init-env_read place k v p free st stamp table old buf d only few some_rounds paged long kept =
      let d0 = (calls.aml_nand_malloc size d).1 in
      let blk = first_blk g + place in
      let page = k * arg_pages g size in
      let (d', (e, same')) =
        init-Registered place k v p free st stamp table old d only few paged long kept in
      let stamp' = (spare m g hx env_info_head_magic size blk k d0).timestamp in
      let kept0 : Kept m g hx blk page size old env_info_head_magic stamp d0 =
        λ i a. r.peek-malloc size d _ ∙ kept i a in
      let there : Kept m g hx blk page size old env_info_head_magic stamp' d' =
        subst (λ x. Kept m g hx blk page size old env_info_head_magic x d')
          (sym (stamp-Kept place k stamp old d0 some_rounds kept0)) (λ i a. same' _ ∙ kept i a) in
      ap (Option.map (read_at_start buf)) e
      ∙ ap (λ x. some (pos 0, x.0))
          (env_read-stored m g hx guard env_calls user q size blk page free stamp'
            (add_reserved table blk) old buf d' paged long there)
