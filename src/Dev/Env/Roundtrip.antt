-- ===== src/Dev/Env/Roundtrip.antt =====
-- dev/amlnf_env.c: what is written to the character device of the environment is read back.
use amlnf.Prelude.{
  ℕ, ◌+◌, ◌-◌, ◌<◌, ◌≤◌, ◌≡◌, true, false, some, List, refl, sym, ap, ◌∙◌, arith, take, drop,
  length, length-take, ltb, ◌==◌, if_false,
}
use mathlib.Core.Option
use amlnf.Prelude.Int.{ℤ, pos}
use amlnf.Guard.{Guard}
use amlnf.Phy.Info.{Geometry, Store, Target, arg_pages}
use amlnf.Phy.Info.Bytes.{paste, length-paste, take-paste}
use amlnf.Phy.Info.Medium.{Medium}
use amlnf.Phy.Info.Pages.{total_size-le, total_size-max}
use amlnf.Phy.Info.Write.{is_hynix_1ynm, total_size}
use amlnf.Phy.Info.Roundtrip.{HasRoom, stamp_of}
use amlnf.Dev.Env.{
  EnvCalls, EnvChip, amlnf_env_read, amlnf_env_save, uboot_env_write, write_after, write_data,
  finish_write, clipped,
}
use amlnf.Dev.Env.Quiet.{Quiet, take-env_bytes, length-env_bytes}
use amlnf.Dev.Env.Held.{
  Holds, Holds-kept, env_chip, taken, saved, saved_bytes, saved-Holds, after_read, peek-after_read,
  env_save-stored, env_save-refused, env_read-stored,
}

not_end_of : {a b : ℕ} → a < b → (a == b) ≡ false
not_end_of h = ground arith

not_beyond : {a b : ℕ} → a ≤ b → ltb b a ≡ false
not_beyond h = ground arith

module _ {D : Type 0} {s : Store D} (m : Medium s) (g : Geometry) (hx : is_hynix_1ynm g ≡ false)
    (guard : Guard) (calls : EnvCalls D) (user : List ℕ) (q : Quiet m calls user) (size : ℕ) where
  -- The memory of a write, its flash when the device is taken, and after the read
  buffer : D → List ℕ
  buffer d = q.memory (size + g.pagesize) d

  at_start : D → D
  at_start d = calls.get_device (calls.vmalloc (size + g.pagesize) d).1

  -- What the environment is when it is read after a write
  abbrev pub read_back : List ℕ → (ℤ × ℕ) × EnvChip D → (ℤ × ℕ) × (ℤ × List ℕ)
  read_back buf r = (r.0, (amlnf_env_read s g calls size buf size r.1).0)

  module _ (blk page free stamp count ppos : ℕ) (table old : List ℕ) (d : D)
      (h : HasRoom g blk page size) (long : total_size g size ≤ length old)
      (holds : Holds m g hx guard calls user q size blk page stamp old d) (inside : ppos < size)
      (fits : ppos + count ≤ size) (given : count ≤ length user) where
    -- The environment in the memory of the write, before and after the user's bytes are put in
    env_ptr : List ℕ
    unfolding buffer
    env_ptr = paste (buffer d) 0 (take size old)

    patched : List ℕ
    unfolding env_ptr
    patched = paste env_ptr ppos (take count user)

    -- The flash when the environment is saved, and at the end
    at_save : D
    unfolding at_start
    at_save =
        (calls.copy_from_user count
          (after_read m g hx guard calls user q size blk page free stamp (at_start d))).1

    at_end : D
    unfolding at_save patched
    at_end =
        calls.release_device (saved m g hx guard calls user q size blk page stamp patched at_save)

    next : ℕ
    next = page + arg_pages g size + arg_pages g size

    -- The device after the write
    written : EnvChip D
    unfolding at_end next
    written =
        env_chip m g hx guard calls user q size blk next free (stamp_of m g hx 2 stamp) table at_end

    write_data-stored :
        (guard.allow_meta == 0) ≡ false
        → (fuel : ℕ)
        → write_data s g calls size fuel count ppos env_ptr (
            env_chip m g hx guard calls user q size blk page free stamp table
              (after_read m g hx guard calls user q size blk page free stamp (at_start d)))
          ≡ some ((pos count, ppos + count), written)
    unfolding write_data finish_write written at_end at_save patched next
    write_data-stored allowed fuel =
        ap
          (λ bytes. finish_write s g calls size count ppos (
            amlnf_env_save s g calls size fuel (paste env_ptr ppos bytes) size
              (env_chip m g hx guard calls user q size blk page free stamp table at_save)))
          (q.copy-arrives count
            (after_read m g hx guard calls user q size blk page free stamp (at_start d)))
        ∙ ap (finish_write s g calls size count ppos) (
            env_save-stored m g hx guard calls user q size allowed fuel blk page free stamp table
              patched at_save h)

    -- A write that starts in the environment reads it first.
    entered :
        (fuel : ℕ)
        → uboot_env_write s g calls size fuel count ppos
            (env_chip m g hx guard calls user q size blk page free stamp table d)
          ≡ write_after s g calls size fuel (clipped s g calls size ppos count) ppos (
              amlnf_env_read s g calls size
                (buffer d)
                size
                (env_chip m g hx guard calls user q size blk page free stamp table (at_start d)))
    unfolding uboot_env_write at_start buffer
    entered fuel =
        let not_end = not_end_of inside in
        let not_out : ltb size ppos ≡ false = not_beyond (omega arith) in
        rw (uboot_env_write, not_end, not_out, q.vmalloc-some (size + g.pagesize) d) refl

    -- The environment is read, and the write goes on with it.
    entered-data :
        (fuel : ℕ)
        → uboot_env_write s g calls size fuel count ppos
            (env_chip m g hx guard calls user q size blk page free stamp table d)
          ≡ write_data s g calls size fuel count ppos env_ptr (
              env_chip m g hx guard calls user q size blk page free stamp table
                (after_read m g hx guard calls user q size blk page free stamp (at_start d)))
    unfolding write_after at_start env_ptr
    entered-data fuel =
        let here =
          Holds-kept m g hx guard calls user q size blk page stamp old d (at_start d)
            (λ t. q.peek-get _ t ∙ q.peek-vmalloc (size + g.pagesize) d t) holds in
        let whole : clipped s g calls size ppos count ≡ count =
          if_false (ltb size (ppos + count)) (size - ppos) count (not_beyond fits) in
        entered fuel
        ∙ ap
            (λ n. write_after s g calls size fuel n ppos (
              amlnf_env_read s g calls size (buffer d) size
                (env_chip m g hx guard calls user q size blk page free stamp table (at_start d))))
            whole
        ∙ ap (write_after s g calls size fuel count ppos) (
            env_read-stored m g hx guard calls user q size blk page free stamp table old (buffer d)
              (at_start d) h.paged long here)

    write-stored :
        (guard.allow_meta == 0) ≡ false
        → (fuel : ℕ)
        → uboot_env_write s g calls size fuel count ppos
            (env_chip m g hx guard calls user q size blk page free stamp table d)
          ≡ some ((pos count, ppos + count), written)
    write-stored allowed fuel = entered-data fuel ∙ write_data-stored allowed fuel

    -- The bytes that are saved are those of the old environment with the user's in their place.
    saved-patched :
        take size (saved_bytes m g hx guard calls user q size patched at_save)
        ≡ paste (take size old) ppos (take count user)
    unfolding patched env_ptr buffer
    saved-patched =
        let le = total_size-le g size in
        let whole : length (take size old) ≡ size = omega (arith, length-take size old) in
        let n : length (take count user) ≡ count = omega (arith, length-take count user) in
        let room : length (buffer d) ≡ size + g.pagesize = q.length-memory (size + g.pagesize) d in
        let l1 = length-paste (buffer d) 0 (take size old) (omega (arith, whole, room)) in
        let l2 = length-paste env_ptr ppos (take count user) (omega (arith, l1, n, room)) in
        take-env_bytes s g calls size (q.memory (size + g.pagesize) at_save) patched
          (omega (arith, l1, l2, room))
        ∙ ap (λ k. take k patched) (sym whole)
        ∙ take-paste (take size old) (drop (0 + length (take size old)) (buffer d)) ppos
            (take count user) (omega (arith, whole, n))

    -- On a flash without errors that is not a Hynix of 1y nm, with memory to be had, metadata allowed
    -- to be written, an environment on the flash, and room for two more copies in its block: a write
    -- of `count` bytes that ends in the environment returns `count` and moves the position by it.
    -- The environment that is read afterwards is the old one with the user's bytes in their place.
    pub write-read :
        (guard.allow_meta == 0) ≡ false
        → (fuel : ℕ) (buf : List ℕ)
        → Option.map (read_back buf) (
            uboot_env_write s g calls size fuel count ppos
              (env_chip m g hx guard calls user q size blk page free stamp table d))
          ≡ some (
            (pos count, ppos + count),
            (pos 0, paste buf 0 (paste (take size old) ppos (take count user))),
          )
    unfolding written at_end next
    write-read allowed fuel buf =
        let there =
          Holds-kept m g hx guard calls user q size blk next (stamp_of m g hx 2 stamp)
            (saved_bytes m g hx guard calls user q size patched at_save)
            (saved m g hx guard calls user q size blk page stamp patched at_save) at_end
            (q.peek-release _)
            (saved-Holds m g hx guard calls user q size blk page stamp patched at_save h) in
        let memory = q.memory (size + g.pagesize) at_save in
        let room = q.length-memory (size + g.pagesize) at_save in
        let long' = length-env_bytes s g calls size memory patched (omega (arith, room)) in
        ap (Option.map (read_back buf)) (write-stored allowed fuel)
        ∙ ap (λ r. some ((pos count, ppos + count), r.0))
            (env_read-stored m g hx guard calls user q size blk next free (stamp_of m g hx 2 stamp)
              table (saved_bytes m g hx guard calls user q size patched at_save) buf at_end h.paged
              (omega (arith, long', room, total_size-max g size)) there)
        ∙ ap (λ l. some ((pos count, ppos + count), (pos 0, paste buf 0 l))) saved-patched

    -- The flash after a write whose save is refused
    unsaved : D
    unfolding at_save
    unsaved = calls.release_device (taken m g hx guard calls user q size at_save)

    write_data-refused :
        (guard.allow_meta == 0) ≡ true
        → (fuel : ℕ)
        → write_data s g calls size fuel count ppos env_ptr (
            env_chip m g hx guard calls user q size blk page free stamp table
              (after_read m g hx guard calls user q size blk page free stamp (at_start d)))
          ≡ some (
            (pos count, ppos),
            env_chip m g hx guard calls user q size blk page free stamp table unsaved,
          )
    unfolding write_data finish_write unsaved at_save
    write_data-refused refused fuel = ap (finish_write s g calls size count ppos) (
        env_save-refused m g hx guard calls user q size refused fuel blk page free stamp table _
          at_save)

    peek-unsaved : (t : Target) → m.peek t unsaved ≡ m.peek t d
    unfolding unsaved at_save at_start
    peek-unsaved t =
        q.peek-release _ t
        ∙ q.peek-vmalloc (size + g.pagesize) at_save t
        ∙ q.peek-copy count _ t
        ∙ peek-after_read m g hx guard calls user q size blk page free stamp (at_start d) t
        ∙ q.peek-get _ t
        ∙ q.peek-vmalloc (size + g.pagesize) d t

    -- The same without metadata allowed to be written: the write returns `count` all the same. The
    -- position stays, and the environment that is read afterwards is the old one.
    pub write-refused :
        (guard.allow_meta == 0) ≡ true
        → (fuel : ℕ) (buf : List ℕ)
        → Option.map (read_back buf) (
            uboot_env_write s g calls size fuel count ppos
              (env_chip m g hx guard calls user q size blk page free stamp table d))
          ≡ some ((pos count, ppos), (pos 0, paste buf 0 (take size old)))
    write-refused refused fuel buf =
        let there =
          Holds-kept m g hx guard calls user q size blk page stamp old d unsaved peek-unsaved
            holds in
        ap (Option.map (read_back buf)) (entered-data fuel ∙ write_data-refused refused fuel)
        ∙ ap (λ r. some ((pos count, ppos), r.0))
            (env_read-stored m g hx guard calls user q size blk page free stamp table old buf
              unsaved h.paged long there)
