-- ===== src/Phy/Info/Roundtrip.antt =====
-- phy/chipenv.c: a record that amlnand_save_info_by_name has saved is the one that
-- amlnand_read_info_by_name reads.
use amlnf.Prelude.{
  ℕ, zero, suc, ◌+◌, ◌*◌, ◌%◌, ◌<◌, ◌≤◌, ◌≡◌, ◌≢◌, true, false, some, List, [], ◌∷◌, ◌++◌, refl,
  sym, ap, ◌∙◌, arith, take, drop, length, ◌==◌, ==_iff, Bool-cases, inl, inr,
}
use Prim.Native.Nat.{min}
use mathlib.Core.Option
use amlnf.Prelude.Int.{ℤ, pos}
use amlnf.Guard.{Guard}
use amlnf.Guard.Parts.{strn_eq}
use amlnf.Phy.Info.{
  Geometry, Store, Target, ArgInfo, page_target, blk_page, arg_pages, pages_read, rounds_of,
}
use amlnf.Phy.Info.Medium.{Medium}
use amlnf.Phy.Info.Pages.{
  IsPaged, rounds_of_mono, rounds_of-room, rounds_of-enough, total_size-le, rounds_of-arg_pages,
}
use amlnf.Phy.Info.Stored.{stored, one_copy, stamped, save_pass-stored}
use amlnf.Phy.Info.Written.{writing-same}
use amlnf.Phy.Info.Loaded.{loading-result, peek-load_pages}
use amlnf.Phy.Info.Read.{load_pages, amlnand_read_info_by_name}
use amlnf.Phy.Info.Write.{total_size, page_bytes, is_hynix_1ynm}
use amlnf.Phy.Info.Save.{lacks_room, second_pass, amlnand_save_info_by_name}

-- The block of the record has room for two more copies behind the last one. Its pages are different,
-- and the fields of 16 bits hold the numbers of the block and of the pages.
pub record HasRoom (g : Geometry) (blk page size : ℕ) : Type 0 where
  pub paged : IsPaged g
  pub room : page + 3 * arg_pages g size ≤ pages_read g
  pub few_blocks : blk < 65536
  pub few_pages : page + 2 * arg_pages g size < 65536
  pub apart : (p q : ℕ) → p < q → q < pages_read g → page_target g blk p ≢ page_target g blk q

pub strn_eq-take : (n : ℕ) (name : List ℕ) → strn_eq n (take n name) name ≡ true
unfolding strn_eq
strn_eq-take zero name = refl
strn_eq-take (suc n) [] = refl
strn_eq-take (suc n) (a ∷ name) = rw ((==_iff a a).1 refl) (strn_eq-take n name)

module _ {D : Type 0} (s : Store D) (g : Geometry) where
  -- What is read after a save: the result of the save, then the result and the buffer of the read
  abbrev pub reread : List ℕ → List ℕ → ℕ → (ℤ × ArgInfo × List ℕ) × D → ℤ × (ℤ × List ℕ)
  reread buf0 name size r = (r.0.0, (amlnand_read_info_by_name s g r.0.1 buf0 name size r.1).0)

module _ {D : Type 0} {s : Store D} (m : Medium s) (g : Geometry)
    (hx : is_hynix_1ynm g ≡ false) where
  has_room :
      (blk page free stamp size : ℕ)
      → page + 2 * arg_pages g size ≤ pages_read g
      → lacks_room s g (stored blk page free stamp) size ≡ false
  unfolding lacks_room
  has_room blk page free stamp size a = ground arith

  -- The stamp of a later copy, and the flash after the first and after the second one
  abbrev pub stamp_of : ℕ → ℕ → ℕ
  stamp_of zero stamp = stamp
  stamp_of (suc n) stamp = (stamp_of n stamp + 1) % 65536

  abbrev pub first_copy : ℕ → ℕ → ℕ → ℕ → List ℕ → List ℕ → D → D
  first_copy blk page stamp size buf name d =
      (one_copy m g hx blk page size buf (stamped m g hx name (stamp_of 1 stamp)) d).1

  abbrev pub both_copies : ℕ → ℕ → ℕ → ℕ → List ℕ → List ℕ → D → D
  both_copies blk page stamp size buf name d =
      (one_copy m g hx blk (page + arg_pages g size) size buf
        (stamped m g hx name (stamp_of 2 stamp)) (first_copy blk page stamp size buf name d)).1

  pub save-stored :
      (guard : Guard)
      → (guard.allow_meta == 0) ≡ false
      → (fuel blk page free stamp size : ℕ) (table buf name : List ℕ) (d : D)
      → HasRoom g blk page size
      → amlnand_save_info_by_name s g guard fuel (stored blk page free stamp) table buf name size d
        ≡ some (
          (
            pos 0,
            stored blk (page + arg_pages g size + arg_pages g size) free (stamp_of 2 stamp),
            table,
          ),
          both_copies blk page stamp size buf name d,
        )
  unfolding amlnand_save_info_by_name second_pass
  save-stored guard allowed fuel blk page free stamp size table buf name d h =
      let n = arg_pages g size in
      let room = h.room in
      let small = h.few_pages in
      let r1 = has_room blk page free stamp size (omega arith) in
      let r2 = has_room blk (page + n) free (stamp_of 1 stamp) size (omega arith) in
      let p1 =
        save_pass-stored m g hx 2 fuel blk page free stamp size 0 table buf name d r1 h.few_blocks
          (omega arith) in
      let p2 =
        save_pass-stored m g hx 2 fuel blk (page + n) free (stamp_of 1 stamp) size blk table buf
          name (first_copy blk page stamp size buf name d) r2 h.few_blocks (omega arith) in
      rw (amlnand_save_info_by_name, allowed, p1, second_pass, p2) refl

  -- The pages of a copy of the record hold its bytes.
  abbrev pub Kept : ℕ → ℕ → ℕ → List ℕ → List ℕ → ℕ → D → Type 0
  Kept blk page size buf name stamp d =
      (i : ℕ)
      → i < rounds_of (total_size g size) g.pagesize
      → m.peek (page_target g blk (page + i)) d
        ≡ (page_bytes g (total_size g size) (i * g.pagesize) buf, stamped m g hx name stamp)

  pub save-Kept :
      (blk page stamp size : ℕ) (buf name : List ℕ) (d : D)
      → HasRoom g blk page size
      → Kept blk
          (page + arg_pages g size + arg_pages g size)
          size
          buf
          name
          (stamp_of 2 stamp)
          (both_copies blk page stamp size buf name d)
  save-Kept blk page stamp size buf name d h i a =
      let few = rounds_of-arg_pages g size h.paged in
      let room = h.room in
      writing-same m g hx blk (λ p. blk_page g blk p % 256)
        (page + arg_pages g size + arg_pages g size) (total_size g size) buf
        (stamped m g hx name (stamp_of 2 stamp)) (rounds_of (total_size g size) g.pagesize) 0
        (pos 0) (first_copy blk page stamp size buf name d)
        (λ p q b c e.
          h.apart (page + arg_pages g size + arg_pages g size + p)
            (page + arg_pages g size + arg_pages g size + q) (omega arith) (omega arith))
        i (omega arith) (omega arith)

  -- The read of a record whose pages hold it
  pub read-stored :
      (blk page free stamp size : ℕ) (buf buf0 name : List ℕ) (stamp' : ℕ) (d : D)
      → IsPaged g
      → total_size g size ≤ length buf
      → Kept blk page size buf name stamp' d
      → (amlnand_read_info_by_name s g (stored blk page free stamp) buf0 name size d).0
        ≡ (pos 0, take size buf ++ drop size buf0)
  unfolding amlnand_read_info_by_name
  read-stored blk page free stamp size buf buf0 name stamp' d paged long there =
      let p = paged.some_bytes in
      let n = rounds_of size g.pagesize in
      let le = total_size-le g size in
      let first : page + 0 ≡ page = omega arith in
      let none_loaded : 0 * g.pagesize ≡ 0 = omega arith in
      let none_yet : min size (0 * g.pagesize) ≡ 0 = omega arith in
      let all : min size ((0 + n) * g.pagesize) ≡ size =
        omega (arith, rounds_of-enough size g.pagesize p) in
      let fewer = rounds_of_mono size (total_size g size) g.pagesize p le in
      ap (λ (a : ℕ × ℕ). (load_pages s g n name blk a.0 a.1 size (pos 0) buf0 d).0)
        (λ i. (sym first i, sym none_loaded i))
      ∙ loading-result m g name blk page (total_size g size) size buf (stamped m g hx name stamp')
          (strn_eq-take 4 name) le (omega arith) n 0 buf0 d (λ i a b. there i (omega arith))
          (omega (arith, rounds_of-room size g.pagesize p))
          (ap (λ k. take k buf0) none_yet ∙ ap (λ k. take k buf) (sym none_yet))
      ∙ ap (λ k. (pos 0, take k buf ++ drop k buf0)) all

  pub peek-read_info :
      (info : ArgInfo) (buf name : List ℕ) (size : ℕ) (d : D) (t : Target)
      → m.peek t (amlnand_read_info_by_name s g info buf name size d).1 ≡ m.peek t d
  unfolding amlnand_read_info_by_name
  peek-read_info info buf name size d t = elim (Bool-cases (info.arg_valid == 1)) [
    | inl e ↦ rw (e) (
        peek-load_pages m g (rounds_of size g.pagesize) name info.valid_blk_addr
          info.valid_page_addr 0 size (pos 0) buf d t)
    | inr e ↦ rw (e) refl
  ]

  -- On a flash without errors that is not a Hynix of 1y nm, with metadata allowed to be written and
  -- room for two more copies in the record's block: the save of a valid FULL_PAGE record returns 0,
  -- and the read of the record that follows returns 0 and fills the buffer with the bytes saved.
  pub save-read :
      (guard : Guard)
      → (guard.allow_meta == 0) ≡ false
      → (fuel blk page free stamp size : ℕ) (table buf buf0 name : List ℕ) (d : D)
      → HasRoom g blk page size
      → total_size g size ≤ length buf
      → Option.map (reread s g buf0 name size) (
          amlnand_save_info_by_name s g guard fuel
            (stored blk page free stamp)
            table
            buf
            name
            size
            d)
        ≡ some (pos 0, (pos 0, take size buf ++ drop size buf0))
  save-read guard allowed fuel blk page free stamp size table buf buf0 name d h long =
      ap (Option.map (reread s g buf0 name size))
        (save-stored guard allowed fuel blk page free stamp size table buf name d h)
      ∙ ap (λ r. some (pos 0, r))
          (read-stored blk (page + arg_pages g size + arg_pages g size) free (stamp_of 2 stamp) size
            buf buf0 name (stamp_of 2 stamp) (both_copies blk page stamp size buf name d) h.paged
            long (save-Kept blk page stamp size buf name d h))
