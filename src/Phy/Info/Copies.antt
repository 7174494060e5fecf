-- ===== src/Phy/Info/Copies.antt =====
-- phy/chipenv.c: the pages that the scan for the last copy of a record looks at.
use amlnf.Prelude.{
  ℕ, zero, suc, ◌+◌, ◌*◌, ◌%◌, ◌<◌, ◌≤◌, ◌≡◌, refl, sym, ap, subst, ◌∙◌, true, false, List, lt→ltb,
  arith,
}
use native.Mathlib.Nat.{mul-le-mul_right}
use amlnf.Prelude.Int.{ℤ, pos}
use amlnf.Guard.Parts.{strn_eq}
use amlnf.Phy.Info.{Geometry, Store, ArgOobinfo, page_target, arg_pages, pages_read, on_chip}
use amlnf.Phy.Info.Medium.{Medium, get-result, peek-get_page}
use amlnf.Phy.Info.Write.{is_hynix_1ynm}
use amlnf.Phy.Info.Stored.{stored}
use amlnf.Phy.Info.Check.{note_page, last_copy_page}

module _ {D : Type 0} {s : Store D} (m : Medium s) (g : Geometry) (hx : is_hynix_1ynm g ≡ false)
    (name : List ℕ) (size blk : ℕ) where
  -- The spare bytes of the first page of a place for a copy
  abbrev pub spare : ℕ → D → ArgOobinfo
  spare i d = (m.peek (page_target g blk (i * arg_pages g size)) d).1

  abbrev pub Named : ℕ → D → Type 0
  Named i d = strn_eq 4 (spare i d).name name ≡ true

  after : ℕ → D → D
  after i d = (on_chip s (s.read_page (page_target g blk (i * arg_pages g size))) d).1

  spare-after : (i j : ℕ) (d : D) → spare j (after i d) ≡ spare j d
  unfolding after
  spare-after i j d =
      ap (λ c. c.1)
        (peek-get_page m (page_target g blk (i * arg_pages g size)) d
          (page_target g blk (j * arg_pages g size)))

  round-Named :
      (rounds i p free stamp : ℕ) (ret : ℤ) (d : D)
      → i * arg_pages g size < pages_read g
      → Named i d
      → last_copy_page s g
          (suc rounds)
          name
          size
          (i * arg_pages g size)
          (stored blk p free stamp)
          ret
          d
        ≡ last_copy_page s g rounds name size
            (suc i * arg_pages g size)
            (stored blk (i * arg_pages g size % 65536) free (spare i d).timestamp)
            (pos 0)
            (after i d)
  unfolding last_copy_page note_page after
  round-Named rounds i p free stamp ret d inside named =
      let got = get-result m (page_target g blk (i * arg_pages g size)) d in
      let within = lt→ltb (i * arg_pages g size) (pages_read g) inside in
      let next : i * arg_pages g size + arg_pages g size + 0 ≡ suc i * arg_pages g size =
        omega arith in
      rw (last_copy_page, within, got, named, hx, next) refl

  round-other :
      (rounds i p free stamp : ℕ) (ret : ℤ) (d : D)
      → i * arg_pages g size < pages_read g
      → strn_eq 4 (spare i d).name name ≡ false
      → (last_copy_page s g
          (suc rounds)
          name
          size
          (i * arg_pages g size)
          (stored blk p free stamp)
          ret
          d).0
        ≡ (pos 0, stored blk p free stamp)
  unfolding last_copy_page
  round-other rounds i p free stamp ret d inside other =
      let got = get-result m (page_target g blk (i * arg_pages g size)) d in
      let within = lt→ltb (i * arg_pages g size) (pages_read g) inside in
      rw (last_copy_page, within, got, other) refl

  within :
      (i k : ℕ) → i ≤ k → k * arg_pages g size < pages_read g → i * arg_pages g size < pages_read g
  within i k a b = omega (arith, mul-le-mul_right (arg_pages g size) a)

  pub scan-last :
      (k c j rounds p free stamp : ℕ) (ret : ℤ) (d : D)
      → j + c ≡ k
      → c + 2 ≤ rounds
      → ((i : ℕ) → j ≤ i → i ≤ k → Named i d)
      → strn_eq 4 (spare (suc k) d).name name ≡ false
      → suc k * arg_pages g size < pages_read g
      → (last_copy_page s g rounds name size
          (j * arg_pages g size)
          (stored blk p free stamp)
          ret
          d).0
        ≡ (pos 0, stored blk (k * arg_pages g size % 65536) free (spare k d).timestamp)
  scan-last k zero j (suc (suc rounds)) p free stamp ret d e enough named stop room =
      let here : j ≡ k = omega (arith, e) in
      let other = subst (λ x. strn_eq 4 x.name name ≡ false) (sym (spare-after j (suc k) d)) stop in
      let other' =
        subst (λ x. strn_eq 4 (spare (suc x) (after j d)).name name ≡ false) (sym here) other in
      ap (λ r. r.0)
        (round-Named (suc rounds) j p free stamp ret d (within j (suc k) (omega (arith, e)) room)
          (named j (omega arith) (omega (arith, e))))
      ∙ round-other rounds (suc j) (j * arg_pages g size % 65536) free (spare j d).timestamp (pos 0)
          (after j d) (within (suc j) (suc k) (omega (arith, e)) room) other'
      ∙ ap (λ x. (pos 0, stored blk (x * arg_pages g size % 65536) free (spare x d).timestamp)) here
  scan-last k (suc c) j (suc rounds) p free stamp ret d e enough named stop room =
      ap (λ r. r.0)
        (round-Named rounds j p free stamp ret d (within j (suc k) (omega (arith, e)) room)
          (named j (omega arith) (omega (arith, e))))
      ∙ scan-last k c (suc j) rounds (j * arg_pages g size % 65536) free (spare j d).timestamp
          (pos 0) (after j d) (omega (arith, e)) (omega arith)
          (λ i a b.
            subst (λ x. strn_eq 4 x.name name ≡ true) (sym (spare-after j i d))
              (named i (omega arith) b))
          (subst (λ x. strn_eq 4 x.name name ≡ false) (sym (spare-after j (suc k) d)) stop) room
      ∙ ap (λ x. (pos 0, stored blk (k * arg_pages g size % 65536) free x.timestamp))
          (spare-after j k d)
  scan-last k zero j (suc zero) p free stamp ret d e enough named stop room = absurd (omega arith)
  scan-last k c j zero p free stamp ret d e enough named stop room = absurd (omega arith)
