-- ===== src/Phy/Info/Found.antt =====
-- phy/chipenv.c: what a save leaves on the places for copies in the record's block.
use amlnf.Prelude.{
  ℕ, zero, suc, ◌+◌, ◌*◌, ◌%◌, ◌<◌, ◌≤◌, ◌≡◌, ◌≢◌, sym, ap, subst, ◌∙◌, true, false, List, dec_le,
  ℕ_discrete, arith,
}
use native.Mathlib.Nat.{mul-le-mul_right}
use amlnf.Prelude.Int.{pos}
use amlnf.Guard.Parts.{strn_eq}
use amlnf.Phy.Info.{
  Geometry, Store, Target, ArgOobinfo, page_target, blk_page, arg_pages, pages_read, rounds_of,
}
use amlnf.Phy.Info.Medium.{Medium}
use amlnf.Phy.Info.Pages.{rounds_of-arg_pages, rounds_of-enough, total_size-le}
use amlnf.Phy.Info.Write.{total_size, is_hynix_1ynm}
use amlnf.Phy.Info.Stored.{stamped}
use amlnf.Phy.Info.Written.{writing-same, writing-other}
use amlnf.Phy.Info.Roundtrip.{HasRoom, stamp_of, first_copy, both_copies, save-Kept, strn_eq-take}
use amlnf.Phy.Info.Copies.{spare, Named}

some_rounds : (r ps : ℕ) → 0 < r * ps → 0 < r
some_rounds zero ps h = absurd (omega arith)
some_rounds (suc r) ps h = omega arith

module _ {D : Type 0} {s : Store D} (m : Medium s) (g : Geometry) (hx : is_hynix_1ynm g ≡ false)
    (name : List ℕ) (size blk : ℕ) where
  module _ (k stamp : ℕ) (buf : List ℕ) (d : D) (h : HasRoom g blk (k * arg_pages g size) size)
      (some_bytes : 0 < size) where
    -- The page of the last copy, and the flash after the save
    abbrev pub last : ℕ
    last = k * arg_pages g size

    abbrev pub saved : D
    saved = both_copies m g hx blk last stamp size buf name d

    abbrev pub count : ℕ
    count = rounds_of (total_size g size) g.pagesize

    pub count-pos : 0 < count
    count-pos = some_rounds count g.pagesize (
        omega (
          arith,
          rounds_of-enough (total_size g size) g.pagesize h.paged.some_bytes,
          total_size-le g size,
        ))

    -- A page that neither copy takes
    pub kept_page :
        (t : Target)
        → ((i : ℕ) → i < count → page_target g blk (last + arg_pages g size + i) ≢ t)
        → ((i : ℕ)
            → i < count
            → page_target g blk (last + arg_pages g size + arg_pages g size + i) ≢ t)
        → m.peek t saved ≡ m.peek t d
    kept_page t a b =
        writing-other m g hx blk (λ p. blk_page g blk p % 256)
          (last + arg_pages g size + arg_pages g size) (total_size g size) buf
          (stamped m g hx name (stamp_of m g hx 2 stamp)) count 0 (pos 0)
          (first_copy m g hx blk last stamp size buf name d) t (λ i c e. b i (omega arith))
        ∙ writing-other m g hx blk (λ p. blk_page g blk p % 256) (last + arg_pages g size)
            (total_size g size) buf (stamped m g hx name (stamp_of m g hx 1 stamp)) count 0 (pos 0)
            d t (λ i c e. a i (omega arith))

    pub few : count ≤ arg_pages g size
    few = rounds_of-arg_pages g size h.paged

    spare-before :
        (i : ℕ) → i ≤ k → spare m g hx name size blk i saved ≡ spare m g hx name size blk i d
    spare-before i a =
        let le = mul-le-mul_right (arg_pages g size) a in
        let room = h.room in
        let n = arg_pages g size in
        ap (λ c. c.1)
          (kept_page (page_target g blk (i * n))
            (λ j b e.
              h.apart (i * n) (last + n + j) (omega (arith, few, le)) (omega (arith, few)) (sym e))
            (λ j b e.
              h.apart (i * n) (last + n + n + j) (omega (arith, few, le)) (omega (arith, few))
                (sym e)))

    pub spare-behind :
        (3 + k) * arg_pages g size < pages_read g
        → spare m g hx name size blk (3 + k) saved ≡ spare m g hx name size blk (3 + k) d
    spare-behind room =
        let n = arg_pages g size in
        let behind : (3 + k) * n ≡ last + n + n + n = omega arith in
        ap (λ c. c.1)
          (kept_page (page_target g blk ((3 + k) * n))
            (λ j b. h.apart (last + n + j) ((3 + k) * n) (omega (arith, few, behind)) room)
            (λ j b. h.apart (last + n + n + j) ((3 + k) * n) (omega (arith, few, behind)) room))

    pub spare-second :
        spare m g hx name size blk (2 + k) saved ≡ stamped m g hx name (stamp_of m g hx 2 stamp)
    spare-second =
        let n = arg_pages g size in
        let place : (2 + k) * n ≡ last + n + n + 0 = omega arith in
        ap (λ q. (m.peek (page_target g blk q) saved).1) place
        ∙ ap (λ c. c.1) (save-Kept m g hx blk last stamp size buf name d h 0 count-pos)

    spare-first :
        spare m g hx name size blk (1 + k) saved ≡ stamped m g hx name (stamp_of m g hx 1 stamp)
    spare-first =
        let n = arg_pages g size in
        let room = h.room in
        let place : (1 + k) * n ≡ last + n + 0 = omega arith in
        ap (λ q. (m.peek (page_target g blk q) saved).1) place
        ∙ ap (λ c. c.1)
            (writing-other m g hx blk (λ p. blk_page g blk p % 256) (last + n + n)
                (total_size g size) buf (stamped m g hx name (stamp_of m g hx 2 stamp)) count 0
                (pos 0) (first_copy m g hx blk last stamp size buf name d)
                (page_target g blk (last + n + 0))
                (λ i c b e.
                  h.apart (last + n + 0) (last + n + n + i) (omega (arith, few, count-pos))
                    (omega (arith, few)) (sym e))
              ∙ writing-same m g hx blk (λ p. blk_page g blk p % 256) (last + n) (total_size g size)
                  buf (stamped m g hx name (stamp_of m g hx 1 stamp)) count 0 (pos 0) d
                  (λ i j a b c.
                    h.apart (last + n + i) (last + n + j) (omega arith) (omega (arith, few)))
                  0 (omega arith) (omega (arith, count-pos)))

    abbrev IsNamed : ArgOobinfo → Type 0
    IsNamed oob = strn_eq 4 oob.name name ≡ true

    pub all-Named :
        ((i : ℕ) → i ≤ k → Named m g hx name size blk i d)
        → (i : ℕ) → i ≤ 2 + k
        → Named m g hx name size blk i saved
    all-Named named i a = elim (dec_le i k) [
      | yes b ↦ subst IsNamed (sym (spare-before i b)) (named i b)
      | no n ↦ elim (ℕ_discrete i (1 + k)) [
        | yes e ↦
            subst (λ j. Named m g hx name size blk j saved) (sym e)
              (subst IsNamed (sym spare-first) (strn_eq-take 4 name))
        | no n' ↦
            let e : i ≡ 2 + k = omega arith in
            subst (λ j. Named m g hx name size blk j saved) (sym e)
              (subst IsNamed (sym spare-second) (strn_eq-take 4 name))
      ]
    ]
