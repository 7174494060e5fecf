-- ===== src/Phy/Info/Written.antt =====
-- phy/chipenv.c: what the pages of a record hold after amlnand_save_info_by_name has written them.
use amlnf.Prelude.{
  ℕ, zero, suc, ◌+◌, ◌*◌, ◌<◌, ◌≤◌, ◌≡◌, ◌≢◌, sym, ℕ_discrete, Bool, false, List, refl, ap, ◌∙◌,
  arith,
}
use amlnf.Prelude.Int.{ℤ, pos}
use amlnf.Phy.Info.{Geometry, Store, Target, ArgOobinfo, page_target, on_chip}
use amlnf.Phy.Info.Medium.{Medium, put-result, peek-put, peek-put_other}
use amlnf.Phy.Info.Write.{write_pages, page_bytes, is_hynix_1ynm}

module _ {D : Type 0} {s : Store D} (m : Medium s) (g : Geometry)
    (hx : is_hynix_1ynm g ≡ false) where
  module _ (blk : ℕ) (num : ℕ → ℕ) (first total : ℕ) (buf : List ℕ) (oob : ArgOobinfo) where
    -- The writing of the pages of a record from its page `k` on
    abbrev pub writing : ℕ → ℕ → ℤ → D → (Bool × ℤ) × D
    writing rounds k ret d =
        write_pages s g rounds blk num (first + k) (k * g.pagesize) total buf oob ret d

    -- The place of a page of the record, and what it is to hold
    abbrev pub place : ℕ → Target
    place i = page_target g blk (first + i)

    abbrev pub content : ℕ → List ℕ
    content i = page_bytes g total (i * g.pagesize) buf

    write_round : ℕ → D → D
    write_round k d = (on_chip s (s.write_page (place k) (content k) oob) d).1

    writing-suc :
        (rounds k : ℕ) (ret : ℤ) (d : D)
        → writing (suc rounds) k ret d ≡ writing rounds (suc k) (pos 0) (write_round k d)
    unfolding write_pages write_round
    writing-suc rounds k ret d =
        let ok = put-result m (place k) (content k) oob d in
        let next : first + k + 1 ≡ first + suc k = omega arith in
        let more : k * g.pagesize + g.pagesize ≡ suc k * g.pagesize = omega arith in
        rw (write_pages, ok, hx, ok, next, more) refl

    pub writing-result : (rounds k : ℕ) (d : D) → (writing rounds k (pos 0) d).0 ≡ (false, pos 0)
    unfolding write_pages
    writing-result zero k d = refl
    writing-result (suc rounds) k d =
        ap (λ r. r.0) (writing-suc rounds k (pos 0) d)
        ∙ writing-result rounds (suc k) (write_round k d)

    -- A page that is not one of the record's is left.
    pub writing-other :
        (rounds k : ℕ) (ret : ℤ) (d : D) (t : Target)
        → ((i : ℕ) → k ≤ i → i < k + rounds → place i ≢ t)
        → m.peek t (writing rounds k ret d).1 ≡ m.peek t d
    unfolding write_pages write_round
    writing-other zero k ret d t out = refl
    writing-other (suc rounds) k ret d t out =
        ap (λ r. m.peek t r.1) (writing-suc rounds k ret d)
        ∙ writing-other rounds (suc k) (pos 0) (write_round k d) t
            (λ i a b. out i (omega arith) (omega arith))
        ∙ peek-put_other m (place k) (content k) oob d t (out k (omega arith) (omega arith))

    -- The pages of the record hold it, where they are different pages.
    pub writing-same :
        (rounds k : ℕ) (ret : ℤ) (d : D)
        → ((i j : ℕ) → k ≤ i → i < j → j < k + rounds → place i ≢ place j)
        → (i : ℕ) → k ≤ i
        → i < k + rounds
        → m.peek (place i) (writing rounds k ret d).1 ≡ (content i, oob)
    unfolding write_round
    writing-same zero k ret d apart i a b = absurd (omega arith)
    writing-same (suc rounds) k ret d apart i a b =
        ap (λ r. m.peek (place i) r.1) (writing-suc rounds k ret d) ∙ elim (ℕ_discrete k i) [
          | yes e ↦
              writing-other rounds (suc k) (pos 0) (write_round k d) (place i)
                (λ j c f. λ g'. apart i j (omega arith) (omega arith) (omega arith) (sym g'))
              ∙ ap (λ n. m.peek (place n) (write_round k d)) (sym e)
              ∙ peek-put m (place k) (content k) oob d
              ∙ ap (λ n. (content n, oob)) e
          | no n ↦
              writing-same rounds (suc k) (pos 0) (write_round k d)
                (λ p q c f h. apart p q (omega arith) f (omega arith)) i (omega arith) (omega arith)
        ]
