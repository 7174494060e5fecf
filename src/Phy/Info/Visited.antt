-- ===== src/Phy/Info/Visited.antt =====
-- phy/chipenv.c: the scan over the reserved blocks of amlnand_check_info_by_name, when one of them holds
-- the record.
use amlnf.Prelude.{
  ℕ, zero, suc, ◌+◌, ◌%◌, ◌<◌, ◌≡◌, ◌≢◌, inl, inr, refl, sym, ap, subst, ◌∙◌, Bool, true, ◌⊎◌,
  false, not, Bool-cases, some, List, lt→ltb, arith,
}
use native.Mathlib.Nat.{mod-eq_of_lt}
use amlnf.Prelude.Int.{ℤ, pos, is_zero}
use amlnf.Guard.Parts.{strn_eq}
use amlnf.Phy.Info.{Geometry, Store, Target, ArgInfo, ArgType, page_target, blk_target, pages_read}
use amlnf.Phy.Info.Medium.{Medium, read_of}
use amlnf.Phy.Info.Stored.{stored}
use amlnf.Phy.Info.Check.{Part, first_page, noted, note_block, check_block, check_blocks, scan_ends}

-- A record of type FULL_PAGE that was not found yet
abbrev pub blank : ℕ → ℕ → ℕ → ℕ → ArgInfo
blank blk page free stamp = record {
  arg_type = ArgType.full_page;
  valid_blk_addr = blk;
  valid_page_addr = page;
  free_blk_addr = free;
  arg_valid = 0;
  timestamp = stamp;
  update_flag = 0;
}

module _ {D : Type 0} {s : Store D} (m : Medium s) (g : Geometry) where
  -- The pages are the same.
  abbrev pub Same : D → D → Type 0
  Same d d' = (t : Target) → m.peek t d' ≡ m.peek t d

  module _ (name : List ℕ) (size fuel : ℕ) (bad : ℕ → Bool)
      (isbad : (b : ℕ) (d : D) → is_zero (s.block_isbad (blk_target g b) d).0 ≡ not (bad b))
      (same : (b : ℕ) (d : D) → Same d (s.block_isbad (blk_target g b) d).1)
      (some_pages : 0 < pages_read g) where
    -- The flash after the first page of a block was looked at
    looked : ℕ → D → D
    looked b d =
        let d1 = (s.block_isbad (blk_target g b) d).1 in
        s.release_chip (s.read_page (page_target g b 0) (s.get_chip d1)).1

    looked-Same : (b : ℕ) (d : D) → Same d (looked b d)
    unfolding looked
    looked-Same b d t =
        let d1 = (s.block_isbad (blk_target g b) d).1 in
        m.peek-release t _ ∙ m.peek-read (page_target g b 0) t _ ∙ m.peek-get t d1 ∙ same b d t

    -- The block is bad, or its first page has another name.
    abbrev pub Passed : ℕ → D → Type 0
    Passed b d = (bad b ≡ true) ⊎ (strn_eq 4 (m.peek (page_target g b 0) d).1.name name ≡ false)

    -- Looking at the first page of a block that is not bad
    first_page-reads :
        (b : ℕ) (ret : ℤ) (d : D)
        → first_page s g
            (suc fuel)
            size
            b
            0
            0
            Part.first_part
            ret
            (s.block_isbad (blk_target g b) d).1
          ≡ some ((pos 0, some (m.peek (page_target g b 0) d).1), looked b d)
    unfolding first_page looked
    first_page-reads b ret d =
        let d1 = (s.block_isbad (blk_target g b) d).1 in
        let got =
          m.read-peek (page_target g b 0) (s.get_chip d1)
          ∙ ap read_of (m.peek-get (page_target g b 0) d1 ∙ same b d (page_target g b 0)) in
        rw (first_page, lt→ltb 0 (pages_read g) some_pages, got) refl

    check_block-bad :
        (b : ℕ) (info : ArgInfo) (d : D)
        → bad b ≡ true
        → check_block s g (suc fuel) name size b info d
          ≡ some
              (((s.block_isbad (blk_target g b) d).0, info), (s.block_isbad (blk_target g b) d).1)
    unfolding check_block
    check_block-bad b info d e = rw (check_block, isbad b d ∙ ap not e) refl

    check_block-Passed :
        (b : ℕ) (info : ArgInfo) (d : D)
        → Passed b d
        → (ret : ℤ) × (d' : D) × ((check_block s g (suc fuel) name size b info d
              ≡ some ((ret, info), d'))
            × Same d d')
    unfolding check_block noted
    check_block-Passed b info d (inl e) = (_, _, (check_block-bad b info d e, same b d))
    check_block-Passed b info d (inr e) = elim (Bool-cases (bad b)) [
      | inl f ↦ (_, _, (check_block-bad b info d f, same b d))
      | inr f ↦
          let f' = isbad b d ∙ ap not f in
          let got = first_page-reads b (s.block_isbad (blk_target g b) d).0 d in
          (pos 0, looked b d, (rw (check_block, f', got, noted, e) refl, looked-Same b d))
    ]

    -- The block that holds the record
    check_block-found :
        (b v p free st : ℕ) (d : D)
        → bad b ≡ false
        → strn_eq 4 (m.peek (page_target g b 0) d).1.name name ≡ true
        → check_block s g (suc fuel) name size b (blank v p free st) d
          ≡ some ((pos 0, stored b p free (m.peek (page_target g b 0) d).1.timestamp), looked b d)
    unfolding check_block noted note_block
    check_block-found b v p free st d f e =
        let f' = isbad b d ∙ ap not f in
        let got = first_page-reads b (s.block_isbad (blk_target g b) d).0 d in
        rw (check_block, f', got, noted, e) refl

    Passed-Same : (b : ℕ) (d d' : D) → Same d d' → Passed b d → Passed b d'
    Passed-Same b d d' same' (inl e) = inl e
    Passed-Same b d d' same' (inr e) =
        inr (subst (λ c. strn_eq 4 c.1.name name ≡ false) (sym (same' (page_target g b 0))) e)

    -- After a block that does not end the scan comes the next one.
    check_blocks-next :
        (left b : ℕ) (info info1 : ArgInfo) (ret ret1 : ℤ) (d d1 : D)
        → check_block s g (suc fuel) name size b info d ≡ some ((ret1, info1), d1)
        → scan_ends s g info.arg_type info1 ≡ false
        → check_blocks s g (suc fuel) (suc left) name size b info ret d
          ≡ check_blocks s g (suc fuel) left name size ((b + 1) % 65536) info1 ret1 d1
    unfolding check_blocks
    check_blocks-next left b info info1 ret ret1 d d1 e more =
        elim (Bool-cases (is_zero (s.block_isbad (blk_target g b) d).0)) [
          | inl f ↦ rw (check_blocks, e, f, more) refl
          | inr f ↦ rw (check_blocks, e, f) refl
        ]

    abbrev Passing : ℕ → ℕ → ℕ → ArgInfo → ℤ → D → Type 0
    Passing k left b info ret d =
        (ret' : ℤ) × (d' : D) × ((check_blocks s g (suc fuel) (k + left) name size b info ret d
            ≡ check_blocks s g (suc fuel) left name size (b + k) info ret' d')
          × Same d d')

    -- Blocks that are passed over leave the record's place.
    check_blocks-Passed :
        (k left b v p free a st : ℕ) (ret : ℤ) (d : D)
        → b + k < 65536
        → ((i : ℕ) → i < k → Passed (b + i) d)
        → Passing k left b (record (blank v p free st) { arg_valid = a }) ret d
    check_blocks-Passed zero left b v p free a st ret d small passed =
        let here : b ≡ b + 0 = omega arith in
        let all : 0 + left ≡ left = omega arith in
        let info = record (blank v p free st) { arg_valid = a } in
        (
          ret,
          d,
          (
            ap (λ n. check_blocks s g (suc fuel) n name size b info ret d) all
                ∙ ap (λ x. check_blocks s g (suc fuel) left name size x info ret d) here,
            λ t. refl,
          ),
        )
    check_blocks-Passed (suc k) left b v p free a st ret d small passed =
        let here : b + 0 ≡ b = omega arith in
        let info = record (blank v p free st) { arg_valid = a } in
        let next : (b + 1) % 65536 ≡ b + 1 = mod-eq_of_lt (omega arith) in
        let (ret1, d1, (e1, s1)) =
          check_block-Passed b info d (subst (λ x. Passed x d) here (passed 0 (omega arith))) in
        let (ret2, d2, (e2, s2)) =
          check_blocks-Passed k left (b + 1) v p free a st ret1 d1 (omega arith) (λ i lt.
            Passed-Same (b + 1 + i) d d1 s1
              (subst (λ x. Passed x d) (omega arith) (passed (suc i) (omega arith)))) in
        let on : b + 1 + k ≡ b + suc k = omega arith in
        let one : suc k + left ≡ suc (k + left) = omega arith in
        (
          ret2,
          d2,
          (
            ap (λ n. check_blocks s g (suc fuel) n name size b info ret d) one
                ∙ check_blocks-next (k + left) b info info ret ret1 d d1 e1 refl
                ∙ ap (λ x. check_blocks s g (suc fuel) (k + left) name size x info ret1 d1) next
                ∙ e2
                ∙ ap (λ x. check_blocks s g (suc fuel) left name size x info ret2 d2) on,
            λ t. s2 t ∙ s1 t,
          ),
        )

    -- The scan over blocks of which one holds the record
    pub check_blocks-found :
        (before after b v p free st : ℕ) (ret : ℤ) (d : D)
        → b + before + suc after < 65536
        → ((i : ℕ) → i < before + suc after → i ≢ before → Passed (b + i) d)
        → bad (b + before) ≡ false
        → strn_eq 4 (m.peek (page_target g (b + before) 0) d).1.name name ≡ true
        → (ret' : ℤ) × (d' : D) × ((check_blocks s g
                (suc fuel)
                (before + suc after)
                name
                size
                b
                (blank v p free st)
                ret
                d
              ≡ some (
                (
                  ret',
                  stored (b + before) p free (m.peek (page_target g (b + before) 0) d).1.timestamp,
                ),
                d',
              ))
            × Same d d')
    unfolding check_blocks
    check_blocks-found before after b v p free st ret d small passed good named =
        let blk = b + before in
        let (ret1, d1, (e1, s1)) =
          check_blocks-Passed before (suc after) b v p free 0 st ret d (omega arith)
            (λ i a. passed i (omega arith) (λ e. omega (arith, e))) in
        let kept = s1 (page_target g blk 0) in
        let found =
          check_block-found blk v p free st d1 good
            (subst (λ c. strn_eq 4 c.1.name name ≡ true) (sym kept) named) in
        let s2 : Same d (looked blk d1) = λ t. looked-Same blk d1 t ∙ s1 t in
        let next : (blk + 1) % 65536 ≡ blk + 1 = mod-eq_of_lt (omega arith) in
        let stamp = (m.peek (page_target g blk 0) d1).1.timestamp in
        let (ret3, d3, (e3, s3)) =
          check_blocks-Passed after 0 (blk + 1) blk p free 1 stamp (pos 0) (looked blk d1)
            (omega arith)
            (λ i a. Passed-Same (blk + 1 + i) d (looked blk d1) s2 (
              subst (λ x. Passed x d) (omega arith)
                (passed (before + suc i) (omega arith) (λ e. omega (arith, e))))) in
        let rest : after + 0 ≡ after = omega arith in
        (
          ret3,
          d3,
          (
            e1
                ∙ check_blocks-next after blk (blank v p free st) (stored blk p free stamp) ret1
                    (pos 0) d1 (looked blk d1) found refl
                ∙ ap
                    (λ x.
                      check_blocks s g (suc fuel) after name size x (stored blk p free stamp)
                        (pos 0) (looked blk d1))
                    next
                ∙ ap
                    (λ n.
                      check_blocks s g (suc fuel) n name size (blk + 1) (stored blk p free stamp)
                        (pos 0) (looked blk d1))
                    (sym rest)
                ∙ e3
                ∙ ap (λ c. some ((ret3, stored blk p free c.1.timestamp), d3)) kept,
            λ t. s3 t ∙ s2 t,
          ),
        )
