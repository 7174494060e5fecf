-- ===== src/Phy/Info/Fresh.antt =====
-- phy/chipenv.c: what the search for a free block comes to.
use amlnf.Prelude.{
  ℕ, zero, suc, ◌+◌, ◌-◌, ◌≤◌, ◌≡◌, ◌⊎◌, inl, inr, refl, sym, ap, subst, Bool, true, false, ◌||◌,
  none, some, List, ◌==◌, if◌then◌else◌, Bool-cases, arith,
}
use amlnf.Prelude.Int.{ℤ, pos, is_neg}
use amlnf.Prelude.Words.{u32}
use amlnf.Phy.Info.{Geometry, Store, blk_target, first_blk, on_chip, reserved_block_cnt}
use amlnf.Phy.Info.Free.{
  is_factory_bad, is_reserved, last_reserve, get_last_reserve_block, try_block, find_block,
  amlnand_get_free_block,
}

module _ {D : Type 0} (s : Store D) (g : Geometry) where
  -- The block is neither in the table nor the one that is not to be taken; it was not bad from the
  -- factory, and then it was erased.
  pub record IsFresh (table : List ℕ) (block blk : ℕ) (end : D) : Type 0 where
    pub unused : (is_reserved table blk || (block == blk)) ≡ false
    pub before : D
    pub not_bad : is_factory_bad (s.block_isbad (blk_target g blk) before).0 ≡ false
    pub erased :
        on_chip s (s.erase_block (blk_target g blk)) (s.block_isbad (blk_target g blk) before).1
        ≡ (pos 0, end)

  -- The search fails, or it finds a block that is fresh.
  abbrev pub IsAnswer : List ℕ → ℕ → ℤ × D → Type 0
  IsAnswer table block r =
      (is_neg r.0 ≡ true) ⊎ ((blk : ℕ) × ((r.0 ≡ pos blk) × IsFresh table block blk r.1))

  -- An erase fails or answers 0.
  abbrev pub Erases : Type 0
  Erases =
      (blk : ℕ) (d : D)
      → (is_neg (on_chip s (s.erase_block (blk_target g blk)) d).0 ≡ true)
        ⊎ ((on_chip s (s.erase_block (blk_target g blk)) d).0 ≡ pos 0)

  -- The good blocks among the `fuel` from `blk` on
  abbrev pub good_blocks : (ℕ → Bool) → ℕ → ℕ → ℕ
  good_blocks bad zero blk = 0
  good_blocks bad (suc fuel) blk = (if bad blk then 0 else 1) + good_blocks bad fuel (u32 (blk + 1))

  -- Which blocks are bad from the factory does not change.
  abbrev pub IsMap : (ℕ → Bool) → Type 0
  IsMap bad = (blk : ℕ) (d : D) → is_factory_bad (s.block_isbad (blk_target g blk) d).0 ≡ bad blk

  last_reserve-returns :
      (bad : ℕ → Bool)
      → IsMap bad
      → (fuel left blk : ℕ) (d : D) → left ≤ good_blocks bad fuel blk
      → (r : ℕ × D) × (last_reserve s g fuel left blk d ≡ some r)
  unfolding last_reserve
  last_reserve-returns bad same fuel zero blk d enough = ((blk, d), refl)
  last_reserve-returns bad same zero (suc left) blk d enough = absurd (omega arith)
  last_reserve-returns bad same (suc fuel) (suc left) blk d enough = elim (Bool-cases (bad blk)) [
    | inl e ↦
        let more : suc left ≤ 0 + good_blocks bad fuel (u32 (blk + 1)) = rw (e) at enough in
        rw (last_reserve, same blk d, e)
          (last_reserve-returns bad same fuel (suc left) (u32 (blk + 1)) _ (omega arith))
    | inr e ↦
        let more : suc left ≤ 1 + good_blocks bad fuel (u32 (blk + 1)) = rw (e) at enough in
        rw (last_reserve, same blk d, e)
          (last_reserve-returns bad same fuel left (u32 (blk + 1)) _ (omega arith))
  ]

  module _ (erases : Erases) where
    try_block-cases :
        (table : List ℕ) (block blk : ℕ) (d : D)
        → ((try_block s g table block blk d).0 ≡ none)
          ⊎ ((end : D) × ((try_block s g table block blk d ≡ (some (pos 0), end))
                × IsFresh table block blk end))
    unfolding try_block
    try_block-cases table block blk d =
        elim (Bool-cases (is_reserved table blk || (block == blk))) [
          | inl e ↦ inl (rw (try_block, e) refl)
          | inr e ↦ elim (Bool-cases (is_factory_bad (s.block_isbad (blk_target g blk) d).0)) [
            | inl b ↦ inl (rw (try_block, e, b) refl)
            | inr b ↦ elim (erases blk (s.block_isbad (blk_target g blk) d).1) [
              | inl n ↦ inl (rw (try_block, e, b, n) refl)
              | inr z ↦
                  let end =
                    (on_chip s (s.erase_block (blk_target g blk))
                      (s.block_isbad (blk_target g blk) d).1).1 in
                  let fresh : IsFresh table block blk end = record {
                    unused = e;
                    before = d;
                    not_bad = b;
                    erased = λ i. (z i, end);
                  } in
                  inr (end, (rw (try_block, e, b, z) refl, fresh))
            ]
          ]
        ]

    find_block-IsAnswer :
        (left : ℕ) (table : List ℕ) (block blk : ℕ) (d : D)
        → IsAnswer table block (find_block s g left table block blk d)
    unfolding find_block
    find_block-IsAnswer zero table block blk d = inl refl
    find_block-IsAnswer (suc left) table block blk d = elim (try_block-cases table block blk d) [
      | inl e ↦ rw (find_block, e) (find_block-IsAnswer left table block (u32 (blk + 1)) _)
      | inr (end, (e, fresh)) ↦
          let fresh' = subst (λ v. IsFresh table block blk v) (sym (ap (λ r. r.1) e)) fresh in
          rw (find_block, e) (inr (blk, (refl, fresh')))
    ]

    -- Where an erase fails or answers 0, and 48 of the blocks within the fuel are not bad from the
    -- factory, the search for a free block ends. It fails, or it finds a block that is neither in the
    -- table nor the one excluded, that is not bad from the factory, and whose erase just succeeded.
    pub free_block-IsAnswer :
        (bad : ℕ → Bool)
        → IsMap bad
        → (fuel : ℕ) (table : List ℕ) (block : ℕ) (d : D)
        → reserved_block_cnt ≤ good_blocks bad fuel (first_blk g)
        → (r : ℤ × D) × ((amlnand_get_free_block s g fuel table block d ≡ some r)
            × IsAnswer table block r)
    unfolding amlnand_get_free_block get_last_reserve_block
    free_block-IsAnswer bad same fuel table block d enough =
        let (r, e) = last_reserve-returns bad same fuel reserved_block_cnt (first_blk g) d enough in
        let left = r.0 - first_blk g in
        (
          find_block s g left table block (first_blk g) r.1,
          (
            rw (amlnand_get_free_block, e) refl,
            find_block-IsAnswer left table block (first_blk g) r.1,
          ),
        )
