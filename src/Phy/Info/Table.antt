-- ===== src/Phy/Info/Table.antt =====
-- phy/chipenv.c: the table of the blocks in use, when a record takes a block and gives it back.
use amlnf.Prelude.{
  ℕ, ◌%◌, ◌<◌, ◌≡◌, inl, inr, refl, sym, ap, true, false, List, [], ◌∷◌, ◌==◌, ==_iff, Bool-cases,
  arith,
}
use mathlib.Core.Bool.{true≢false}
use native.Mathlib.Nat.{mod-eq_of_lt}
use amlnf.Phy.Info.Free.{is_reserved}
use amlnf.Phy.Info.Save.{add_reserved, free_reserved}

reserved-add :
    (table : List ℕ) (blk : ℕ)
    → blk < 255
    → is_reserved table 255 ≡ true
    → is_reserved (add_reserved table blk) blk ≡ true
unfolding is_reserved add_reserved
reserved-add [] blk a free = free
reserved-add (b ∷ table) blk a free = elim (Bool-cases (b == 255)) [
  | inl e ↦
      let same : (blk % 256 == blk) ≡ true =
        (==_iff (blk % 256) blk).1 (mod-eq_of_lt (omega arith)) in
      rw (e, same) refl
  | inr e ↦
      let rest = reserved-add table blk a (rw (e) at free) in
      elim (Bool-cases (b == blk)) [ inl f ↦ rw (e, f) refl | inr f ↦ rw (e, f) rest ]
]

free-add :
    (table : List ℕ) (blk : ℕ)
    → blk < 255
    → is_reserved table blk ≡ false
    → free_reserved (add_reserved table blk) blk ≡ table
unfolding is_reserved add_reserved free_reserved
free-add [] blk a unused = refl
free-add (b ∷ table) blk a unused = elim (Bool-cases (b == 255)) [
  | inl e ↦
      let same : (blk % 256 == blk) ≡ true =
        (==_iff (blk % 256) blk).1 (mod-eq_of_lt (omega arith)) in
      rw (e, same) (ap (λ c. c ∷ table) (sym ((==_iff b 255).0 e)))
  | inr e ↦ elim (Bool-cases (b == blk)) [
    | inl f ↦ let used : true ≡ false = rw (f) at unused in absurd (true≢false used)
    | inr f ↦ rw (e, f) (ap (λ c. b ∷ c) (free-add table blk a (rw (f) at unused)))
  ]
]

-- With a free place in the table, and a block below 255 that is not in it: once the block is added,
-- the table has it, and once it is freed again, the table is the one of before.
add-reserved-free :
    (table : List ℕ) (blk : ℕ)
    → blk < 255
    → is_reserved table 255 ≡ true
    → is_reserved table blk ≡ false
    → (is_reserved (add_reserved table blk) blk ≡ true)
      × (free_reserved (add_reserved table blk) blk ≡ table)
add-reserved-free table blk a free unused =
    (reserved-add table blk a free, free-add table blk a unused)
