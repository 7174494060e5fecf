-- ===== src/Phy/Info/Free.antt =====
-- phy/chipenv.c: get_last_reserve_block and amlnand_get_free_block.
use amlnf.Prelude.{
  ℕ, zero, suc, ◌+◌, ◌-◌, Bool, true, false, ◌||◌, Option, none, some, List, [], ◌∷◌, ◌==◌,
  if◌then◌else◌,
}
use amlnf.Prelude.Int.{ℤ, pos, negsuc, neg, is_neg, is_zero}
use amlnf.Prelude.Words.{u32}
use amlnf.Phy.Info.{
  Geometry, Store, blk_target, first_blk, on_chip, reserved_block_cnt, nand_bad_blcok_failure,
}

-- Is the answer NAND_BLOCK_FACTORY_BAD?
unfoldable pub is_factory_bad : ℤ → Bool
is_factory_bad (pos n) = n == 2
is_factory_bad (negsuc n) = false

-- Does the table of the blocks in use have the block?
unfoldable pub is_reserved : List ℕ → ℕ → Bool
is_reserved [] blk = false
is_reserved (b ∷ table) blk = let rest = is_reserved table blk in if b == blk then true else rest

module _ {D : Type 0} (s : Store D) (g : Geometry) where
  -- The loop of `get_last_reserve_block` with `left` blocks to go; none is out of fuel.
  unfoldable pub last_reserve : ℕ → ℕ → ℕ → D → Option (ℕ × D)
  unfolding is_factory_bad blk_target
  last_reserve fuel zero blk d = some (blk, d)
  last_reserve zero (suc left) blk d = none
  last_reserve (suc fuel) (suc left) blk d =
      let (ret, d') = s.block_isbad (blk_target g blk) d in
      last_reserve fuel (if is_factory_bad ret then suc left else left) (u32 (blk + 1)) d'

  unfoldable pub get_last_reserve_block : ℕ → D → Option (ℕ × D)
  unfolding last_reserve
  get_last_reserve_block fuel d = last_reserve fuel reserved_block_cnt (first_blk g) d

  -- One round: the result of the erase if the block is taken, none if the next one is looked at.
  unfoldable pub try_block : List ℕ → ℕ → ℕ → D → Option ℤ × D
  unfolding is_factory_bad is_reserved blk_target on_chip
  try_block table block blk d =
      if is_reserved table blk || (block == blk)
      then (none, d)
      else (let (bad, d1) = s.block_isbad (blk_target g blk) d in
          if is_factory_bad bad
          then (none, d1)
          else (let (ret, d2) = on_chip s (s.erase_block (blk_target g blk)) d1 in
              if is_neg ret
              then (none, (s.block_markbad (blk_target g blk) d2).1)
              else (some ret, d2)))

  -- The loop over the `left` blocks from `blk` on
  unfoldable pub find_block : ℕ → List ℕ → ℕ → ℕ → D → ℤ × D
  unfolding try_block
  find_block zero table block blk d = (neg nand_bad_blcok_failure, d)
  find_block (suc left) table block blk d =
      let (found, d') = try_block table block blk d in
      elim found [
        | none ↦ find_block left table block (u32 (blk + 1)) d'
        | some ret ↦ (if is_zero ret then pos blk else ret, d')
      ]

  -- `block` is the one that is not to be taken.
  unfoldable pub amlnand_get_free_block : ℕ → List ℕ → ℕ → D → Option (ℤ × D)
  unfolding get_last_reserve_block find_block
  amlnand_get_free_block fuel table block d = elim (get_last_reserve_block fuel d) [
    | none ↦ none
    | some (total, d') ↦ some (find_block (total - first_blk g) table block (first_blk g) d')
  ]
