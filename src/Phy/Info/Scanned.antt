-- ===== src/Phy/Info/Scanned.antt =====
-- phy/chipenv.c: the scan of amlnand_check_info_by_name ends.
use amlnf.Prelude.{
  ℕ, zero, suc, ◌+◌, ◌-◌, ◌%◌, ◌≤◌, ◌≡◌, inl, inr, refl, true, false, Bool-cases, Option, some,
  List, ◌==◌, ltb, ltb→lt, arith, not, ◌||◌,
}
use amlnf.Prelude.Int.{ℤ, pos, is_zero}
use amlnf.Phy.Info.{
  Geometry, Store, ArgInfo, arg_pages, pages_read, blk_target, first_blk, reserved_block_cnt,
}
use amlnf.Phy.Info.Read.{read_failed}
use amlnf.Phy.Info.Check.{
  Part, next_try, read_blk_page, first_page, check_block, check_blocks, scan_ends,
  amlnand_check_info_by_name,
}

not_less : (a b : ℕ) → ltb a b ≡ false → b ≤ a
not_less a b h = ground arith

ltb_past : (a b : ℕ) → b ≤ a → ltb a b ≡ false
ltb_past a b h = ground arith

module _ {D : Type 0} (s : Store D) (g : Geometry) where
  -- How many more pages are looked at, at most
  abbrev pub rounds_left : ℕ → ℕ → Part → ℕ
  rounds_left i failed Part.first_part = (9 - failed) + pages_read g + 2
  rounds_left i failed Part.middle_part = pages_read g + 1
  rounds_left i failed Part.last_part = pages_read g - i

  abbrev pub Returns : {A : Type 0} → Option A → Type 0
  Returns {A = A} o = (a : A) × (o ≡ some a)

  next_try-less :
      (fuel size i failed : ℕ) (part : Part)
      → ltb i (pages_read g) ≡ true
      → rounds_left i failed part ≤ suc fuel
      → rounds_left
          (next_try s g size i (failed + 1) part).0
          (failed + 1)
          (next_try s g size i (failed + 1) part).1
        ≤ fuel
  unfolding next_try arg_pages
  next_try-less fuel size i failed Part.first_part lt enough =
      elim (Bool-cases (ltb 8 (failed + 1))) [
        | inl e ↦ rw (next_try, e) (omega arith)
        | inr e ↦ rw (next_try, e) (omega (arith, not_less 8 (failed + 1) e))
      ]
  next_try-less fuel size i failed Part.middle_part lt enough = omega arith
  next_try-less fuel size i failed Part.last_part lt enough =
      omega (arith, ltb→lt i (pages_read g) lt)

  first_page-Returns :
      (fuel size blk i failed : ℕ) (part : Part) (ret : ℤ) (d : D)
      → rounds_left i failed part ≤ fuel
      → Returns (first_page s g fuel size blk i failed part ret d)
  unfolding first_page
  first_page-Returns zero size blk i failed Part.first_part ret d enough = absurd (omega arith)
  first_page-Returns zero size blk i failed Part.middle_part ret d enough = absurd (omega arith)
  first_page-Returns zero size blk i failed Part.last_part ret d enough =
      rw (ltb_past i (pages_read g) (omega arith)) (_, refl)
  first_page-Returns (suc fuel) size blk i failed part ret d enough =
      elim (Bool-cases (ltb i (pages_read g))) [
        | inl e ↦ elim (Bool-cases (read_failed (read_blk_page s g blk i d).0)) [
          | inl f ↦
              rw (first_page, e, f)
                (first_page-Returns fuel size blk _ (failed + 1) _ _ _
                  (next_try-less fuel size i failed part e enough))
          | inr f ↦ rw (first_page, e, f) (_, refl)
        ]
        | inr e ↦ rw (first_page, e) (_, refl)
      ]

  check_block-Returns :
      (fuel : ℕ) (name : List ℕ) (size blk : ℕ) (info : ArgInfo) (d : D)
      → pages_read g + 11 ≤ fuel
      → Returns (check_block s g fuel name size blk info d)
  unfolding check_block
  check_block-Returns fuel name size blk info d enough =
      elim (Bool-cases (is_zero (s.block_isbad (blk_target g blk) d).0)) [
        | inl e ↦
            let (r, f) =
              first_page-Returns fuel size blk 0 0 Part.first_part
                (s.block_isbad (blk_target g blk) d).0 (s.block_isbad (blk_target g blk) d).1
                (omega arith) in
            rw (check_block, e, f) (_, refl)
        | inr e ↦ rw (check_block, e) (_, refl)
      ]

  check_blocks-Returns :
      (fuel left : ℕ) (name : List ℕ) (size blk : ℕ) (info : ArgInfo) (ret : ℤ) (d : D)
      → pages_read g + 11 ≤ fuel
      → Returns (check_blocks s g fuel left name size blk info ret d)
  unfolding check_blocks
  check_blocks-Returns fuel zero name size blk info ret d enough = (_, refl)
  check_blocks-Returns fuel (suc left) name size blk info ret d enough =
      let (r, e) = check_block-Returns fuel name size blk info d enough in
      elim (Bool-cases (
        not (is_zero (s.block_isbad (blk_target g blk) d).0)
        || not (scan_ends s g info.arg_type r.0.1))) [
          | inl f ↦
              rw (check_blocks, e, f)
                (check_blocks-Returns fuel left name size ((blk + 1) % 65536) r.0.1 r.0.0 r.1
                  enough)
          | inr f ↦ rw (check_blocks, e, f) (_, refl)
        ]

  -- With fuel for all pages of a block and eleven more, the scan for a record returns, whatever the
  -- flash answers: a block is left after at most nine pages that cannot be read, one in its middle,
  -- and those from its last part on.
  pub check_info-Returns :
      (fuel : ℕ) (info : ArgInfo) (table name : List ℕ) (size : ℕ) (d : D)
      → pages_read g + 11 ≤ fuel
      → Returns (amlnand_check_info_by_name s g fuel info table name size d)
  unfolding amlnand_check_info_by_name
  check_info-Returns fuel info table name size d enough =
      let (r, e) =
        check_blocks-Returns fuel reserved_block_cnt name size (first_blk g % 65536) info (pos 0) d
          enough in
      elim (Bool-cases (r.0.1.arg_valid == 1)) [
        | inl f ↦ rw (amlnand_check_info_by_name, e, f) (_, refl)
        | inr f ↦ rw (amlnand_check_info_by_name, e, f) (_, refl)
      ]
