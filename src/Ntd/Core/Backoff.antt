-- ===== src/Ntd/Core/Backoff.antt =====
-- ntd/aml_ntdcore.c: ntd_kmalloc_up_to ends.
use amlnf.Prelude.{
  ℕ, zero, suc, ◌+◌, ◌-◌, ◌*◌, ◌/◌, ◌^◌, ◌≤◌, ◌<◌, ◌≡◌, ◌⊎◌, refl, true, false, some, ◌==◌, ltb,
  if◌then◌else◌, arith, dec_lt, ℕ_discrete,
}
use native.Mathlib.Nat.{div-lt_iff_lt-mul, div-mul-le_self, mod-eq_of_lt}
use amlnf.Prelude.Words.{u32}
use amlnf.Ntd.Core.{align, back_off, ntd_kmalloc_up_to}

-- Half of a size above a page, rounded up to pages, is less than the size.
round_up-lt :
    (half p size : ℕ) → 0 < p → p < size → half + half ≤ size → (half + (p - 1)) / p * p < size
round_up-lt half p size pp h b = elim (dec_lt size (p + p)) [
  | yes l ↦
      let q : (half + (p - 1)) / p < 2 = (div-lt_iff_lt-mul pp).1 (omega arith) in
      times_small ((half + (p - 1)) / p) p size q h
  | no l ↦ omega (arith, div-mul-le_self (half + (p - 1)) p)
]
  where
    times_small : (q p size : ℕ) → q < 2 → p < size → q * p < size
    times_small zero p size h l = omega arith
    times_small (suc zero) p size h l = omega arith
    times_small (suc (suc q)) p size h l = absurd (omega arith)

align-lt : (p size : ℕ) → 0 < p → p < size → size < 2 ^ 31 → align (size / 2) p < size
align-lt p size pp h b =
    let word : u32 (size / 2 + (p - 1)) ≡ size / 2 + (p - 1) = mod-eq_of_lt (omega arith) in
    rw (word) (round_up-lt (size / 2) p size pp h (omega arith))

-- What the loop returns: a buffer of a size it has come down to, NULL only at the last resort.
record IsBuffer (kmalloc : ℕ → ℕ) (min_alloc size : ℕ) (r : ℕ × ℕ) : Type 0 where
  of_size : r.0 ≡ kmalloc r.1
  no_more : r.1 ≤ size
  last_resort : (r.0 ≡ 0) → r.1 ≤ min_alloc

back_off-IsBuffer :
    (fuel : ℕ) (kmalloc : ℕ → ℕ) (min_alloc p size : ℕ)
    → 0 < p
    → p ≤ min_alloc
    → size < fuel
    → size < 2 ^ 31
    → (r : ℕ × ℕ) × (back_off fuel kmalloc min_alloc p size ≡ some r)
      × IsBuffer kmalloc min_alloc size r
unfolding back_off
back_off-IsBuffer zero kmalloc min_alloc p size pp h f b = absurd (omega arith)
back_off-IsBuffer (suc fuel) kmalloc min_alloc p size pp h f b = elim (dec_lt min_alloc size) [
  | no l ↦
      let stop : ltb min_alloc size ≡ false = ground arith in
      (
        (kmalloc size, size),
        rw (stop) refl,
        record { of_size = refl; no_more = omega arith; last_resort = λ e. omega arith },
      )
  | yes l ↦
      let go : ltb min_alloc size ≡ true = ground arith in
      elim (ℕ_discrete (kmalloc size) 0) [
        | no got ↦
            let full : (kmalloc size == 0) ≡ false = ground arith in
            (
              (kmalloc size, size),
              rw (go, full) refl,
              record { of_size = refl; no_more = omega arith; last_resort = λ e. absurd (got e) },
            )
        | yes null ↦
            let less = align-lt p size pp (omega arith) b in
            let rest =
              back_off-IsBuffer fuel kmalloc min_alloc p (align (size / 2) p) pp h
                (omega (arith, less)) (omega (arith, less)) in
            let empty : (kmalloc size == 0) ≡ true = ground arith in
            (
              rest.0,
              rw (go, empty) rest.1,
              record {
                of_size = rest.2.of_size;
                no_more = omega (arith, rest.2.no_more, less);
                last_resort = rest.2.last_resort;
              },
            )
      ]
]

-- For a page size below 2 ^ 31 and at least 1, and KMALLOC_MAX_SIZE below 2 ^ 31, ntd_kmalloc_up_to
-- returns: a buffer of at most the size asked for and KMALLOC_MAX_SIZE, and NULL only for a size of
-- at most the larger of the device's page and PAGE_SIZE.
pub kmalloc_up_to-returns :
    (page_size max_size : ℕ) (kmalloc : ℕ → ℕ) (pagesize size : ℕ)
    → 0 < pagesize
    → max_size < 2 ^ 31
    → (r : ℕ × ℕ) × (ntd_kmalloc_up_to page_size max_size kmalloc pagesize size ≡ some r)
      × (r.0 ≡ kmalloc r.1)
      × (r.1 ≤ size)
      × (r.1 ≤ max_size)
      × ((r.0 ≡ 0) → (r.1 ≤ pagesize) ⊎ (r.1 ≤ page_size))
unfolding ntd_kmalloc_up_to
kmalloc_up_to-returns page_size max_size kmalloc pagesize size pp b =
    let min_alloc = if ltb page_size pagesize then pagesize else page_size in
    let start = if ltb max_size size then max_size else size in
    let small : start ≤ size = ground arith in
    let small' : start ≤ max_size = ground arith in
    let enough : pagesize ≤ min_alloc = ground arith in
    let r =
      back_off-IsBuffer (suc start) kmalloc min_alloc pagesize start pp enough (omega arith)
        (omega arith) in
    (
      r.0,
      r.1,
      r.2.of_size,
      omega (arith, r.2.no_more),
      omega (arith, r.2.no_more),
      (λ e. min_of page_size pagesize r.0.1 (r.2.last_resort e)),
    )
  where
    min_of : (a b c : ℕ) → c ≤ (if ltb a b then b else a) → (c ≤ b) ⊎ (c ≤ a)
    min_of a b c h = ground arith
