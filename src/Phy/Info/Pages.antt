-- ===== src/Phy/Info/Pages.antt =====
-- phy/chipenv.c: how many pages a record takes.
use amlnf.Prelude.{
  ℕ, suc, ◌+◌, ◌-◌, ◌*◌, ◌/◌, ◌%◌, ◌^◌, ◌<◌, ◌≤◌, ◌≡◌, inl, inr, Bool-cases, ==_iff, arith, ◌==◌,
}
use native.Mathlib.Nat.{div-lt_iff_lt-mul, lt-div-mul-add, div-mul-le_self, mod-add-div', mod-lt}
use amlnf.Prelude.Words.{ffs}
use amlnf.Phy.Info.{Geometry, arg_pages, rounds_of}
use amlnf.Phy.Info.Write.{total_size}

-- The size of a page is a power of two.
pub record IsPaged (g : Geometry) : Type 0 where
  pub some_bytes : 0 < g.pagesize
  pub is_power : 2 ^ (ffs g.pagesize - 1) ≡ g.pagesize

pub rounds_of_mono : (a b ps : ℕ) → 0 < ps → a ≤ b → rounds_of a ps ≤ rounds_of b ps
rounds_of_mono a b ps p h =
    let x = b + (ps - 1) in
    let lt = div-lt_iff_lt-mul {k = ps} {x = a + (ps - 1)} {y = suc (x / ps)} p in
    let below = lt.1 (omega (arith, lt-div-mul-add {a = x} {b = ps} p)) in omega (arith, below)

pub rounds_of-room : (a ps : ℕ) → 0 < ps → rounds_of a ps * ps < a + ps
rounds_of-room a ps p = omega (arith, div-mul-le_self (a + (ps - 1)) ps)

pub rounds_of-enough : (a ps : ℕ) → 0 < ps → a ≤ rounds_of a ps * ps
rounds_of-enough a ps p = omega (arith, lt-div-mul-add {a = a + (ps - 1)} {b = ps} p)

pub total_size-le : (g : Geometry) (size : ℕ) → size ≤ total_size g size
total_size-le g size = omega arith

pub total_size-max : (g : Geometry) (size : ℕ) → total_size g size ≤ size + g.pagesize
total_size-max g size = elim (Bool-cases (size % g.pagesize == 0)) [
  | inl e ↦ rw e (omega arith)
  | inr e ↦ rw e (omega arith)
]

total_size-lt :
    (g : Geometry) (size : ℕ)
    → 0 < g.pagesize
    → total_size g size + (g.pagesize - 1) < suc (size / g.pagesize + 1) * g.pagesize
total_size-lt g size p = elim (Bool-cases (size % g.pagesize == 0)) [
  | inl e ↦
      let exact = (==_iff (size % g.pagesize) 0).0 e in
      rw e (omega (arith, exact, mod-add-div' size g.pagesize))
  | inr e ↦ rw e (omega (arith, mod-lt size {m = g.pagesize} p, mod-add-div' size g.pagesize))
]

-- A copy takes no more than `arg_pages` pages.
pub rounds_of-arg_pages :
    (g : Geometry) (size : ℕ)
    → IsPaged g
    → rounds_of (total_size g size) g.pagesize ≤ arg_pages g size
unfolding arg_pages
rounds_of-arg_pages g size paged =
    let ps = g.pagesize in
    let lt =
      div-lt_iff_lt-mul {k = ps} {x = total_size g size + (ps - 1)} {y = suc (size / ps + 1)}
        paged.some_bytes in
    let below = lt.1 (total_size-lt g size paged.some_bytes) in
    rw (arg_pages, paged.is_power) (omega (arith, below))
