-- ===== src/Guard.antt =====
-- nfc_map.c: the module parameters that guard writes, and the counter of refused writes.
pub mod Parts
pub mod Listed
pub mod Refuse
mod Tests
use amlnf.Prelude.{ℕ, ◌+◌, ◌^◌, Bool, List, ◌∷◌, ◌||◌, ◌==◌, leb, if◌then◌else◌}
use amlnf.Prelude.Words.{u32}

-- A line that `pr_warn` prints.
pub data Message : Type 0 where
  refused : List ℕ → ℕ → ℕ → Message
  silent_from_now : Message

-- The parameters and the counter `amlnf_refused`; `log` is what has been printed, latest first.
pub record Guard : Type 0 where
  pub readonly : ℕ
  pub allow_markbad : ℕ
  pub allow_meta : ℕ
  pub count : ℕ
  pub log : List Message

-- `n <= 8` for the `int` whose bit pattern is `n`: patterns from 2 ^ 31 on are negative.
is_loud : ℕ → Bool
is_loud n = leb n 8 || leb (2 ^ 31) n

unfoldable pub refuse_write : Guard → List ℕ → ℕ → Guard
unfolding is_loud
refuse_write g what page =
    let n = u32 (g.count + 1) in
    if is_loud n
    then record g { count = n; log = refused what page n ∷ g.log }
    else if n == 9
    then record g { count = n; log = silent_from_now ∷ g.log }
    else record g { count = n }

unfoldable pub refused_count : Guard → ℕ
refused_count g = g.count
