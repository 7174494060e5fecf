-- ===== src/Guard/Refuse.antt =====
-- amlnf_refuse_write of nfc_map.c: how much it prints.
use amlnf.Prelude.{ℕ, ◌+◌, ◌^◌, ◌<◌, ◌≡◌, List, [], ◌∷◌, arith, length}
use Prim.Native.Nat.{min}
use amlnf.Prelude.Words.{u32}
use amlnf.Guard.{Guard, refuse_write, refused_count}

-- The state after a list of refused operations, each with its name and page.
pub refuse_all : Guard → List (List ℕ × ℕ) → Guard
refuse_all g [] = g
refuse_all g ((what, page) ∷ ops) = refuse_all (refuse_write g what page) ops

refuse_one :
    (g : Guard) (what : List ℕ) (page : ℕ)
    → g.count + 1 < 2 ^ 31
    → ((refuse_write g what page).count ≡ g.count + 1)
      × (length (refuse_write g what page).log + min g.count 9 ≡ length g.log + min (g.count + 1) 9)
unfolding refuse_write
refuse_one g what page h = ground arith

-- The counter goes up by one, in a word, whatever is printed; the parameters stay.
pub refuse_write-count :
    (g : Guard) (what : List ℕ) (page : ℕ)
    → refused_count (refuse_write g what page) ≡ u32 (refused_count g + 1)
unfolding refuse_write refused_count
refuse_write-count g what page = ground arith

-- Below 2 ^ 31 refusals in all, a run of refused operations raises the counter by one for each,
-- and the lines printed over the life of the counter are at most nine.
pub refuse_all_counts :
    (g : Guard) (ops : List (List ℕ × ℕ))
    → g.count + length ops < 2 ^ 31
    → (refused_count (refuse_all g ops) ≡ g.count + length ops)
      × (length (refuse_all g ops).log + min g.count 9
          ≡ length g.log + min (g.count + length ops) 9)
unfolding refuse_all refused_count
refuse_all_counts g [] h = omega arith
refuse_all_counts g ((what, page) ∷ ops) h = omega (
  arith,
  refuse_one g what page (omega arith),
  refuse_all_counts (refuse_write g what page) ops
      (omega (arith, refuse_one g what page (omega arith))),
)
