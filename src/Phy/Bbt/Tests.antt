-- ===== src/Phy/Bbt/Tests.antt =====
-- Examples of the theorems on the table of bad blocks.
use amlnf.Prelude.{◌≡◌, true, false, arith}
use amlnf.Phy.Bbt.{mark_by_mode}
use amlnf.Phy.Bbt.Marked.{mark-other}

mark-other_example : mark_by_mode true false (λ c b. 0) 2 1 5 1 12 ≡ 0
mark-other_example =
    mark-other true false (λ c b. 0) 2 1 5 1 12
      ((λ e. absurd (omega arith)), (λ e. absurd (omega arith)))
