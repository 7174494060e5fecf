-- ===== src/Guard/Tests.antt =====
-- Tests of nfc_map.c.
use amlnf.Prelude.{ℕ, ◌+◌, ◌⊎◌, ◌↔◌, arith, length, ◌≡◌, refl, true, false, some, List, [], ◌∷◌}
use Prim.Native.Nat.{min}
use amlnf.Guard.{refused_count}
use amlnf.Guard.Parts.{part_enabled, all_name}
use amlnf.Guard.Listed.{Listed, part_enabled-iff-Listed}
use amlnf.Guard.Refuse.{refuse_all, refuse_all_counts}
use amlnf.Samples.{sample_guard}

listed_second : part_enabled (b'b' ∷ b',' ∷ b'd' ∷ b'a' ∷ []) (some (b'd' ∷ b'a' ∷ [])) ≡ true
unfolding part_enabled
listed_second = refl

prefix_only : part_enabled (b'b' ∷ b',' ∷ b'd' ∷ b'a' ∷ []) (some (b'd' ∷ [])) ≡ false
unfolding part_enabled
prefix_only = refl

part_enabled-iff-Listed_example :
    (part_enabled (b'b' ∷ b',' ∷ b'd' ∷ []) (some (b'd' ∷ [])) ≡ true)
    ↔ ((b'b' ∷ b',' ∷ b'd' ∷ [] ≡ all_name) ⊎ Listed (b'd' ∷ []) (b'b' ∷ b',' ∷ b'd' ∷ []))
part_enabled-iff-Listed_example = part_enabled-iff-Listed (b'b' ∷ b',' ∷ b'd' ∷ []) (b'd' ∷ [])

abbrev two_refused : List (List ℕ × ℕ)
two_refused = ([], 3) ∷ ([], 4) ∷ []

refuse_all_counts_example :
    (refused_count (refuse_all sample_guard two_refused) ≡ sample_guard.count + length two_refused)
    × (length (refuse_all sample_guard two_refused).log + min sample_guard.count 9
        ≡ length sample_guard.log + min (sample_guard.count + length two_refused) 9)
refuse_all_counts_example = refuse_all_counts sample_guard two_refused (omega arith)
