-- ===== src/Guard/Parts.antt =====
-- amlnf_part_enabled of nfc_map.c. A C string is the list of its bytes before the NUL.
use amlnf.Prelude.{
  ℕ, zero, suc, ◌+◌, Bool, true, false, ◌&&◌, Option, none, some, List, [], ◌∷◌, ◌==◌, length, drop,
  if◌then◌else◌,
}

abbrev pub comma : ℕ
comma = b','

abbrev pub all_name : List ℕ
all_name = b'a' ∷ b'l' ∷ b'l' ∷ []

-- The offset of `strchr(p, c)`.
unfoldable pub strchr : List ℕ → ℕ → Option ℕ
strchr [] c = none
strchr (x ∷ xs) c =
    if x == c then some 0 else elim (strchr xs c) [ none ↦ none | some k ↦ some (suc k) ]

-- `!strcmp(a, b)`
unfoldable pub str_eq : List ℕ → List ℕ → Bool
str_eq [] [] = true
str_eq [] (b ∷ bs) = false
str_eq (a ∷ as_) [] = false
str_eq (a ∷ as_) (b ∷ bs) = (a == b) && str_eq as_ bs

-- `!strncmp(a, b, n)`
unfoldable pub strn_eq : ℕ → List ℕ → List ℕ → Bool
strn_eq zero a b = true
strn_eq (suc n) [] [] = true
strn_eq (suc n) [] (b ∷ bs) = false
strn_eq (suc n) (a ∷ as_) [] = false
strn_eq (suc n) (a ∷ as_) (b ∷ bs) = (a == b) && strn_eq n as_ bs

-- The length of the field that starts at `p`.
unfoldable pub field_length : List ℕ → Option ℕ → ℕ
field_length p none = length p
field_length p (some k) = k

-- The `while (*p)` loop. Each round takes at least one byte, so `length p` rounds are enough.
unfoldable pub scan : ℕ → List ℕ → List ℕ → Bool
unfolding field_length strn_eq strchr
scan zero p name = false
scan (suc fuel) [] name = false
scan (suc fuel) (x ∷ xs) name =
    let at = strchr (x ∷ xs) comma in
    let n = field_length (x ∷ xs) at in
    elim ((n == length name) && strn_eq n (x ∷ xs) name) [
      | true ↦ true
      | false ↦ elim at [ none ↦ false | some k ↦ scan fuel (drop (k + 1) (x ∷ xs)) name ]
    ]

-- `name` is `none` for a NULL pointer.
unfoldable pub part_enabled : List ℕ → Option (List ℕ) → Bool
unfolding scan str_eq
part_enabled parts none = false
part_enabled parts (some name) =
    if str_eq parts all_name then true else scan (length parts) parts name
