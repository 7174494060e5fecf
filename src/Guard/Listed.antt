-- ===== src/Guard/Listed.antt =====
-- amlnf_part_enabled against a description of what it is to be listed.
use amlnf.Prelude.{
  ℕ, zero, suc, ◌+◌, ◌≤◌, ◌≡◌, ◌≢◌, ◌⊎◌, ◌↔◌, inl, inr, refl, sym, ap, subst, ◌∙◌, Bool, true,
  false, ◌&&◌, none, some, List, [], ◌∷◌, ◌++◌, arith, ◌==◌, ==_iff, length, length-append, drop,
  Bool-cases, if◌then◌else◌,
}
use mathlib.Core.List.{append-nil}
use amlnf.Guard.Parts.{comma, all_name, strchr, str_eq, strn_eq, scan, part_enabled}

abbrev pub NoComma : List ℕ → Type 0
NoComma [] = Unit {0}
NoComma (x ∷ xs) = (x ≢ comma) × NoComma xs

-- A field goes up to a comma or to the end of the string.
abbrev pub Ends : List ℕ → Type 0
Ends rest = (rest ≡ []) ⊎ ((q : List ℕ) × (rest ≡ comma ∷ q))

-- `name` is one of the comma separated fields of the string `p`. The end of `p` starts no field.
pub data Listed (name : List ℕ) : List ℕ → Type 0 where
  here : (p rest : List ℕ) → NoComma name → Ends rest → p ≡ name ++ rest → p ≢ [] → Listed name p
  later : (p f q : List ℕ) → NoComma f → p ≡ f ++ (comma ∷ q) → Listed name q → Listed name p

strchr-append : (f q : List ℕ) → NoComma f → strchr (f ++ (comma ∷ q)) comma ≡ some (length f)
unfolding strchr
strchr-append [] q h = refl
strchr-append (x ∷ f) q h = ground (arith, strchr-append f q h.1)

strchr-none : (f : List ℕ) → NoComma f → strchr f comma ≡ none
unfolding strchr
strchr-none [] h = refl
strchr-none (x ∷ f) h = ground (arith, strchr-none f h.1)

drop-append_field : (f q : List ℕ) → drop (length f + 1) (f ++ (comma ∷ q)) ≡ q
drop-append_field [] q = refl
drop-append_field (x ∷ f) q =
    ap (λ k. drop k (x ∷ (f ++ (comma ∷ q)))) (shift (length f)) ∙ drop-append_field f q
  where
    shift : (n : ℕ) → suc n + 1 ≡ suc (n + 1)
    shift n = omega arith

-- Where the first comma is, and what stands before and behind it.
data Cut (p : List ℕ) : Type 0 where
  no_comma : NoComma p → strchr p comma ≡ none → Cut p
  at_comma :
      (f q : List ℕ) → NoComma f → p ≡ f ++ (comma ∷ q) → strchr p comma ≡ some (length f) → Cut p

Cut-cons : (x : ℕ) (xs : List ℕ) → x ≢ comma → Cut xs → Cut (x ∷ xs)
unfolding strchr
Cut-cons x xs ne (no_comma h e) = no_comma (ne, h) (ground arith)
Cut-cons x xs ne (at_comma f q h p e) = at_comma (x ∷ f) q (ne, h) (cc) (ground arith)

cut : (p : List ℕ) → Cut p
unfolding strchr
cut [] = no_comma tt refl
cut (x ∷ xs) = elim (Bool-cases (x == comma)) [
  | inl e ↦ at_comma [] xs tt (ground arith) (ground arith)
  | inr e ↦ Cut-cons x xs (λ h. ground arith) (cut xs)
]

strn_eq_self : (f rest : List ℕ) → strn_eq (length f) (f ++ rest) f ≡ true
unfolding strn_eq
strn_eq_self [] rest = refl
strn_eq_self (x ∷ f) rest = ground (arith, strn_eq_self f rest)

strn_eq-eq :
    (f rest name : List ℕ)
    → length f ≡ length name
    → strn_eq (length f) (f ++ rest) name ≡ true
    → name ≡ f
unfolding strn_eq
strn_eq-eq [] rest [] h e = refl
strn_eq-eq [] rest (y ∷ name) h e = absurd (omega arith)
strn_eq-eq (x ∷ f) rest [] h e = absurd (omega arith)
strn_eq-eq (x ∷ f) rest (y ∷ name) h e = ground (arith, strn_eq-eq f rest name)

str_eq-eq : (a b : List ℕ) → str_eq a b ≡ true → a ≡ b
unfolding str_eq
str_eq-eq [] [] h = refl
str_eq-eq [] (b ∷ bs) h = cc
str_eq-eq (a ∷ l) [] h = cc
str_eq-eq (a ∷ l) (b ∷ bs) h = ground (arith, str_eq-eq l bs)

str_eq_refl : (a : List ℕ) → str_eq a a ≡ true
unfolding str_eq
str_eq_refl [] = refl
str_eq_refl (a ∷ l) = ground (arith, str_eq_refl l)

-- What one round of the loop finds.
scan-none :
    (n : ℕ) (p name : List ℕ)
    → p ≢ []
    → strchr p comma ≡ none
    → scan (suc n) p name ≡ ((length p == length name) && strn_eq (length p) p name)
unfolding scan
scan-none n [] name ne e = absurd (ne refl)
scan-none n (x ∷ xs) name ne e = rw (e, scan) (ground arith)

scan-some :
    (n k : ℕ) (p name : List ℕ)
    → strchr p comma ≡ some k
    → scan (suc n) p name
      ≡ (if (k == length name) && strn_eq k p name then true else scan n (drop (k + 1) p) name)
unfolding scan
scan-some n k [] name e = cc (e, nil_none)
  where
    nil_none : strchr [] comma ≡ none
    nil_none = strchr-none [] tt
scan-some n k (x ∷ xs) name e = rw (e, scan) (ground arith)

and_both : (a b : Bool) → (a && b) ≡ true → (a ≡ true) × (b ≡ true)
and_both a b h = ground arith

-- A field that the round takes for `name` is `name`.
field_match :
    (f rest name : List ℕ)
    → NoComma f
    → Ends rest
    → f ++ rest ≢ []
    → ((length f == length name) && strn_eq (length f) (f ++ rest) name) ≡ true
    → Listed name (f ++ rest)
field_match f rest name nc ends ne h =
    let both = and_both _ _ h in
    let same : name ≡ f = strn_eq-eq f rest name ((==_iff _ _).0 both.0) both.1 in
    here (f ++ rest) rest (subst NoComma (sym same) nc) ends (ap (λ g. g ++ rest) (sym same)) ne

append-ne-nil : (f q : List ℕ) → f ++ (comma ∷ q) ≢ []
append-ne-nil [] q e = cc
append-ne-nil (x ∷ f) q e = cc

if_true : (b c : Bool) → (if b then true else c) ≡ true → (b ≡ true) ⊎ (c ≡ true)
if_true true c h = inl refl
if_true false c h = inr h

at_comma-Listed :
    (n : ℕ) (f q name : List ℕ)
    → NoComma f
    → (scan n q name ≡ true → Listed name q)
    → scan (suc n) (f ++ (comma ∷ q)) name ≡ true
    → Listed name (f ++ (comma ∷ q))
at_comma-Listed n f q name nc ih h =
    elim (if_true _ _
      (sym (scan-some n (length f) (f ++ (comma ∷ q)) name (strchr-append f q nc)) ∙ h)) [
        | inl hit ↦ field_match f (comma ∷ q) name nc (inr (q, refl)) (append-ne-nil f q) hit
        | inr more ↦
            later (f ++ (comma ∷ q)) f q nc refl
              (ih (ap (λ r. scan n r name) (sym (drop-append_field f q)) ∙ more))
      ]

NoComma-Listed :
    (n : ℕ) (p name : List ℕ) → p ≢ [] → NoComma p → scan (suc n) p name ≡ true → Listed name p
NoComma-Listed n p name ne nc h = subst (Listed name) (append-nil p) (
    field_match p [] name nc (inl refl) (λ e. ne (sym (append-nil p) ∙ e))
      (ap (λ r. (length p == length name) && strn_eq (length p) r name) (append-nil p)
        ∙ (sym (scan-none n p name ne (strchr-none p nc)) ∙ h)))

scan-Listed : (n : ℕ) (p name : List ℕ) → scan n p name ≡ true → Listed name p
unfolding scan
scan-Listed zero p name h = cc
scan-Listed (suc n) [] name h = cc
scan-Listed (suc n) (x ∷ xs) name h = elim (cut (x ∷ xs)) [
  | no_comma nc e ↦ NoComma-Listed n (x ∷ xs) name (λ z. cc) nc h
  | at_comma f q nc p e ↦ subst (Listed name) (sym p) (
      at_comma-Listed n f q name nc (scan-Listed n q name)
        (ap (λ r. scan (suc n) r name) (sym p) ∙ h))
]

scan_hit_end : (n : ℕ) (name : List ℕ) → NoComma name → name ≢ [] → scan (suc n) name name ≡ true
scan_hit_end n name nc ne =
    scan-none n name name ne (strchr-none name nc)
    ∙ ground (arith, ==_iff (length name) (length name), strn_eq_self name [], append-nil name)

scan_hit_comma :
    (n : ℕ) (name q : List ℕ) → NoComma name → scan (suc n) (name ++ (comma ∷ q)) name ≡ true
scan_hit_comma n name q nc =
    scan-some n (length name) _ name (strchr-append name q nc)
    ∙ ground (arith, ==_iff (length name) (length name), strn_eq_self name (comma ∷ q))

scan_later :
    (n : ℕ) (f q name : List ℕ)
    → NoComma f
    → scan n q name ≡ true
    → scan (suc n) (f ++ (comma ∷ q)) name ≡ true
scan_later n f q name nc h =
    scan-some n (length f) _ name (strchr-append f q nc)
    ∙ ground (arith, ap (λ r. scan n r name) (drop-append_field f q))

length_pos : (p : List ℕ) → p ≢ [] → 1 ≤ length p
length_pos [] ne = absurd (ne refl)
length_pos (x ∷ xs) ne = omega arith

Listed-scan : {name p : List ℕ} (n : ℕ) → Listed name p → length p ≤ n → scan n p name ≡ true
Listed-scan zero (here p rest nc ends e ne) le = absurd (omega (arith, length_pos p ne))
Listed-scan zero (later p f q nc e l) le =
    absurd (omega (arith, ap length e, length-append f (comma ∷ q)))
Listed-scan {name} (suc n) (here p rest nc (inl done) e ne) le =
    let whole : p ≡ name = e ∙ (ap (λ r. name ++ r) done ∙ append-nil name) in
    ap (λ r. scan (suc n) r name) whole ∙ scan_hit_end n name nc (λ z. ne (whole ∙ z))
Listed-scan {name} (suc n) (here p rest nc (inr (q, more)) e ne) le =
    ap (λ r. scan (suc n) r name) (e ∙ ap (λ r. name ++ r) more) ∙ scan_hit_comma n name q nc
Listed-scan {name} (suc n) (later p f q nc e l) le =
    ap (λ r. scan (suc n) r name) e
    ∙ scan_later n f q name nc
        (Listed-scan n l (omega (arith, ap length e, length-append f (comma ∷ q))))

-- amlnf_part_enabled answers yes to a name exactly when the parameter is the word "all" or lists
-- the name as one of its comma separated fields.
pub part_enabled-iff-Listed :
    (parts name : List ℕ)
    → (part_enabled parts (some name) ≡ true) ↔ ((parts ≡ all_name) ⊎ Listed name parts)
unfolding part_enabled
part_enabled-iff-Listed parts name = (sound, complete)
  where
    sound : part_enabled parts (some name) ≡ true → (parts ≡ all_name) ⊎ Listed name parts
    sound h = elim (if_true (str_eq parts all_name) (scan (length parts) parts name) h) [
      | inl e ↦ inl (str_eq-eq parts all_name e)
      | inr e ↦ inr (scan-Listed (length parts) parts name e)
    ]

    complete : (parts ≡ all_name) ⊎ Listed name parts → part_enabled parts (some name) ≡ true
    complete (inl e) = ground (arith, str_eq_refl all_name, ap (λ p. str_eq p all_name) e)
    complete (inr l) = ground (arith, Listed-scan (length parts) l (omega arith))
