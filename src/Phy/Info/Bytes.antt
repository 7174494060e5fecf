-- ===== src/Phy/Info/Bytes.antt =====
-- phy/chipenv.c: the copies of bytes between a record and the buffer of a page.
use amlnf.Prelude.{
  ℕ, zero, suc, ◌+◌, ◌≤◌, ◌≡◌, refl, ap, sym, ◌∙◌, List, [], ◌∷◌, ◌++◌, take, drop, length,
  length-take, length-drop, length-append, arith,
}
use native.Mathlib.Numerals.{unary_clauses}

-- `memcpy(buf + at, src, len)`
abbrev pub paste : List ℕ → ℕ → List ℕ → List ℕ
paste buf at bytes = take at buf ++ (bytes ++ drop (at + length bytes) buf)

pub take-add : (m n : ℕ) (xs : List ℕ) → take (m + n) xs ≡ take m xs ++ take n (drop m xs)
take-add zero n xs = ap (λ k. take k xs) (omega arith)
take-add (suc m) zero [] = simp unary_clauses refl
take-add (suc m) (suc n) [] = simp unary_clauses refl
take-add (suc m) n (x ∷ xs) =
    let e : suc m + n ≡ suc (m + n) = omega arith in
    ap (λ k. take k (x ∷ xs)) e ∙ ap (λ l. x ∷ l) (take-add m n xs)

drop-nil : (n : ℕ) → drop {A = ℕ} n [] ≡ []
drop-nil zero = refl
drop-nil (suc n) = refl

-- Dropping beyond a part that was replaced by as many bytes
pub drop-replaced :
    (m k : ℕ) (xs ys : List ℕ) → k ≤ m → k ≤ length xs → drop m (take k xs ++ drop k ys) ≡ drop m ys
drop-replaced m zero xs ys a b = refl
drop-replaced (suc m) (suc k) (x ∷ xs) [] a b =
    ap (λ l. drop m (take k xs ++ l)) (sym (drop-nil k))
    ∙ drop-replaced m k xs [] (omega arith) (omega arith)
    ∙ drop-nil m
drop-replaced (suc m) (suc k) (x ∷ xs) (y ∷ ys) a b =
    drop-replaced m k xs ys (omega arith) (omega arith)
drop-replaced (suc m) (suc k) [] ys a b = absurd (omega arith)
drop-replaced zero (suc k) xs ys a b = absurd (omega arith)

pub take-append :
    (n : ℕ) (bytes xs : List ℕ) → n ≤ length bytes → take n (bytes ++ xs) ≡ take n bytes
take-append zero bytes xs a = refl
take-append (suc n) [] xs a = absurd (omega arith)
take-append (suc n) (b ∷ bytes) xs a = ap (λ l. b ∷ l) (take-append n bytes xs (omega arith))

pub take-take : (n m : ℕ) (xs : List ℕ) → n ≤ m → take n (take m xs) ≡ take n xs
take-take zero m xs a = refl
take-take (suc n) (suc m) [] a = refl
take-take (suc n) (suc m) (x ∷ xs) a = ap (λ l. x ∷ l) (take-take n m xs (omega arith))
take-take (suc n) zero xs a = absurd (omega arith)

pub append_assoc : (xs ys zs : List ℕ) → (xs ++ ys) ++ zs ≡ xs ++ (ys ++ zs)
append_assoc [] ys zs = refl
append_assoc (x ∷ xs) ys zs = ap (λ l. x ∷ l) (append_assoc xs ys zs)

pub take-all : (n : ℕ) (xs : List ℕ) → length xs ≤ n → take n xs ≡ xs
take-all zero [] a = refl
take-all (suc n) [] a = refl
take-all zero (x ∷ xs) a = absurd (omega arith)
take-all (suc n) (x ∷ xs) a = ap (λ l. x ∷ l) (take-all n xs (omega arith))

pub append-nil : (xs : List ℕ) → xs ++ [] ≡ xs
append-nil [] = refl
append-nil (x ∷ xs) = ap (λ l. x ∷ l) (append-nil xs)

pub drop-all : (n : ℕ) (xs : List ℕ) → length xs ≤ n → drop n xs ≡ []
drop-all zero [] a = refl
drop-all (suc n) [] a = refl
drop-all zero (x ∷ xs) a = absurd (omega arith)
drop-all (suc n) (x ∷ xs) a = drop-all n xs (omega arith)

-- The next bytes of `src` are pasted behind those that are there.
pub paste-next :
    (at len : ℕ) (src buf : List ℕ)
    → take at buf ≡ take at src
    → at + len ≤ length src
    → paste buf at (take len (drop at src)) ≡ take (at + len) src ++ drop (at + len) buf
paste-next at len src buf e a =
    let n : length (take len (drop at src)) ≡ len =
      omega (arith, length-take len (drop at src), length-drop at src) in
    rw (n, e, take-add at len src)
      (sym (append_assoc (take at src) (take len (drop at src)) (drop (at + len) buf)))

drop-append : (k : ℕ) (xs ys : List ℕ) → k ≤ length xs → drop k (xs ++ ys) ≡ drop k xs ++ ys
drop-append zero xs ys a = refl
drop-append (suc k) (x ∷ xs) ys a = drop-append k xs ys (omega arith)
drop-append (suc k) [] ys a = absurd (omega arith)

pub length-paste :
    (xs : List ℕ) (at : ℕ) (bytes : List ℕ)
    → at + length bytes ≤ length xs
    → length (paste xs at bytes) ≡ length xs
length-paste xs at bytes a = omega (
  arith,
  length-append (take at xs) (bytes ++ drop (at + length bytes) xs),
  length-append bytes (drop (at + length bytes) xs),
  length-take at xs,
  length-drop (at + length bytes) xs,
)

-- Bytes that are pasted within the first part of a buffer
pub take-paste :
    (xs ys : List ℕ) (at : ℕ) (bytes : List ℕ)
    → at + length bytes ≤ length xs
    → take (length xs) (paste (xs ++ ys) at bytes) ≡ paste xs at bytes
take-paste xs ys at bytes a =
    let k = at + length bytes in
    let same = length-paste xs at bytes a in
    let split : paste (xs ++ ys) at bytes ≡ paste xs at bytes ++ ys =
      rw (take-append at xs ys (omega arith), drop-append k xs ys a)
        (ap (λ l. take at xs ++ l) (sym (append_assoc bytes (drop k xs) ys))
          ∙ sym (append_assoc (take at xs) (bytes ++ drop k xs) ys)) in
    ap (take (length xs)) split
    ∙ take-append (length xs) (paste xs at bytes) ys (omega (arith, same))
    ∙ take-all (length xs) (paste xs at bytes) (omega (arith, same))
