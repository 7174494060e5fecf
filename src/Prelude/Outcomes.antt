-- ===== src/Prelude/Outcomes.antt =====
-- A property of the outcome of code that may not return.
use mathlib.Core.Path.{◌≡◌, refl}
use mathlib.Core.Bool.{Bool, true, false}
use mathlib.Core.Option.{Option, none, some}
use amlnf.Prelude.Tests.{if◌then◌else◌}

-- Every result there is has the property.
abbrev pub AllOf : {A : Type 0} → (A → Type 0) → Option A → Type 0
AllOf P none = Unit
AllOf P (some a) = P a

pub AllOf-elim :
    {A : Type 0} (P : A → Type 0) (b : Bool) (x y : Option A)
    → AllOf P x
    → AllOf P y
    → AllOf P (elim b [ true ↦ x | false ↦ y ])
AllOf-elim P true x y h g = h
AllOf-elim P false x y h g = g

pub AllOf-if :
    {A : Type 0} (P : A → Type 0) (b : Bool) (x y : Option A)
    → AllOf P x
    → AllOf P y
    → AllOf P (if b then x else y)
AllOf-if P true x y h g = h
AllOf-if P false x y h g = g

pub AllOf-bind :
    {A B : Type 0} (P : A → Type 0) (Q : B → Type 0) (o : Option A) (f : A → Option B)
    → AllOf P o
    → ((a : A) → P a → AllOf Q (f a))
    → AllOf Q (elim o [ none ↦ none | some a ↦ f a ])
AllOf-bind P Q none f h g = record {}
AllOf-bind P Q (some a) f h g = g a h

pub AllOf-intro :
    {A : Type 0} (P : A → Type 0) (o : Option A) → ((a : A) → o ≡ some a → P a) → AllOf P o
AllOf-intro P none h = record {}
AllOf-intro P (some a) h = h a refl

-- The same with the condition in reach.
pub AllOf-cases :
    {A : Type 0} (P : A → Type 0) (b : Bool) (x y : Option A)
    → (b ≡ true → AllOf P x)
    → (b ≡ false → AllOf P y)
    → AllOf P (if b then x else y)
AllOf-cases P true x y h g = h refl
AllOf-cases P false x y h g = g refl

pub AllOf-both :
    {A : Type 0} (P Q : A → Type 0) (o : Option A)
    → AllOf P o
    → AllOf Q o
    → AllOf (λ a. P a × Q a) o
AllOf-both P Q none h g = record {}
AllOf-both P Q (some a) h g = (h, g)
