-- ===== src/Ntd/Blkdevs/Sorted.antt =====
-- ntd/aml_ntd_blkdevs.c: the devices of a transport stay in the order of their numbers, without two
-- of the same.
use amlnf.Prelude.{
  ℕ, ◌-◌, ◌^◌, ◌<◌, ◌≡◌, refl, sym, ap, ◌∙◌, Bool, true, false, Option, none, some, List, [], ◌∷◌,
  ◌++◌, ◌≢◌, ◌≤◌, inl, inr, Bool-cases, ◌==◌, ltb, if◌then◌else◌, arith, AllOf, AllOf-if,
  AllOf-cases, AllOf-bind, AllOf-both, subst,
}
use amlnf.Prelude.Int.{ℤ, pos, neg, is_zero}
use amlnf.Prelude.Words.{shr}
use amlnf.Ntd.Blkdevs.{
  ebusy, BlktransDev, BlktransOps, DiskCalls, insert_dev, remove_dev, disk_result,
  add_ntd_blktrans_dev,
}

-- Every device has a number above `n`.
abbrev pub Above : ℕ → List BlktransDev → Type 0
Above n [] = Unit
Above n (d ∷ devs) = (n < d.devnum) × Above n devs

-- The numbers go up.
abbrev pub Sorted : List BlktransDev → Type 0
Sorted [] = Unit
Sorted (d ∷ devs) = Above d.devnum devs × Sorted devs

Above-weaken : (m n : ℕ) (devs : List BlktransDev) → m < n → Above n devs → Above m devs
Above-weaken m n [] l a = record {}
Above-weaken m n (d ∷ devs) l a = (omega (arith, a.0), Above-weaken m n devs l a.1)

insert_dev-Above :
    (new : BlktransDev) (limit n : ℕ) (devs : List BlktransDev)
    → n < new.devnum
    → Above n devs
    → AllOf (Above n) (insert_dev new limit devs)
unfolding insert_dev
insert_dev-Above new limit n [] l a =
    AllOf-if (Above n) (ltb limit new.devnum) none (some (new ∷ [])) (record {}) (l, record {})
insert_dev-Above new limit n (d ∷ devs) l a =
    AllOf-if (Above n) (d.devnum == new.devnum) none _ (record {}) (
      AllOf-if (Above n) (ltb new.devnum d.devnum) (some (new ∷ d ∷ devs)) _ (l, a)
        (AllOf-bind (Above n) (Above n) (insert_dev new limit devs) (λ m. some (d ∷ m))
          (insert_dev-Above new limit n devs l a.1) (λ m h. (a.0, h))))

before : (a b : ℕ) → (a == b) ≡ false → ltb b a ≡ false → a < b
before a b h g = ground arith

after : (a b : ℕ) → ltb a b ≡ true → a < b
after a b h = ground arith

insert_dev-Sorted :
    (new : BlktransDev) (limit : ℕ) (devs : List BlktransDev)
    → Sorted devs
    → AllOf Sorted (insert_dev new limit devs)
unfolding insert_dev
insert_dev-Sorted new limit [] s =
    AllOf-if Sorted (ltb limit new.devnum) none (some (new ∷ [])) (record {}) (record {}, record {})
insert_dev-Sorted new limit (d ∷ devs) s =
    AllOf-cases Sorted (d.devnum == new.devnum) none _ (λ e. record {})
      (λ ne.
        AllOf-cases Sorted (ltb new.devnum d.devnum) (some (new ∷ d ∷ devs)) _
          (λ lt. (
            (
              after new.devnum d.devnum lt,
              Above-weaken new.devnum d.devnum devs (after new.devnum d.devnum lt) s.0,
            ),
            s,
          ))
          (λ ge.
            AllOf-bind (λ l. Above d.devnum l × Sorted l) Sorted (insert_dev new limit devs)
              (λ l. some (d ∷ l))
              (AllOf-both (Above d.devnum) Sorted (insert_dev new limit devs)
                (insert_dev-Above new limit d.devnum devs (before d.devnum new.devnum ne ge) s.0)
                (insert_dev-Sorted new limit devs s.1))
              (λ l h. h)))

==_self : (a : ℕ) → (a == a) ≡ true
==_self a = ground arith

remove_head :
    (new : BlktransDev) (devs : List BlktransDev) → remove_dev new.devnum (new ∷ devs) ≡ devs
unfolding remove_dev
remove_head new devs = rw (==_self new.devnum) refl

remove_later :
    (new d : BlktransDev) (l devs : List BlktransDev)
    → (d.devnum == new.devnum) ≡ false
    → remove_dev new.devnum l ≡ devs
    → remove_dev new.devnum (d ∷ l) ≡ d ∷ devs
unfolding remove_dev
remove_later new d l devs ne e = rw (ne) (ap (λ x. d ∷ x) e)

-- Taking the new device off again gives the list back.
remove-insert_dev :
    (new : BlktransDev) (limit : ℕ) (devs : List BlktransDev)
    → AllOf (λ l. remove_dev new.devnum l ≡ devs) (insert_dev new limit devs)
unfolding insert_dev
remove-insert_dev new limit [] =
    AllOf-if _ (ltb limit new.devnum) none (some (new ∷ [])) (record {}) (remove_head new [])
remove-insert_dev new limit (d ∷ devs) =
    AllOf-cases _ (d.devnum == new.devnum) none _ (λ e. record {})
      (λ ne.
        AllOf-if _ (ltb new.devnum d.devnum) (some (new ∷ d ∷ devs)) _ (remove_head new (d ∷ devs))
          (AllOf-bind (λ l. remove_dev new.devnum l ≡ devs) _ (insert_dev new limit devs)
            (λ l. some (d ∷ l)) (remove-insert_dev new limit devs)
            (λ l h. remove_later new d l devs ne h)))

-- The new device stands on the list, between devices that were there before.
pub record IsInserted (new : BlktransDev) (devs l : List BlktransDev) : Type 0 where
  pub before_it : List BlktransDev
  pub after_it : List BlktransDev
  pub were : devs ≡ before_it ++ after_it
  pub are : l ≡ before_it ++ (new ∷ after_it)

insert_dev-IsInserted :
    (new : BlktransDev) (limit : ℕ) (devs : List BlktransDev)
    → AllOf (IsInserted new devs) (insert_dev new limit devs)
unfolding insert_dev
insert_dev-IsInserted new limit [] =
    AllOf-if _ (ltb limit new.devnum) none (some (new ∷ [])) (record {})
      (record { before_it = []; after_it = []; were = refl; are = refl })
insert_dev-IsInserted new limit (d ∷ devs) =
    AllOf-if _ (d.devnum == new.devnum) none _ (record {}) (
      AllOf-if _ (ltb new.devnum d.devnum) (some (new ∷ d ∷ devs)) _
        (record { before_it = []; after_it = d ∷ devs; were = refl; are = refl })
        (AllOf-bind (IsInserted new devs) _ (insert_dev new limit devs) (λ l. some (d ∷ l))
          (insert_dev-IsInserted new limit devs)
          (λ l h. record {
            before_it = d ∷ h.before_it;
            after_it = h.after_it;
            were = ap (λ t. d ∷ t) h.were;
            are = ap (λ t. d ∷ t) h.are;
          })))

-- No device has the number.
abbrev pub Unused : ℕ → List BlktransDev → Type 0
Unused n [] = Unit
Unused n (d ∷ devs) = (d.devnum ≢ n) × Unused n devs

insert_dev-some :
    (new : BlktransDev) (limit : ℕ) (devs : List BlktransDev)
    → Unused new.devnum devs
    → new.devnum ≤ limit
    → (l : List BlktransDev) × (insert_dev new limit devs ≡ some l)
unfolding insert_dev
insert_dev-some new limit [] u a =
    let fits : ltb limit new.devnum ≡ false = ground arith in (new ∷ [], rw (fits) refl)
insert_dev-some new limit (d ∷ devs) u a =
    let other : (d.devnum == new.devnum) ≡ false = ground (arith, u.0) in
    let (l, e) = insert_dev-some new limit devs u.1 a in
    elim (Bool-cases (ltb new.devnum d.devnum)) [
      | inl b ↦ (new ∷ d ∷ devs, rw (other, b) refl)
      | inr b ↦ (d ∷ l, rw (other, b, e) refl)
    ]

-- The device as it is put on the list
abbrev pub made_ready : {D : Type 0} → BlktransOps D → BlktransDev → BlktransDev
made_ready tr new = record new {
  ref = 1;
  rq_list = [];
  readonly = elim (tr.writesect) [ none ↦ 1 | some f ↦ new.readonly ];
}

-- The last minor of the transport's devices
abbrev pub last_minor : {D : Type 0} → BlktransOps D → ℕ
last_minor tr = shr (2 ^ 20 - 1) tr.part_bits

-- What is left of a list after a call that adds `new`, when `result` is that of the block layer.
pub record IsAdded (new : BlktransDev) (limit : ℕ) (result : ℤ) (devs : List BlktransDev)
    (r : ℤ × List BlktransDev) : Type 0 where
  pub sorted : Sorted r.1
  pub inserted : is_zero r.0 ≡ true → IsInserted new devs r.1
  pub undone : is_zero r.0 ≡ false → r.1 ≡ devs
  pub succeeds : Unused new.devnum devs → new.devnum ≤ limit → is_zero result ≡ true → r.0 ≡ pos 0

true-false : true ≡ false → ⊥
true-false h = ground arith

finish-IsAdded :
    (new : BlktransDev) (limit : ℕ) (result : ℤ) (devs l : List BlktransDev) (b : Bool)
    → is_zero result ≡ b
    → Sorted devs
    → Sorted l
    → IsInserted new devs l
    → remove_dev new.devnum l ≡ devs
    → IsAdded new limit result devs (if b then (pos 0, l) else (result, remove_dev new.devnum l))
finish-IsAdded new limit result devs l true e s t i r = record {
  sorted = t;
  inserted = λ h. i;
  undone = λ h. absurd (true-false h);
  succeeds = λ u a z. refl;
}
finish-IsAdded new limit result devs l false e s t i r = record {
  sorted = subst Sorted (sym r) s;
  inserted = λ h. absurd (true-false (sym h ∙ e));
  undone = λ h. r;
  succeeds = λ u a z. absurd (true-false (sym z ∙ e));
}

list-IsAdded :
    (new : BlktransDev) (limit : ℕ) (result : ℤ) (devs : List BlktransDev)
    (o : Option (List BlktransDev))
    → insert_dev new limit devs ≡ o
    → Sorted devs
    → AllOf Sorted o
    → AllOf (IsInserted new devs) o
    → AllOf (λ l. remove_dev new.devnum l ≡ devs) o
    → IsAdded new limit result devs (elim o [
      | none ↦ (neg ebusy, devs)
      | some l ↦ if is_zero result then (pos 0, l) else (result, remove_dev new.devnum l)
    ])
list-IsAdded new limit result devs none e s t i r = record {
  sorted = s;
  inserted = λ h. absurd (ground arith);
  undone = λ h. refl;
  succeeds =
      λ u a z. let (l, f) = insert_dev-some new limit devs u a in absurd (none-some l (sym e ∙ f));
}
  where
    none-some : (l : List BlktransDev) → none ≡ some l → ⊥
    none-some l h = subst (λ x. elim x [ none ↦ Unit | some y ↦ ⊥ ]) h (record {})
list-IsAdded new limit result devs (some l) e s t i r =
    finish-IsAdded new limit result devs l (is_zero result) refl s t i r

-- From a list in the order of the numbers, add_ntd_blktrans_dev leaves one in that order. When it
-- succeeds, the new device, with one reference and no requests, stands on it between the devices that
-- were there; on every error, be it a number in use or a step of the block layer that fails, it is
-- the list from before. It succeeds when no device has the number, the number is at most the last
-- minor, and no step of the block layer fails.
pub add_dev-IsAdded :
    {D : Type 0} (tr : BlktransOps D) (calls : DiskCalls) (new : BlktransDev)
    (devs : List BlktransDev)
    → Sorted devs
    → IsAdded
        (made_ready tr new)
        (last_minor tr)
        (disk_result calls)
        devs
        (add_ntd_blktrans_dev tr calls new devs)
unfolding add_ntd_blktrans_dev
add_dev-IsAdded tr calls new devs s =
    let ready = made_ready tr new in
    let limit = last_minor tr in
    list-IsAdded ready limit (disk_result calls) devs (insert_dev ready limit devs) refl s
      (insert_dev-Sorted ready limit devs s) (insert_dev-IsInserted ready limit devs)
      (remove-insert_dev ready limit devs)
