-- ===== src/Ntd/Blkdevs/Open.antt =====
-- ntd/aml_ntd_blkdevs.c: the users of a disk, and the references to its device.
use amlnf.Prelude.{
  ℕ, zero, suc, ◌+◌, ◌-◌, ◌^◌, ◌<◌, ◌≡◌, refl, Bool, true, false, Option, none, some, ◌==◌,
  if◌then◌else◌, arith,
}
use amlnf.Prelude.Int.{ℤ, is_zero}
use amlnf.Prelude.Words.{u32}
use amlnf.Ntd.Blkdevs.{
  BlktransDev, BlktransOps, kref_put, call, finish_open, blktrans_open, blktrans_release,
}

-- The references of `n` users
abbrev pub shared : ℕ → ℕ
shared n = if n == 0 then 0 else 1

-- A device with `n` users, and the references `base` to it beside that of its users: they have one
-- together.
pub record Users (base n : ℕ) (dev : BlktransDev) : Type 0 where
  pub users : dev.open_count ≡ n
  pub refs : dev.ref ≡ base + shared n

-- The number of users after an open that returned `ret`.
abbrev pub users_after : ℕ → ℤ → ℕ
users_after n ret = if is_zero ret then n + 1 else n

-- A result of blktrans_open on a device with `n` users.
abbrev pub Opened : {D : Type 0} → ℕ → ℕ → ℤ × Option BlktransDev × D → Type 0
Opened base n (ret, none, d) = ⊥
Opened base n (ret, some dev, d) = Users base (users_after n ret) dev

one_of : (n : ℕ) → 0 < n → shared n ≡ 1
one_of n h = ground arith

-- A result of blktrans_release that leaves `n` users.
abbrev pub Closed : {D : Type 0} → ℕ → ℕ → Option BlktransDev × D → Type 0
Closed base n (none, d) = ⊥
Closed base n (some dev, d) = Users base n dev

Opened-cases :
    {D : Type 0} (base n : ℕ) (b : Bool) (x y : ℤ × Option BlktransDev × D)
    → (b ≡ true → Opened base n x)
    → (b ≡ false → Opened base n y)
    → Opened base n (if b then x else y)
Opened-cases base n true x y h g = h refl
Opened-cases base n false x y h g = g refl

finish_open-Opened :
    {D : Type 0} (base : ℕ) (r : ℤ × D) (dev : BlktransDev)
    → dev.open_count ≡ 1
    → dev.ref ≡ base + 2
    → Opened base 0 (finish_open r dev)
unfolding finish_open
finish_open-Opened base (ret, d) dev h g =
    Opened-cases base 0 (is_zero ret) (ret, some (kref_put dev), d) _
      (λ e. record { users = one_more ret dev.open_count e h; refs = one_ref ret base dev.ref e g })
      (λ e. record { users = none_more ret dev.open_count e h; refs = no_ref ret base dev.ref e g })
  where
    one_more : (ret : ℤ) (o : ℕ) → is_zero ret ≡ true → o ≡ 1 → o ≡ users_after 0 ret
    one_more ret o e h = rw (e) h

    none_more :
        (ret : ℤ) (o : ℕ) → is_zero ret ≡ false → o ≡ 1 → u32 (o + 2 ^ 32 - 1) ≡ users_after 0 ret
    none_more ret o e h = rw (e) (omega arith)

    one_ref :
        (ret : ℤ) (base r : ℕ)
        → is_zero ret ≡ true
        → r ≡ base + 2
        → r - 1 ≡ base + shared (users_after 0 ret)
    one_ref ret base r e g = rw (e) (omega arith)

    no_ref :
        (ret : ℤ) (base r : ℕ)
        → is_zero ret ≡ false
        → r ≡ base + 2
        → r - 1 - 1 ≡ base + shared (users_after 0 ret)
    no_ref ret base r e g = rw (e) (omega arith)

module _ {D : Type 0} (tr : BlktransOps D) where
  -- With fewer users than an int counts, an open counts a user more if it succeeds and none if the
  -- transport refuses it, and the users keep one reference between them, from the first on.
  open-Users :
      (base n : ℕ) (dev : BlktransDev) (d : D)
      → n + 1 < 2 ^ 31
      → Users base n dev
      → Opened base n (blktrans_open tr (some dev) d)
  unfolding blktrans_open
  open-Users base zero dev d l u =
      let fresh : (dev.open_count == 0) ≡ true = ground (arith, u.users) in
      rw (fresh) (
        finish_open-Opened base (call tr.open_dev d) _ (omega (arith, u.users))
          (omega (arith, u.refs)))
  open-Users base (suc n) dev d l u =
      let used : (dev.open_count == 0) ≡ false = ground (arith, u.users) in
      rw (used) (record {
        users = omega (arith, u.users);
        refs =
            omega (arith, u.refs, one_of (suc n) (omega arith), one_of (suc n + 1) (omega arith));
      })

  -- A release of a disk that has users counts one user less, and the last one gives back their
  -- reference.
  release-Users :
      (base n : ℕ) (dev : BlktransDev) (d : D)
      → n + 1 < 2 ^ 31
      → Users base (n + 1) dev
      → Closed base n (blktrans_release tr (some dev) d)
  unfolding blktrans_release
  release-Users base zero dev d l u =
      let last : (u32 (dev.open_count + 2 ^ 32 - 1) == 0) ≡ true = ground (arith, u.users) in
      rw (last) (record { users = omega (arith, u.users); refs = omega (arith, u.refs) })
  release-Users base (suc n) dev d l u =
      let more : (u32 (dev.open_count + 2 ^ 32 - 1) == 0) ≡ false = ground (arith, u.users) in
      rw (more) (record {
        users = omega (arith, u.users);
        refs =
            omega (arith, u.refs, one_of (suc n) (omega arith), one_of (suc n + 1) (omega arith));
      })

  -- With fewer users than an int counts, an open counts a user more if it succeeds and none if the
  -- transport refuses it; a release of a disk that has users counts one user less. The users keep
  -- one reference between them, from the first one's open to the last one's release.
  pub open_release-Users :
      (base n : ℕ) (dev dev' : BlktransDev) (d : D)
      → n + 1 < 2 ^ 31
      → Users base n dev
      → Users base (n + 1) dev'
      → Opened base n (blktrans_open tr (some dev) d)
        × Closed base n (blktrans_release tr (some dev') d)
  open_release-Users base n dev dev' d l u v =
      (open-Users base n dev d l u, release-Users base n dev' d l v)
