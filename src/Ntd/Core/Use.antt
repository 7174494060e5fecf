-- ===== src/Ntd/Core/Use.antt =====
-- ntd/aml_ntdcore.c: a device from its registration to its removal.
use amlnf.Prelude.{
  ℕ, ◌+◌, ◌-◌, ◌≡◌, ◌≢◌, refl, ap, ◌∙◌, true, false, ◌&&◌, not, none, some, [], ◌∷◌, ◌==◌,
  if◌then◌else◌, arith, if_false,
}
use amlnf.Prelude.Int.{pos, neg, is_zero}
use amlnf.Ntd.{NtdInfo}
use amlnf.Ntd.Core.{
  Idr, Core, CoreCalls, idr_find, idr_insert, idr_remove, set_info, add_ntd_device, is_listed,
  del_ntd_device, finish_get, get_ntd_device, put_ntd_device, enodev, ebusy,
}

find-insert : (i a : ℕ) (t : Idr) → idr_find t i ≡ none → idr_find (idr_insert i a t) i ≡ some a
unfolding idr_find idr_insert
find-insert i a [] h = ground arith
find-insert i a ((j, b) ∷ t) h = ground (arith, find-insert i a t)

remove-absent : (i : ℕ) (t : Idr) → idr_find t i ≡ none → idr_remove t i ≡ t
unfolding idr_find idr_remove
remove-absent i [] h = refl
remove-absent i ((j, b) ∷ t) h = ground (arith, remove-absent i t)

pub remove-insert : (i a : ℕ) (t : Idr) → idr_find t i ≡ none → idr_remove (idr_insert i a t) i ≡ t
unfolding idr_find idr_insert idr_remove
remove-insert i a [] h = ground arith
remove-insert i a ((j, b) ∷ t) h = ground (arith, remove-insert i a t, remove-absent i t)

-- What lets a registration go through: the number is not in use, and the kernel agrees.
pub record CanAdd (calls : CoreCalls) (c : Core) (a i : ℕ) : Type 0 where
  pub has_pages : (c.info a).pagesize ≢ 0
  pub given : calls.idr_alloc c.ntd_idr ≡ some i
  pub unused : idr_find c.ntd_idr i ≡ none
  pub is_set_up : (c.init_available && not (is_zero calls.init_ntd)) ≡ false

-- The core after the number has been given.
abbrev pub added : Core → ℕ → ℕ → Core
added c a i = record c {
  ntd_idr = idr_insert i a c.ntd_idr;
  info = set_info c.info a (record (c.info a) { index = i; usecount = 0 });
  init_available = false;
}

add-added :
    (calls : CoreCalls) (c : Core) (a i : ℕ)
    → CanAdd calls c a i
    → add_ntd_device calls c a
      ≡ some (
          if is_zero (calls.device_register a)
          then (0, added c a i)
          else (1, record (added c a i) { ntd_idr = idr_remove (idr_insert i a c.ntd_idr) i }))
unfolding add_ntd_device
add-added calls c a i h =
    let pages : ((c.info a).pagesize == 0) ≡ false = ground (arith, h.has_pages) in
    rw (pages, h.given, h.is_set_up) refl

==_self : (a : ℕ) → (a == a) ≡ true
==_self a = ground arith

set_info-same : (info : ℕ → NtdInfo) (a : ℕ) (ntd : NtdInfo) → set_info info a ntd a ≡ ntd
set_info-same info a ntd = rw (==_self a) refl

-- A device that the table lists at its number, with its use count.
pub record IsUsed (c : Core) (a i count : ℕ) : Type 0 where
  pub numbered : (c.info a).index ≡ i
  pub counted : (c.info a).usecount ≡ count
  pub listed : idr_find c.ntd_idr i ≡ some a

pub added-listed : (c : Core) (a i : ℕ) → idr_find c.ntd_idr i ≡ none → IsUsed (added c a i) a i 0
added-listed c a i unused =
    let same = set_info-same c.info a (record (c.info a) { index = i; usecount = 0 }) in
    record {
      numbered = ap (λ n. n.index) same;
      counted = ap (λ n. n.usecount) same;
      listed = find-insert i a c.ntd_idr unused;
    }

added-IsUsed :
    (calls : CoreCalls) (c : Core) (a i : ℕ) → CanAdd calls c a i → IsUsed (added c a i) a i 0
added-IsUsed calls c a i h = added-listed c a i h.unused

-- One more user.
abbrev got : Core → ℕ → Core
got c a = record c {
  info = set_info c.info a (record (c.info a) { usecount = (c.info a).usecount + 1 });
}

got-IsUsed : (c : Core) (a i n : ℕ) → IsUsed c a i n → IsUsed (got c a) a i (n + 1)
got-IsUsed c a i n u =
    let same = set_info-same c.info a (record (c.info a) { usecount = (c.info a).usecount + 1 }) in
    record {
      numbered = ap (λ x. x.index) same ∙ u.numbered;
      counted = ap (λ x. x.usecount) same ∙ ap (λ x. x + 1) u.counted;
      listed = u.listed;
    }

pub is_listed-IsUsed : (c : Core) (a i n : ℕ) → IsUsed c a i n → is_listed c a ≡ true
is_listed-IsUsed c a i n u =
    ap (λ j. elim (idr_find c.ntd_idr j) [ none ↦ false | some b ↦ b == a ]) u.numbered
    ∙ ap (λ o. elim o [ none ↦ false | some b ↦ b == a ]) u.listed
    ∙ ==_self a

del-busy : (c : Core) (a i n : ℕ) → IsUsed c a i (n + 1) → del_ntd_device c a ≡ (neg ebusy, c)
unfolding del_ntd_device
del-busy c a i n u =
    let busy : ((c.info a).usecount == 0) ≡ false = ground (arith, u.counted) in
    ap
      (λ b.
        if not b
        then (neg enodev, c)
        else if not ((c.info a).usecount == 0)
        then (neg ebusy, c)
        else (pos 0, record c { ntd_idr = idr_remove c.ntd_idr (c.info a).index }))
      (is_listed-IsUsed c a i (n + 1) u)
    ∙ ap
        (λ b.
          if not b
          then (neg ebusy, c)
          else (pos 0, record c { ntd_idr = idr_remove c.ntd_idr (c.info a).index }))
        busy

del-unused :
    (c : Core) (a i : ℕ)
    → IsUsed c a i 0
    → del_ntd_device c a ≡ (pos 0, record c { ntd_idr = idr_remove c.ntd_idr i })
unfolding del_ntd_device
del-unused c a i u =
    let idle : ((c.info a).usecount == 0) ≡ true = ground (arith, u.counted) in
    ap
      (λ b.
        if not b
        then (neg enodev, c)
        else if not ((c.info a).usecount == 0)
        then (neg ebusy, c)
        else (pos 0, record c { ntd_idr = idr_remove c.ntd_idr (c.info a).index }))
      (is_listed-IsUsed c a i 0 u)
    ∙ ap
        (λ b.
          if not b
          then (neg ebusy, c)
          else (pos 0, record c { ntd_idr = idr_remove c.ntd_idr (c.info a).index }))
        idle
    ∙ ap (λ j. (pos 0, record c { ntd_idr = idr_remove c.ntd_idr j })) u.numbered

get-IsUsed :
    (calls : CoreCalls) (c : Core) (a i n : ℕ)
    → IsUsed c a i n
    → calls.try_module_get a ≡ true
    → get_ntd_device calls c 0 (pos i) ≡ ((pos 0, a), got c a)
unfolding get_ntd_device finish_get
get-IsUsed calls c a i n u m =
    ap (λ o. finish_get calls c (elim o [ none ↦ none | some b ↦ some b ])) u.listed ∙ rw (m) refl

-- One user less.
abbrev put : Core → ℕ → Core
put c a = record c {
  info = set_info c.info a (record (c.info a) { usecount = (c.info a).usecount - 1 });
}

put-IsUsed :
    (c : Core) (a i n : ℕ)
    → IsUsed c a i (n + 1)
    → (put_ntd_device c a ≡ some (put c a)) × IsUsed (put c a) a i n
unfolding put_ntd_device
put-IsUsed c a i n u =
    let same = set_info-same c.info a (record (c.info a) { usecount = (c.info a).usecount - 1 }) in
    let busy : ((c.info a).usecount == 0) ≡ false = ground (arith, u.counted) in
    (
      if_false ((c.info a).usecount == 0) none (some (put c a)) busy,
      record {
        numbered = ap (λ x. x.index) same ∙ u.numbered;
        counted = ap (λ x. x.usecount) same ∙ omega (arith, u.counted);
        listed = u.listed;
      },
    )

-- A device that can be added and registered is got by its number and then has a user, so that it is
-- not removed; when the user has put it back it is, and the table is what it was before.
pub add-get-put-del :
    (calls : CoreCalls) (c : Core) (a i : ℕ)
    → CanAdd calls c a i
    → is_zero (calls.device_register a) ≡ true
    → calls.try_module_get a ≡ true
    → (c1 : Core) × (c2 : Core) × (c3 : Core) × (add_ntd_device calls c a ≡ some (0, c1))
      × (get_ntd_device calls c1 0 (pos i) ≡ ((pos 0, a), c2))
      × (del_ntd_device c2 a ≡ (neg ebusy, c2))
      × (put_ntd_device c2 a ≡ some c3)
      × ((del_ntd_device c3 a).0 ≡ pos 0)
      × ((del_ntd_device c3 a).1.ntd_idr ≡ c.ntd_idr)
add-get-put-del calls c a i h reg m =
    let c1 = added c a i in
    let u1 = added-IsUsed calls c a i h in
    let c2 = got c1 a in
    let u2 = got-IsUsed c1 a i 0 u1 in
    let p = put-IsUsed c2 a i 0 u2 in
    let d = del-unused (put c2 a) a i p.1 in
    (
      c1,
      c2,
      put c2 a,
      add-added calls c a i h
          ∙ ap
              (λ b. some (
                if b
                then (0, c1)
                else (1, record c1 { ntd_idr = idr_remove (idr_insert i a c.ntd_idr) i })))
              reg,
      get-IsUsed calls c1 a i 0 u1 m,
      del-busy c2 a i 0 u2,
      p.0,
      ap (λ x. x.0) d,
      ap (λ x. x.1.ntd_idr) d ∙ remove-insert i a c.ntd_idr h.unused,
    )
