-- ===== src/Ntd/Part/Deleted.antt =====
-- ntd/aml_ntdpart.c: what del_ntd_partitions leaves on the list and in the table, when it deletes by
-- del_ntd_device of ntd/aml_ntdcore.c.
use amlnf.Prelude.{
  ℕ, ◌≡◌, ◌≢◌, refl, sym, ap, subst, ◌∙◌, Bool, true, false, ◌&&◌, not, none, some, List, [], ◌∷◌,
  ◌==◌, if◌then◌else◌, arith,
}
use amlnf.Prelude.Int.{ℤ, pos, neg, is_neg}
use amlnf.Ntd.{NtdInfo}
use amlnf.Ntd.Core.{Idr, Core, idr_find, idr_remove, is_listed, del_ntd_device, enodev, ebusy}
use amlnf.Ntd.Part.{is_slave_of, del_ntd_partitions}

find-remove : (t : Idr) (i j : ℕ) → i ≢ j → idr_find (idr_remove t j) i ≡ idr_find t i
unfolding idr_find idr_remove
find-remove [] i j h = refl
find-remove ((n, a) ∷ t) i j h = ground (arith, h, find-remove t i j h)

-- The table without a number
abbrev removed : Core → ℕ → Core
removed c i = record c { ntd_idr = idr_remove c.ntd_idr i }

-- Is the device in the table, without users?
abbrev pub is_idle : Core → NtdInfo → Bool
is_idle c slave = is_listed c slave.addr && ((c.info slave.addr).usecount == 0)

abbrev pub goes : Core → ℕ → NtdInfo → Bool
goes c master slave = is_slave_of master slave && is_idle c slave

-- What stays of a list of slaves: those of other masters, those without a name, and those that are
-- not in the table or have users.
unfoldable pub kept_slaves : Core → ℕ → List NtdInfo → List NtdInfo
kept_slaves c master [] = []
kept_slaves c master (slave ∷ list) =
    let rest = kept_slaves c master list in if goes c master slave then rest else slave ∷ rest

-- A table without the numbers of the slaves that go
pub cleared : Core → ℕ → List NtdInfo → Idr → Idr
cleared c master [] t = t
cleared c master (slave ∷ list) t =
    cleared c master list
      (if goes c master slave then idr_remove t (c.info slave.addr).index else t)

-- No slave has the number.
abbrev pub NotNumbered : (ℕ → NtdInfo) → ℕ → List NtdInfo → Type 0
NotNumbered info i [] = Unit
NotNumbered info i (slave ∷ list) = ((info slave.addr).index ≢ i) × NotNumbered info i list

-- The slaves have different numbers.
abbrev pub Apart : (ℕ → NtdInfo) → List NtdInfo → Type 0
Apart info [] = Unit
Apart info (slave ∷ list) = NotNumbered info (info slave.addr).index list × Apart info list

idle-removed :
    (c : Core) (i : ℕ) (slave : NtdInfo)
    → (c.info slave.addr).index ≢ i
    → is_idle (removed c i) slave ≡ is_idle c slave
idle-removed c i slave h =
    ap
      (λ o.
        elim o [ none ↦ false | some b ↦ b == slave.addr ] && ((c.info slave.addr).usecount == 0))
      (find-remove c.ntd_idr (c.info slave.addr).index i h)

kept-removed :
    (c : Core) (i master : ℕ) (list : List NtdInfo)
    → NotNumbered c.info i list
    → kept_slaves (removed c i) master list ≡ kept_slaves c master list
unfolding kept_slaves
kept-removed c i master [] h = refl
kept-removed c i master (slave ∷ list) h =
    ap
      (λ b.
        if is_slave_of master slave && b
        then kept_slaves (removed c i) master list
        else slave ∷ kept_slaves (removed c i) master list)
      (idle-removed c i slave h.0)
    ∙ ap (λ l. if goes c master slave then l else slave ∷ l) (kept-removed c i master list h.1)

cleared-removed :
    (c : Core) (i master : ℕ) (list : List NtdInfo) (t : Idr)
    → NotNumbered c.info i list
    → cleared (removed c i) master list t ≡ cleared c master list t
unfolding cleared
cleared-removed c i master [] t h = refl
cleared-removed c i master (slave ∷ list) t h =
    ap
      (λ b.
        cleared (removed c i) master list
          (if is_slave_of master slave && b then idr_remove t (c.info slave.addr).index else t))
      (idle-removed c i slave h.0)
    ∙ cleared-removed c i master list _ h.1

-- What a deletion does, by whether the device is idle
DeletionOf : Bool → Core → ℕ → ℤ × Core → Type 0
DeletionOf true c a r = r ≡ (pos 0, removed c (c.info a).index)
DeletionOf false c a r = (r.1 ≡ c) × (is_neg r.0 ≡ true)

del-DeletionOf :
    (c : Core) (a : ℕ)
    → DeletionOf (is_listed c a && ((c.info a).usecount == 0)) c a (del_ntd_device c a)
unfolding del_ntd_device DeletionOf
del-DeletionOf c a = by_tests (is_listed c a) ((c.info a).usecount == 0)
  where
    by_tests :
        (listed unused : Bool)
        → DeletionOf (listed && unused) c a (
            if not listed
            then (neg enodev, c)
            else if not unused
            then (neg ebusy, c)
            else (pos 0, record c { ntd_idr = idr_remove c.ntd_idr (c.info a).index }))
    by_tests true true = refl
    by_tests true false = (refl, refl)
    by_tests false unused = (refl, refl)

-- The slaves of a core, deleted by del_ntd_device
abbrev pub deleting : NtdInfo → Core → ℤ × Core
deleting slave c = del_ntd_device c slave.addr

-- What is to be shown of a list that starts with `slave`, from the result of its deletion on
Left : Core → ℕ → NtdInfo → List NtdInfo → ℤ → (mine idle : Bool) → ℤ → Core → Type 0
Left c master slave list err mine idle r c1 =
    let rest =
      del_ntd_partitions deleting master list (if mine then c1 else c)
        (if mine && is_neg r then r else err) in
    ((if mine && not (is_neg r) then rest.1 else slave ∷ rest.1)
      ≡ (if mine && idle then kept_slaves c master list else slave ∷ kept_slaves c master list))
    × (rest.2 ≡ record c {
      ntd_idr =
          cleared c master list
            (if mine && idle then idr_remove c.ntd_idr (c.info slave.addr).index else c.ntd_idr);
    })

-- What del_ntd_partitions leaves of a list and of the table
abbrev pub IsKept : ℕ → List NtdInfo → Core → ℤ × List NtdInfo × Core → Type 0
IsKept master list c r =
    (r.1 ≡ kept_slaves c master list)
    × (r.2 ≡ record c { ntd_idr = cleared c master list c.ntd_idr })

deletion-Left :
    (c : Core) (master : ℕ) (slave : NtdInfo) (list : List NtdInfo) (err : ℤ)
    → ((c1 : Core) (e : ℤ)
        → Apart c1.info list
        → IsKept master list c1 (del_ntd_partitions deleting master list c1 e))
    → Apart c.info (slave ∷ list)
    → (mine idle : Bool) (r : ℤ) (c1 : Core) → DeletionOf idle c slave.addr (r, c1)
    → Left c master slave list err mine idle r c1
unfolding Left DeletionOf
deletion-Left c master slave list err ih h true true r c1 d =
    let i = (c.info slave.addr).index in
    let (e, f) = ih (removed c i) err h.1 in
    subst (λ x. Left c master slave list err true true x.0 x.1) (sym d)
      (
        e ∙ kept-removed c i master list h.0,
        f
            ∙ ap (λ t. record c { ntd_idr = t })
                (cleared-removed c i master list (idr_remove c.ntd_idr i) h.0),
      )
deletion-Left c master slave list err ih h true false r c1 d =
    let (e, f) = ih c r h.1 in
    subst (λ x. Left c master slave list err true false r x) (sym d.0)
      (rw (d.1) (ap (λ l. slave ∷ l) e, f))
deletion-Left c master slave list err ih h false idle r c1 d =
    let (e, f) = ih c err h.1 in (ap (λ l. slave ∷ l) e, f)

-- The slaves of a master that are in the table without users go, from the list and from the table;
-- all others stay in their order, those of the master whose deletion is refused included. The slaves
-- have different numbers.
pub del_partitions-IsKept :
    (master : ℕ) (list : List NtdInfo) (c : Core) (err : ℤ)
    → Apart c.info list
    → IsKept master list c (del_ntd_partitions deleting master list c err)
unfolding del_ntd_partitions kept_slaves cleared Left
del_partitions-IsKept master [] c err h = (refl, refl)
del_partitions-IsKept master (slave ∷ list) c err h =
    deletion-Left c master slave list err (del_partitions-IsKept master list) h
      (is_slave_of master slave) (is_idle c slave) (deleting slave c).0 (deleting slave c).1
      (del-DeletionOf c slave.addr)
