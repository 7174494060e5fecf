-- ===== src/Ntd/Core/Search.antt =====
-- ntd/aml_ntdcore.c: the searches of get_ntd_device and get_ntd_device_nm.
use amlnf.Prelude.{ℕ, zero, ◌≡◌, ◌≢◌, refl, ap, false, none, some, List, [], ◌∷◌, ◌==◌, arith}
use amlnf.Prelude.Int.{neg, negsuc}
use amlnf.Ntd.Core.{
  Idr, Core, CoreCalls, search_table, search_nm, finish_get, get_ntd_device, get_ntd_device_nm,
  enodev,
}

-- No entry has the address NULL.
abbrev pub NoNull : Idr → Type 0
NoNull [] = Unit
NoNull ((i, a) ∷ t) = (a ≢ 0) × NoNull t

search_null : (t : Idr) → NoNull t → search_table 0 t ≡ none
unfolding search_table
search_null [] n = refl
search_null ((i, a) ∷ t) n =
    let other : (0 == a) ≡ false = ground (arith, n.0) in rw (other) (search_null t n.1)

-- The search by name reads through `other`, which is NULL, in its first round.
search_nm-faults : (c : Core) (name : List ℕ) (t : Idr) → t ≢ [] → search_nm c 0 name t ≡ none
unfolding search_nm
search_nm-faults c name [] h = absurd (h refl)
search_nm-faults c name (x ∷ t) h = refl

-- In a table without NULL, a search by address answers -ENODEV and changes nothing, even for a device
-- that is in the table, and a search by name in a table that is not empty is a fault.
pub search-finds_none :
    (calls : CoreCalls) (c : Core) (a : ℕ) (name : List ℕ)
    → NoNull c.ntd_idr
    → c.ntd_idr ≢ []
    → (get_ntd_device calls c a (negsuc zero) ≡ ((neg enodev, 0), c))
      × (get_ntd_device_nm calls c name ≡ none)
unfolding get_ntd_device get_ntd_device_nm finish_get
search-finds_none calls c a name n some_entry = (
  ap (finish_get calls c) (search_null c.ntd_idr n),
  ap (λ o. elim o [ none ↦ none | some ntd ↦ some (finish_get calls c ntd) ])
      (search_nm-faults c name c.ntd_idr some_entry),
)
