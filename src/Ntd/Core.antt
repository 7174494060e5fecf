-- ===== src/Ntd/Core.antt =====
-- ntd/aml_ntdcore.c: the table of NTD devices, their use counts, and the allocation that backs off.
-- The kernel's idr, module counts and device registration are parameters.
pub mod Use
pub mod Added
pub mod Backoff
pub mod Search
use amlnf.Prelude.{
  ℕ, zero, suc, ◌+◌, ◌-◌, ◌*◌, ◌/◌, ◌%◌, ◌^◌, Bool, true, false, ◌&&◌, ◌||◌, not, Option, none,
  some, List, [], ◌∷◌, ◌==◌, ltb, if◌then◌else◌,
}
use amlnf.Prelude.Int.{ℤ, pos, negsuc, neg, is_neg, is_zero}
use amlnf.Prelude.Words.{u32}
use amlnf.Ntd.{NtdInfo}

abbrev pub enodev : ℕ
enodev = 19

abbrev pub ebusy : ℕ
ebusy = 16

-- The table of the idr, in the order of the numbers: numbers of devices, with the addresses of their
-- records.
abbrev pub Idr : Type 0
Idr = List (ℕ × ℕ)

-- `ntd_idr`, the records by address, and `ntd_init_available`, which is 1 until the first use.
pub record Core : Type 0 where
  pub ntd_idr : Idr
  pub info : ℕ → NtdInfo
  pub init_available : Bool

-- What the kernel answers: `idr_alloc` by the table, `init_ntd`, `device_register` and
-- `try_module_get` by the record's address.
pub record CoreCalls : Type 0 where
  pub idr_alloc : Idr → Option ℕ
  pub init_ntd : ℤ
  pub device_register : ℕ → ℤ
  pub try_module_get : ℕ → Bool

unfoldable pub idr_find : Idr → ℕ → Option ℕ
idr_find [] i = none
idr_find ((j, a) ∷ t) i = let rest = idr_find t i in if i == j then some a else rest

unfoldable pub idr_insert : ℕ → ℕ → Idr → Idr
idr_insert i a [] = (i, a) ∷ []
idr_insert i a ((j, b) ∷ t) =
    let rest = idr_insert i a t in if ltb i j then (i, a) ∷ (j, b) ∷ t else (j, b) ∷ rest

unfoldable pub idr_remove : Idr → ℕ → Idr
idr_remove [] i = []
idr_remove ((j, a) ∷ t) i = let rest = idr_remove t i in if i == j then rest else (j, a) ∷ rest

-- A write to the record at `a`.
abbrev pub set_info : (ℕ → NtdInfo) → ℕ → NtdInfo → ℕ → NtdInfo
set_info info a ntd b = if b == a then ntd else info b

-- A failing `init_ntd` leaves the new entry in the table.
unfoldable pub add_ntd_device : CoreCalls → Core → ℕ → Option (ℕ × Core)
unfolding idr_insert idr_remove
add_ntd_device calls c a =
    if (c.info a).pagesize == 0 then none else elim (calls.idr_alloc c.ntd_idr) [
      | none ↦ some (1, c)
      | some i ↦
          let added = record c {
            ntd_idr = idr_insert i a c.ntd_idr;
            info = set_info c.info a (record (c.info a) { index = i; usecount = 0 });
            init_available = false;
          } in
          some (
            if c.init_available && not (is_zero calls.init_ntd)
            then (1, added)
            else if is_zero (calls.device_register a)
            then (0, added)
            else (1, record added { ntd_idr = idr_remove added.ntd_idr i }))
    ]

-- Whether the table has the record's address at its number.
abbrev pub is_listed : Core → ℕ → Bool
is_listed c a = elim (idr_find c.ntd_idr (c.info a).index) [ none ↦ false | some b ↦ b == a ]

unfoldable pub del_ntd_device : Core → ℕ → ℤ × Core
unfolding idr_find idr_remove
del_ntd_device c a =
    if not (is_listed c a)
    then (neg enodev, c)
    else if not ((c.info a).usecount == 0)
    then (neg ebusy, c)
    else (pos 0, record c { ntd_idr = idr_remove c.ntd_idr (c.info a).index })

-- The `get_device` method of every record that this driver makes is NULL.
unfoldable pub get_ntd : CoreCalls → Core → ℕ → ℤ × Core
get_ntd calls c a =
    if calls.try_module_get a
    then (
      pos 0,
      record c {
        info = set_info c.info a (record (c.info a) { usecount = (c.info a).usecount + 1 });
      },
    )
    else (neg enodev, c)

-- The search of `get_ntd_device`. The loop of `ntd_for_each_device` runs over `ntd`, whatever its
-- argument is, so that `other` is the same in each round.
unfoldable pub search_table : ℕ → Idr → Option ℕ
search_table other [] = none
search_table other ((i, ntd) ∷ t) =
    let rest = search_table other t in if other == ntd then some ntd else rest

-- The error of the code, or the address of the device found.
unfoldable pub finish_get : CoreCalls → Core → Option ℕ → (ℤ × ℕ) × Core
unfolding get_ntd
finish_get calls c none = ((neg enodev, 0), c)
finish_get calls c (some a) =
    let (err, c') = get_ntd calls c a in ((err, if is_zero err then a else 0), c')

-- `num` is -1 for a search by address. An address 0 is NULL.
unfoldable pub get_ntd_device : CoreCalls → Core → ℕ → ℤ → (ℤ × ℕ) × Core
unfolding idr_find search_table finish_get
get_ntd_device calls c a (pos num) = finish_get calls c (elim (idr_find c.ntd_idr num) [
  | none ↦ none
  | some b ↦ if not (a == 0) && not (a == b) then none else some b
])
get_ntd_device calls c a (negsuc zero) = finish_get calls c (search_table 0 c.ntd_idr)
get_ntd_device calls c a (negsuc (suc n)) = finish_get calls c none

-- `strcmp(a, b) == 0`, for lists without the 0 that ends a string
unfoldable pub str_eq : List ℕ → List ℕ → Bool
str_eq [] [] = true
str_eq [] (y ∷ b) = false
str_eq (x ∷ a) [] = false
str_eq (x ∷ a) (y ∷ b) = let rest = str_eq a b in (x == y) && rest

-- `other->name` as strcmp reads it: none is a fault, on NULL or on a record without a name.
abbrev pub name_at : Core → ℕ → Option (List ℕ)
name_at c other = if other == 0 then none else (c.info other).name

-- The loop of `get_ntd_device_nm`, which runs over `ntd` and looks at `other`. Its result is the
-- `ntd` that it leaves: none at the end of the table. The outer none is a fault.
unfoldable pub search_nm : Core → ℕ → List ℕ → Idr → Option (Option ℕ)
unfolding str_eq
search_nm c other name [] = some none
search_nm c other name ((i, ntd) ∷ t) =
    let rest = search_nm c other name t in
    elim (name_at c other) [
      | none ↦ none
      | some found ↦ if str_eq name found then some (some other) else rest
    ]

-- `other` is NULL from the start.
unfoldable pub get_ntd_device_nm : CoreCalls → Core → List ℕ → Option ((ℤ × ℕ) × Core)
unfolding search_nm finish_get
get_ntd_device_nm calls c name = elim (search_nm c 0 name c.ntd_idr) [
  | none ↦ none
  | some ntd ↦ some (finish_get calls c ntd)
]

-- `BUG_ON(ntd->usecount < 0)` is none.
unfoldable pub put_ntd_device : Core → ℕ → Option Core
put_ntd_device c a =
    if (c.info a).usecount == 0
    then none
    else some (record c {
      info = set_info c.info a (record (c.info a) { usecount = (c.info a).usecount - 1 });
    })

-- `ALIGN(x, a)` for a power of two `a`, of 32-bit words
abbrev pub align : ℕ → ℕ → ℕ
align x a = u32 (x + (a - 1)) / a * a

-- The loop of `ntd_kmalloc_up_to`: `kmalloc` answers by the size, 0 for NULL. The result is the
-- buffer and the size; none is out of fuel.
unfoldable pub back_off : ℕ → (ℕ → ℕ) → ℕ → ℕ → ℕ → Option (ℕ × ℕ)
back_off zero kmalloc min_alloc pagesize size = none
back_off (suc fuel) kmalloc min_alloc pagesize size =
    let rest = back_off fuel kmalloc min_alloc pagesize (align (size / 2) pagesize) in
    if not (ltb min_alloc size)
    then some (kmalloc size, size)
    else if not (kmalloc size == 0)
    then some (kmalloc size, size)
    else rest

-- `PAGE_SIZE` and `KMALLOC_MAX_SIZE` are the kernel's.
unfoldable pub ntd_kmalloc_up_to : ℕ → ℕ → (ℕ → ℕ) → ℕ → ℕ → Option (ℕ × ℕ)
unfolding back_off
ntd_kmalloc_up_to page_size max_size kmalloc pagesize size =
    let min_alloc = if ltb page_size pagesize then pagesize else page_size in
    let start = if ltb max_size size then max_size else size in
    back_off (suc start) kmalloc min_alloc pagesize start
