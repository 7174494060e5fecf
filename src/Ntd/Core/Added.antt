-- ===== src/Ntd/Core/Added.antt =====
-- ntd/aml_ntdcore.c: the ways in which add_ntd_device ends.
use amlnf.Prelude.{ℕ, ◌≡◌, Bool, true, false, ◌&&◌, not, if◌then◌else◌}
use amlnf.Prelude.Int.{is_zero}
use amlnf.Ntd.Core.{Core, CoreCalls, idr_insert, idr_remove, is_listed}
use amlnf.Ntd.Core.Use.{added}

-- The ways in which a registration ends: the device is in the table with no user; or it fails and
-- the table is as it was; or it fails since the first `init_ntd` does, and the device is in the table.
pub data Outcome (calls : CoreCalls) (c : Core) (a : ℕ) : ℕ × Core → Type 0 where
  registered :
      (c1 : Core) → is_listed c1 a ≡ true → (c1.info a).usecount ≡ 0 → Outcome calls c a (0, c1)
  failed : (c1 : Core) → c1.ntd_idr ≡ c.ntd_idr → Outcome calls c a (1, c1)
  left_over :
      (c1 : Core)
      → c.init_available ≡ true
      → is_zero calls.init_ntd ≡ false
      → is_listed c1 a ≡ true
      → Outcome calls c a (1, c1)

-- What follows the number, by what the kernel answers
abbrev numbered_device : Core → ℕ → ℕ → (first init registers : Bool) → ℕ × Core
numbered_device c a i first init registers =
    if first && not init
    then (1, added c a i)
    else if registers
    then (0, added c a i)
    else (1, record (added c a i) { ntd_idr = idr_remove (idr_insert i a c.ntd_idr) i })

-- The same with the answers of the calls
abbrev with_calls : CoreCalls → Core → ℕ → ℕ → ℕ × Core
with_calls calls c a i =
    numbered_device c a i c.init_available (is_zero calls.init_ntd)
      (is_zero (calls.device_register a))
