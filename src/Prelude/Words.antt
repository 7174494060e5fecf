-- ===== src/Prelude/Words.antt =====
-- Machine words: wrap-around, shifts and single bits, over the native numbers.
use Prim.Native.Nat.{ℕ, zero, suc, ◌+◌, ◌*◌, ◌/◌, ◌%◌, ◌^◌}
use mathlib.Core.Bool.{Bool, ◌&&◌, ◌||◌}
use amlnf.Prelude.Tests.{◌==◌, if◌then◌else◌}

abbrev pub u32 : ℕ → ℕ
u32 x = x % 2 ^ 32

abbrev pub u64 : ℕ → ℕ
u64 x = x % 2 ^ 64

-- `x >> k`
abbrev pub shr : ℕ → ℕ → ℕ
shr x k = x / 2 ^ k

-- The kernel's `ffs` of a 32-bit word: the place of the lowest one bit, counted from 1; 0 for 0.
ffs_from : ℕ → ℕ → ℕ
ffs_from zero x = 0
ffs_from (suc n) x =
    let rest = ffs_from n (x / 2) in if x % 2 == 1 then 1 else if rest == 0 then 0 else rest + 1

unfoldable pub ffs : ℕ → ℕ
unfolding ffs_from
ffs x = ffs_from 32 x

-- The bitwise operations of 32-bit words: `bit` gives each bit of the result.
bitwise_from : ℕ → (Bool → Bool → Bool) → ℕ → ℕ → ℕ
bitwise_from zero bit x y = 0
bitwise_from (suc n) bit x y =
    (if bit (x % 2 == 1) (y % 2 == 1) then 1 else 0) + 2 * bitwise_from n bit (x / 2) (y / 2)

-- `x & y`
unfoldable pub and_word : ℕ → ℕ → ℕ
unfolding bitwise_from
and_word x y = bitwise_from 32 ◌&&◌ x y

-- `x | y`
unfoldable pub or_word : ℕ → ℕ → ℕ
unfolding bitwise_from
or_word x y = bitwise_from 32 ◌||◌ x y

-- `x & y` of 64-bit words
unfoldable pub and_long : ℕ → ℕ → ℕ
unfolding bitwise_from
and_long x y = bitwise_from 64 ◌&&◌ x y
