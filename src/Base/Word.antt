-- ===== src/Base/Word.antt =====
-- 32-bit words as bit patterns below 2^32. On the ColdFire port every integer type is a signed
-- 32-bit `long` (coldfire/inc/coldfire.h), so comparisons read a pattern as a signed number.
use Prim.Native.Nat.{ℕ, ◌+◌, ◌-◌, ◌/◌, ◌%◌, ◌<◌}
use mathlib.Core.Path.{◌≡◌}
use mathlib.Core.Bool.{Bool}
use native.Mathlib.Omega.{arith}
use rtx.Base.Tests.{leb, ltb, if◌then◌else◌}

abbrev pub u32 : ℕ
u32 = 4294967296

abbrev pub i31 : ℕ
i31 = 2147483648

-- The pattern of -1, which the source calls MAX_UINT32.
abbrev pub max_uint32 : ℕ
max_uint32 = 4294967295

abbrev pub add32 : ℕ → ℕ → ℕ
add32 a b = (a + b) % u32

-- The order of signed numbers, on their patterns.
abbrev pub signed_lt : ℕ → ℕ → Bool
signed_lt a b = ltb ((a + i31) % u32) ((b + i31) % u32)

abbrev pub signed_le : ℕ → ℕ → Bool
signed_le a b = leb ((a + i31) % u32) ((b + i31) % u32)

-- The place of a pattern in the order of signed numbers.
abbrev pub rank : ℕ → ℕ
rank a = (a + i31) % u32

pub rank-of_small : (a : ℕ) → a < i31 → rank a ≡ a + i31
rank-of_small a h = omega arith

-- Division and remainder of the signed number of a pattern by a positive number. Both round to 0.
abbrev pub signed_div : ℕ → ℕ → ℕ
signed_div a b = if ltb a i31 then a / b else (u32 - (u32 - a) / b) % u32

abbrev pub signed_rem : ℕ → ℕ → ℕ
signed_rem a b = if ltb a i31 then a % b else (u32 - (u32 - a) % b) % u32
