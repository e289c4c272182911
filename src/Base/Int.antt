-- ===== src/Base/Int.antt =====
-- Signed integers over the native numbers, for pids, message types, return codes and counters.
use Prim.Native.Nat.{ℕ, suc, ◌-◌}
use mathlib.Core.Path.{◌≡◌}
use mathlib.Core.Bool.{Bool, true, false}
use native.Mathlib.Omega.{arith}
use rtx.Base.Tests.{◌==◌, if◌then◌else◌}

-- `negsuc n` is -(n + 1).
pub data ℤ : Type 0 where
  pos : ℕ → ℤ
  negsuc : ℕ → ℤ

abbrev pub eqb_ℤ : ℤ → ℤ → Bool
eqb_ℤ (pos a) (pos b) = a == b
eqb_ℤ (pos a) (negsuc b) = false
eqb_ℤ (negsuc a) (pos b) = false
eqb_ℤ (negsuc a) (negsuc b) = a == b

abbrev pub is_negative : ℤ → Bool
is_negative (pos n) = false
is_negative (negsuc n) = true

-- `i++` and `i--`.
abbrev pub incr : ℤ → ℤ
incr (pos n) = pos (suc n)
incr (negsuc n) = if n == 0 then pos 0 else negsuc (n - 1)

abbrev pub decr : ℤ → ℤ
decr (pos n) = if n == 0 then negsuc 0 else pos (n - 1)
decr (negsuc n) = negsuc (suc n)

pub eq_of_eqb_ℤ : (a b : ℤ) → eqb_ℤ a b ≡ true → a ≡ b
eq_of_eqb_ℤ (pos a) (pos b) h = ground arith
eq_of_eqb_ℤ (pos a) (negsuc b) h = ground arith
eq_of_eqb_ℤ (negsuc a) (pos b) h = ground arith
eq_of_eqb_ℤ (negsuc a) (negsuc b) h = ground arith

pub eqb_ℤ-refl : (a : ℤ) → eqb_ℤ a a ≡ true
eqb_ℤ-refl (pos a) = ground arith
eqb_ℤ-refl (negsuc a) = ground arith

pub decr-incr : (a : ℤ) → decr (incr a) ≡ a
decr-incr (pos a) = ground arith
decr-incr (negsuc a) = ground arith

-- The absolute value, as a number: the index that a signed number which is not negative stands for.
abbrev pub abs : ℤ → ℕ
abs (pos n) = n
abs (negsuc n) = suc n
