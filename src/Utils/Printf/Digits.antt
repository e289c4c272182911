-- ===== src/Utils/Printf/Digits.antt =====
-- The loops of `rtx_sprintf` that count and write the digits of a number.
use native.Mathlib.Nat.{div-add-mod', mod-lt, div-lt_iff_lt-mul, div-eq_of_lt, le-div_iff_mul-le}
use rtx.Base.{
  ℕ, zero, suc, ◌+◌, ◌-◌, ◌*◌, ◌/◌, ◌%◌, ◌<◌, ◌≤◌, ◌≡◌, ◌≢◌, ap, sym, subst, inl, inr, refl, ◌∙◌,
  true, false, ==_cases, ==_of_ne, List, [], ◌∷◌, length, some, arith, ltb, leb, ◌||◌, ◌==◌,
}
use rtx.Base.Word.{u32, i31}
use rtx.Utils.Decimal.{Decimal, value}
use rtx.Utils.Printf.{put_all, size_loop, emit_loop}

unfoldable pub pow10 : ℕ → ℕ
pow10 zero = 1
pow10 (suc k) = 10 * pow10 k

pub pow10_pos : (k : ℕ) → 0 < pow10 k
unfolding pow10
pow10_pos zero = omega arith
pow10_pos (suc k) = omega (arith, pow10_pos k)

pow10_mono : (k m : ℕ) → k ≤ m → pow10 k ≤ pow10 m
unfolding pow10
pow10_mono k zero h = ground arith
pow10_mono k (suc m) h = elim (==_cases k (suc m)) [
  | inl (e, eq) ↦ rw eq (omega arith)
  | inr (e, ne) ↦ omega (arith, pow10_mono k m)
]

pow10_ne : (k : ℕ) → pow10 k ≢ 0
pow10_ne k h = omega (arith, pow10_pos k)

above_of_div : {n p : ℕ} → 0 < p → n / p ≢ 0 → p ≤ n
above_of_div {n} {p} pp ne =
    let one : 1 ≤ n / p = omega arith in
    let scaled : 1 * p ≤ n = (le-div_iff_mul-le pp).0 one in omega arith

below_of_div : {n p : ℕ} → 0 < p → n / p ≡ 0 → n < p
below_of_div {n} {p} pp eq =
    let none_of : n / p < 1 = omega arith in
    let scaled : n < 1 * p = (div-lt_iff_lt-mul pp).0 none_of in omega arith

div_one : (n : ℕ) → (n / 1 ≡ n) × (n / 1 * 1 ≡ n)
div_one n = (omega arith, omega arith)

pow10_next : (k : ℕ) → pow10 (k + 1) ≡ 10 * pow10 k
unfolding pow10
pow10_next k = let e : k + 1 ≡ suc k = omega arith in ap pow10 e

last_digit : {n p : ℕ} → n < p → ltb 0 (n / p) ≡ false
last_digit {n} {p} h = let z : n / p ≡ 0 = div-eq_of_lt h in ground arith

more_digits : {n p : ℕ} → 0 < p → p ≤ n → ltb 0 (n / p) ≡ true
more_digits {n} {p} pp h =
    let scaled : 1 * p ≤ n = omega arith in
    let some_of : 1 ≤ n / p = (le-div_iff_mul-le pp).1 scaled in ground arith

-- Dividing by the place of the first digit.
first_digit : {n p : ℕ} → 0 < p → n < 10 * p → (n / p < 10) × (n - n / p * p < p) × (n / p * p ≤ n)
first_digit {n} {p} pp h =
    let parts : n / p * p + n % p ≡ n = div-add-mod' n p in
    let rem : n % p < p = mod-lt n pp in
    let high : n / p < 10 = (div-lt_iff_lt-mul pp).1 h in (high, omega arith, omega arith)

shift_in :
    (acc q p n : ℕ) → q * p ≤ n → (acc * 10 + (48 + q - 48)) * p + (n - q * p) ≡ acc * (10 * p) + n
shift_in acc q p n h = let q' : 48 + q - 48 ≡ q = omega arith in rw q' (grind arith)

-- A number that is not 0 has as many digits as this says.
abbrev pub HasDigits : (n m : ℕ) → Type 0
HasDigits n m = (n < pow10 m) × ((k : ℕ) → k < m → pow10 k ≤ n)

pub HasDigits-of_lt : (b n : ℕ) → 0 < n → n < pow10 b → (m : ℕ) × (suc m ≤ b) × HasDigits n (suc m)
unfolding pow10
HasDigits-of_lt zero n h below = absurd (omega arith)
HasDigits-of_lt (suc b) n h below = elim (==_cases (n / pow10 b) 0) [
  | inl (e, eq) ↦
      let small : n < pow10 b = below_of_div (pow10_pos b) eq in
      let (m, le, d) = HasDigits-of_lt b n h small in (m, omega arith, d)
  | inr (e, ne) ↦ (
    b,
    omega arith,
    (
      below,
      λ k lt.
          let above : pow10 b ≤ n = above_of_div (pow10_pos b) ne in
          omega (arith, pow10_mono k b (omega arith)),
    ),
  )
]

pub size_loop-HasDigits :
    (fuel n k m : ℕ)
    → HasDigits n m
    → m ≤ 9
    → k ≤ m
    → m - k < fuel
    → size_loop fuel n k (pow10 k) ≡ some (m, pow10 m)
unfolding size_loop pow10
size_loop-HasDigits zero n k m d small le enough = absurd (omega arith)
size_loop-HasDigits (suc fuel) n k m (below, d) small le enough =
    let bound : pow10 m ≤ 1000000000 = pow10_mono m 9 small in
    let ndiv : ((pow10 k == 0) || leb i31 (pow10 k)) ≡ false =
      ground (arith, pow10_ne k, pow10_mono k m le) in
    let range : ltb n i31 ≡ true = ground arith in
    elim (==_cases k m) [
      | inl (e, eq) ↦
          let last : ltb 0 (n / pow10 k) ≡ false =
            last_digit (subst (λ j. n < pow10 j) (sym eq) below) in
          rw (ndiv, range, last) (ap (λ j. some (j, pow10 j)) eq)
      | inr (e, ne) ↦
          let more : ltb 0 (n / pow10 k) ≡ true = more_digits (pow10_pos k) (d k (omega arith)) in
          let next : pow10 k * 10 % u32 ≡ pow10 (k + 1) =
            omega (arith, pow10_next k, pow10_mono (k + 1) m (omega arith)) in
          rw (ndiv, range, more, next)
            (size_loop-HasDigits fuel n (k + 1) m (below, d) small (omega arith) (omega arith))
    ]

pub emit_loop-value :
    (k n : ℕ) (out : List ℕ)
    → n < pow10 (suc k)
    → (ds : List ℕ) × (emit_loop (suc k) n (pow10 k) out ≡ some (put_all ds out))
      × Decimal ds
      × (length ds ≡ suc k)
      × ((acc : ℕ) → value acc ds ≡ acc * pow10 (suc k) + n)
unfolding emit_loop pow10
emit_loop-value zero n out h =
    let (q, keep) = div_one n in
    (
      (48 + n) ∷ [],
      ap (λ d. some ((48 + d) ∷ out)) q,
      (omega arith, omega arith, tt),
      refl,
      λ acc. omega arith,
    )
emit_loop-value (suc k) n out h =
    let p = pow10 (suc k) in
    let ndiv : (pow10 (suc k) == 0) ≡ false = ==_of_ne (pow10_ne (suc k)) in
    let (high, rest, within) = first_digit (pow10_pos (suc k)) h in
    let place : pow10 (suc k) / 10 ≡ pow10 k = omega arith in
    let (ds, runs, dec, size, val) = emit_loop-value k (n - n / p * p) ((48 + n / p) ∷ out) rest in
    (
      (48 + n / p) ∷ ds,
      rw (emit_loop, ndiv, place) runs,
      (omega arith, omega arith, dec),
      omega (arith, size),
      λ acc. val (acc * 10 + (48 + n / p - 48)) ∙ shift_in acc (n / p) p n within,
    )
