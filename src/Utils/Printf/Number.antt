-- ===== src/Utils/Printf/Number.antt =====
-- What `rtx_sprintf` writes for a number that is not negative.
use rtx.Base.{
  ℕ, zero, suc, ◌+◌, ◌-◌, ◌*◌, ◌/◌, ◌%◌, ◌<◌, ◌≤◌, ◌≡◌, refl, ap, ◌∙◌, true, false, Bool, ==_cases,
  inl, inr, Bool-cases, List, [], ◌∷◌, ◌++◌, length, some, arith, ltb, if◌then◌else◌,
}
use rtx.Base.Int.{pos}
use rtx.Base.Word.{u32}
use rtx.Utils.{rtx_atoi}
use rtx.Utils.Spells.{chars, NonZero, Spells-chars}
use rtx.Utils.Decimal.{Decimal, value, atoi-value}
use rtx.Utils.Printf.{
  put_all, pad, size_loop, emit_loop, pad_number, put_number, int, text, rtx_sprintf, go_on, go,
  stop, convert, directive, width, flag, print_loop,
}
use rtx.Utils.Printf.Digits.{
  pow10, HasDigits, HasDigits-of_lt, size_loop-HasDigits, emit_loop-value,
}

pub put_all-put_all : (ds a b : List ℕ) → put_all (put_all ds a) b ≡ put_all a (ds ++ b)
put_all-put_all [] a b = refl
put_all-put_all (d ∷ ds) a b = put_all-put_all ds (d ∷ a) b

append_nil : (ds : List ℕ) → ds ++ [] ≡ ds
append_nil [] = refl
append_nil (d ∷ ds) = ap (λ t. d ∷ t) (append_nil ds)

pad_number_lem :
    (size spaces : ℕ) (zero_pad : Bool) (out : List ℕ)
    → pad_number size spaces zero_pad false out
      ≡ some (pad (spaces - size) (if zero_pad then 48 else 32) out)
unfolding pad_number pad
pad_number_lem size spaces zero_pad out = elim (Bool-cases (ltb size spaces)) [
  | inl e ↦ rw e refl
  | inr e ↦ let full : spaces - size ≡ 0 = ground arith in rw (e, full) refl
]

-- With `m` digits and a pad up to the width.
put_number-digits :
    (fuel n m : ℕ) (zero_pad : Bool) (spaces : ℕ) (out : List ℕ)
    → HasDigits n (suc m)
    → suc m ≤ 9
    → suc m < fuel
    → (ds : List ℕ) × (length ds ≡ suc m)
      × Decimal ds
      × (value 0 ds ≡ n)
      × (put_number fuel zero_pad spaces (pos n) out
          ≡ some (put_all ds (pad (spaces - suc m) (if zero_pad then 48 else 32) out)))
unfolding put_number pad_number pad pow10
put_number-digits fuel n m zero_pad spaces out (below, d) small enough =
    let counted =
      size_loop-HasDigits fuel n 0 (suc m) (below, d) small (omega arith) (omega arith) in
    let place : pow10 (suc m) / 10 ≡ pow10 m = omega arith in
    let (ds, runs, dec, size, val) =
      emit_loop-value m n (pad (spaces - suc m) (if zero_pad then 48 else 32) out) below in
    let filled = pad_number_lem (suc m) spaces zero_pad out in
    (ds, size, dec, val 0 ∙ omega arith, rw (put_number, counted, filled, place, runs) refl)

Decimal-NonZero : (cs : List ℕ) → Decimal cs → NonZero cs
Decimal-NonZero [] d = tt
Decimal-NonZero (c ∷ cs) (low, high, d) = (omega arith, Decimal-NonZero cs d)

atoi-chars :
    (fuel n old : ℕ) (cs : List ℕ)
    → 10 < fuel
    → n < 1000000000
    → 0 < length cs
    → length cs ≤ 9
    → Decimal cs
    → value 0 cs ≡ n
    → rtx_atoi fuel (some (chars cs)) (some old) ≡ some (pos 1, some n)
atoi-chars fuel n old [] enough below some_digits few dec val = absurd (omega arith)
atoi-chars fuel n old (c ∷ cs) enough below some_digits few dec val =
    let wrapped : value 0 (c ∷ cs) % u32 ≡ n = omega (arith, val) in
    let spelt = Spells-chars (c ∷ cs) (Decimal-NonZero (c ∷ cs) dec) in
    atoi-value fuel (chars (c ∷ cs)) old c cs spelt dec (omega arith)
    ∙ ap (λ k. some (pos 1, some k)) wrapped

sprintf-one :
    (fuel n m : ℕ) (ds : List ℕ)
    → put_number (suc fuel) false 0 (pos n) [] ≡ some (put_all ds (pad (0 - m) 32 []))
    → rtx_sprintf (suc (suc fuel)) (b'%' ∷ b'd' ∷ []) (int (pos n) ∷ []) ≡ text ds
unfolding rtx_sprintf print_loop flag width directive convert pad
sprintf-one fuel n m ds runs =
    let unpadded : 0 - m ≡ 0 = omega arith in
    ap
      (λ r. elim (go_on [] [] r) [
        | go f ps out ↦ print_loop (suc fuel) f ps out
        | stop printed ↦ printed
      ])
      runs
    ∙ ap (λ k. text (put_all (put_all ds (pad k 32 [])) [])) unpadded
    ∙ ap text (put_all-put_all ds [] [] ∙ append_nil ds)

-- `rtx_sprintf` with the format "%d" and a parameter between 1 and 999999999 ends on fuel of 11
-- or more and writes decimal digits, nine at most, and nothing else; and `rtx_atoi` reads the
-- parameter back from them.
pub sprintf-atoi :
    (fuel n old : ℕ)
    → 10 < fuel
    → 0 < n
    → n < 1000000000
    → (cs : List ℕ) × (rtx_sprintf fuel (b'%' ∷ b'd' ∷ []) (int (pos n) ∷ []) ≡ text cs)
      × Decimal cs
      × (length cs ≤ 9)
      × (rtx_atoi fuel (some (chars cs)) (some old) ≡ some (pos 1, some n))
unfolding pow10 pad
sprintf-atoi zero n old enough h below = absurd (omega arith)
sprintf-atoi (suc zero) n old enough h below = absurd (omega arith)
sprintf-atoi (suc (suc fuel)) n old enough h below =
    let (m, le, d) = HasDigits-of_lt 9 n h below in
    let (ds, size, dec, val, runs) =
      put_number-digits (suc fuel) n m false 0 [] d le (omega arith) in
    let few : length ds ≤ 9 = omega (arith, size) in
    (
      ds,
      sprintf-one fuel n (suc m) ds runs,
      dec,
      few,
      atoi-chars (suc (suc fuel)) n old ds enough below (omega (arith, size)) few dec val,
    )

-- HasDigits for one and for two digits.
one_digit : (n : ℕ) → 0 < n → n < 10 → HasDigits n 1
unfolding pow10
one_digit n h below = (omega arith, λ k lt. let z : k ≡ 0 = omega arith in rw z (omega arith))

two_places : (n : ℕ) → 10 ≤ n → n < 100 → HasDigits n 2
unfolding pow10
two_places n h below = (
  omega arith,
  λ k lt. elim (==_cases k 0) [
    | inl (e, z) ↦ rw z (omega arith)
    | inr (e, z) ↦ let one : k ≡ 1 = omega arith in rw one (omega arith)
  ],
)

-- "%02d"
pub put_number-two_digits :
    (fuel n : ℕ) (out : List ℕ)
    → 2 < fuel
    → n < 100
    → put_number fuel true 2 (pos n) out ≡ some ((48 + n % 10) ∷ (48 + n / 10) ∷ out)
unfolding put_number pad_number pad size_loop emit_loop pow10
put_number-two_digits zero n out enough below = absurd (omega arith)
put_number-two_digits (suc fuel) n out enough below = elim (==_cases n 0) [
  | inl (e, z) ↦ rw z refl
  | inr (e, ne) ↦ elim (Bool-cases (ltb n 10)) [
    | inl e ↦
        let d = one_digit n (omega arith) (ground arith) in
        let counted =
          size_loop-HasDigits (suc fuel) n 0 1 d (omega arith) (omega arith) (omega arith) in
        let low : n / 1 ≡ n % 10 = ground arith in
        let high : 0 ≡ n / 10 = ground arith in
        rw (put_number, counted, low) (ap (λ h. some ((48 + n % 10) ∷ (48 + h) ∷ out)) high)
    | inr e ↦
        let d = two_places n (ground arith) below in
        let counted =
          size_loop-HasDigits (suc fuel) n 0 2 d (omega arith) (omega arith) (omega arith) in
        let low : (n - n / 10 * 10) / 1 ≡ n % 10 = omega arith in rw (put_number, counted, low) refl
  ]
]
