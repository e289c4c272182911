-- ===== src/Utils/Decimal.antt =====
-- `rtx_atoi` on decimal numbers.
use rtx.Base.{
  ℕ, zero, suc, ◌+◌, ◌-◌, ◌*◌, ◌%◌, ◌<◌, ◌≤◌, ◌≡◌, refl, true, false, Bool, ◌==◌, List, [], ◌∷◌,
  length, some, arith, leb, ltb, ◌||◌,
}
use rtx.Base.Int.{pos}
use rtx.Base.Word.{u32}
use rtx.Utils.{Bytes, digit, digits_loop, spaces_loop, rtx_atoi}
use rtx.Utils.Spells.{Spells}

-- The characters are decimal digits.
abbrev pub Decimal : List ℕ → Type 0
Decimal [] = Unit {0}
Decimal (c ∷ cs) = (48 ≤ c) × (c ≤ 57) × Decimal cs

-- The number whose digits follow those of `n`.
abbrev pub value : ℕ → List ℕ → ℕ
value n [] = n
value n (c ∷ cs) = value (n * 10 + (c - 48)) cs

-- Whether a digit has been seen once `cs` has been read.
abbrev pub seen : Bool → List ℕ → Bool
seen ret [] = ret
seen ret (c ∷ cs) = seen true cs

seen-true : (cs : List ℕ) → seen true cs ≡ true
seen-true [] = refl
seen-true (c ∷ cs) = seen-true cs

digits_loop-value :
    (fuel i n : ℕ) (ret : Bool) (b : Bytes) (cs : List ℕ)
    → Spells b i cs
    → Decimal cs
    → length cs < fuel
    → digits_loop fuel i (n % u32) ret b ≡ some (some (value n cs % u32, seen ret cs))
unfolding digits_loop
digits_loop-value zero i n ret b cs h d enough = absurd (omega arith)
digits_loop-value (suc fuel) i n ret b [] h d enough = rw h refl
digits_loop-value (suc fuel) i n ret b (c ∷ cs) (at, ne, rest) (low, high, more) enough =
    let open_end : (b i == 0) ≡ false = ground arith in
    let accepted : (leb 128 (digit (b i)) || ltb 10 (digit (b i))) ≡ false = ground arith in
    let next : (n % u32 * 10 + digit (b i)) % u32 ≡ (n * 10 + (c - 48)) % u32 = omega arith in
    rw (open_end, accepted, next)
      (digits_loop-value fuel (i + 1) (n * 10 + (c - 48)) true b cs rest more (omega arith))

-- `rtx_atoi` of a string of one or more decimal digits, with no sign and no space, ends on fuel
-- of more than its length, returns 1 and stores the number that the digits stand for, in 32 bits.
pub atoi-value :
    (fuel : ℕ) (b : Bytes) (old c : ℕ) (cs : List ℕ)
    → Spells b 0 (c ∷ cs)
    → Decimal (c ∷ cs)
    → suc (length cs) < fuel
    → rtx_atoi fuel (some b) (some old) ≡ some (pos 1, some (value 0 (c ∷ cs) % u32))
unfolding rtx_atoi spaces_loop
atoi-value zero b old c cs h d enough = absurd (omega arith)
atoi-value (suc fuel) b old c cs (at, ne, rest) (low, high, more) enough =
    let digits =
      digits_loop-value (suc fuel) 0 0 false b (c ∷ cs) (at, ne, rest) (low, high, more) enough in
    let first : (b 0 == 32) ≡ false = ground arith in
    let unsigned : (b 0 == 45) ≡ false = ground arith in
    let unsigned' : (b 0 == 43) ≡ false = ground arith in
    let no_spaces : spaces_loop (suc fuel) 0 b ≡ some 0 = rw first refl in
    rw (rtx_atoi, no_spaces, unsigned, unsigned', digits, seen-true cs) (rw unsigned refl)
