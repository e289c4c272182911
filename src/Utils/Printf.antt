-- ===== src/Utils/Printf.antt =====
-- coldfire/util/src/utils.c: `rtx_sprintf` and `strConvert`. A string here is the list of its
-- characters, without the zero at its end; a text that is being written is the list of what stands
-- in the buffer, last character first, so that `j--` takes the first one off.
pub mod Digits
pub mod Number
use rtx.Base.{
  ℕ, zero, suc, ◌+◌, ◌-◌, ◌*◌, ◌/◌, ◌%◌, ltb, leb, ◌==◌, ◌&&◌, ◌||◌, not, if◌then◌else◌, Bool, true,
  false, Option, none, some, List, [], ◌∷◌, ◌++◌,
}
use rtx.Base.Int.{ℤ, pos, negsuc, is_negative, abs}
use rtx.Base.Word.{u32, i31}

-- What a parameter points to. The end of the parameters is the NULL that ends the array.
pub data Param : Type 0 where
  chr : ℕ → Param
  str : List ℕ → Param
  int : ℤ → Param

-- The text; NULL for a missing parameter; or a fault: a read behind the format, a write before the
-- buffer, a division by zero, or a parameter of another kind than its directive.
pub data Printed : Type 0 where
  text : List ℕ → Printed
  null_param : Printed
  fault : Printed

-- `n` times the character `ch`.
unfoldable pub pad : (n ch : ℕ) → List ℕ → List ℕ
pad zero ch out = out
pad (suc n) ch out = pad n ch (ch ∷ out)

-- The characters of a string, one after the other.
abbrev pub put_all : List ℕ → List ℕ → List ℕ
put_all [] out = out
put_all (c ∷ cs) out = put_all cs (c ∷ out)

-- `while (num/div > 0) { size++; div*=10; }`, in 32 bits, where a pattern of 2^31 or more is negative.
-- A power of ten that overflows to 0 or below is a fault.
unfoldable pub size_loop : (fuel num size div : ℕ) → Option (ℕ × ℕ)
size_loop zero num size div = none
size_loop (suc fuel) num size div =
    let rest = size_loop fuel num (size + 1) (div * 10 % u32) in
    if (div == 0) || leb i31 div
    then none
    else if ltb num i31 && ltb 0 (num / div)
    then rest
    else some (size, div)

-- `while (size > 0) { … }`: the digits, from the most significant one on.
unfoldable pub emit_loop : (size num div : ℕ) → List ℕ → Option (List ℕ)
emit_loop zero num div out = some out
emit_loop (suc size) num div out =
    let rest = emit_loop size (num - num / div * div) (div / 10) ((48 + num / div) ∷ out) in
    if div == 0 then none else rest

-- `j--`
abbrev pub back : List ℕ → Option (List ℕ)
back [] = none
back (c ∷ out) = some out

-- Padding on the left, which makes room for a sign.
unfoldable pub pad_number : (size spaces : ℕ) (zero_pad neg : Bool) → List ℕ → Option (List ℕ)
unfolding pad
pad_number size spaces zero_pad neg out =
    let padded = pad (spaces - size) (if zero_pad then 48 else 32) out in
    if ltb size spaces then (if neg then back padded else some padded) else some out

-- `if (size == 0) { j--; str[j] = '0'; j++; }`
abbrev pub put_zero : (size : ℕ) → List ℕ → Option (List ℕ)
put_zero zero out = elim (back out) [ none ↦ none | some rest ↦ some (48 ∷ rest) ]
put_zero (suc size) out = some out

abbrev pub put_sign : Bool → List ℕ → List ℕ
put_sign neg out = if neg then 45 ∷ out else out

-- The directives `i`, `d` and `u`.
unfoldable pub put_number : (fuel : ℕ) (zero_pad : Bool) (spaces : ℕ) → ℤ → List ℕ → Option (List ℕ)
unfolding size_loop pad_number emit_loop
put_number fuel zero_pad spaces num out = elim (size_loop fuel (abs num) 0 1) [
  | none ↦ none
  | some (size, div) ↦ elim (pad_number size spaces zero_pad (is_negative num) out) [
    | none ↦ none
    | some padded ↦ elim (put_zero size padded) [
      | none ↦ none
      | some started ↦ emit_loop size (abs num) (div / 10) (put_sign (is_negative num) started)
    ]
  ]
]

-- The state after one directive: what is left of the format and of the parameters.
pub data Next : Type 0 where
  go : List ℕ → List Param → List ℕ → Next
  stop : Printed → Next

abbrev pub go_on : List ℕ → List Param → Option (List ℕ) → Next
go_on f ps none = stop fault
go_on f ps (some out) = go f ps out

abbrev pub is_number : ℕ → Bool
is_number c = (c == b'i') || ((c == b'd') || (c == b'u'))

-- The conversion `c`, with the parameter `p`.
unfoldable pub convert :
    (fuel : ℕ) (zero_pad : Bool) (spaces c : ℕ) (f : List ℕ) → Param → List Param → List ℕ → Next
unfolding put_number pad
convert fuel zero_pad spaces c f (chr ch) ps out =
    if c == b'c'
    then go f ps (ch ∷ pad (spaces - 1) 32 out)
    else if (c == b's') || is_number c
    then stop fault
    else go f (chr ch ∷ ps) (c ∷ b'%' ∷ out)
convert fuel zero_pad spaces c f (str t) ps out =
    if c == b's'
    then go f ps (pad spaces 32 (put_all t out))
    else if (c == b'c') || is_number c
    then stop fault
    else go f (str t ∷ ps) (c ∷ b'%' ∷ out)
convert fuel zero_pad spaces c f (int num) ps out =
    if is_number c
    then go_on f ps (put_number fuel zero_pad spaces num out)
    else if (c == b'c') || (c == b's')
    then stop fault
    else go f (int num ∷ ps) (c ∷ b'%' ∷ out)

-- Behind the width. A format that ends there is read on behind its end.
unfoldable pub directive :
    (fuel : ℕ) (zero_pad : Bool) (spaces : ℕ) (f : List ℕ) → List Param → List ℕ → Next
unfolding convert
directive fuel zero_pad spaces f [] out = stop null_param
directive fuel zero_pad spaces [] (p ∷ ps) out = stop fault
directive fuel zero_pad spaces (c ∷ f) (p ∷ ps) out = convert fuel zero_pad spaces c f p ps out

-- `int spaces = format[k] - '0'; if (spaces < 10 && spaces > 0) k++; else spaces = 0;`
unfoldable pub width : (fuel : ℕ) (zero_pad : Bool) (f : List ℕ) → List Param → List ℕ → Next
unfolding directive
width fuel zero_pad [] ps out = directive fuel zero_pad 0 [] ps out
width fuel zero_pad (c ∷ f) ps out =
    if ltb c 58 && ltb 48 c
    then directive fuel zero_pad (c - 48) f ps out
    else directive fuel zero_pad 0 (c ∷ f) ps out

-- `if (format[k] == '0') { k++; zero = TRUE; }`
unfoldable pub flag : (fuel : ℕ) (f : List ℕ) → List Param → List ℕ → Next
unfolding width
flag fuel [] ps out = width fuel false [] ps out
flag fuel (c ∷ f) ps out =
    if c == 48 then width fuel true f ps out else width fuel false (c ∷ f) ps out

-- `while (format[k] != '\0') { … }`. The fuel is for this walk and, at each number, for the one
-- that counts its digits.
unfoldable pub print_loop : (fuel : ℕ) (f : List ℕ) → List Param → List ℕ → Printed
unfolding flag
print_loop zero f ps out = fault
print_loop (suc fuel) [] ps out = text (put_all out [])
print_loop (suc fuel) (c ∷ f) ps out =
    elim (if c == b'%' then flag fuel f ps out else go f ps (c ∷ out)) [
      | go f' ps' out' ↦ print_loop fuel f' ps' out'
      | stop printed ↦ printed
    ]

unfoldable pub rtx_sprintf : (fuel : ℕ) (format : List ℕ) → List Param → Printed
unfolding print_loop
rtx_sprintf fuel format params = print_loop fuel format params []

-- `strConvert`, which leaves the zero at the end to its caller.
unfoldable pub str_convert : List ℕ → List ℕ
str_convert [] = []
str_convert (c ∷ cs) =
    let rest = str_convert cs in
    if c == 13
    then 92 ∷ b'r' ∷ rest
    else if c == 10
    then 92 ∷ b'n' ∷ rest
    else if c == 8
    then 92 ∷ b'b' ∷ rest
    else c ∷ rest
