-- ===== src/Utils.antt =====
-- coldfire/util/src/utils.c: the string functions that the kernel and the processes share. A string
-- is the bytes from an address on, read by index; `none` stands for NULL where the code tests for
-- it. The walks take fuel, and `none` as a result means that it ran out.
pub mod Spells
pub mod Compare
pub mod Decimal
pub mod Printf
pub mod Token
use rtx.Base.{
  ℕ, zero, suc, ◌+◌, ◌-◌, ◌*◌, ◌%◌, ltb, leb, ◌==◌, ◌&&◌, ◌||◌, not, if◌then◌else◌, Bool, true,
  false, Option, none, some,
}
use rtx.Base.Int.{ℤ, pos, negsuc}
use rtx.Base.Word.{u32}
use rtx.Links.{update}

abbrev pub Bytes : Type 0
Bytes = ℕ → ℕ

-- `while (cpy_str[i] != '\0') { … } str[j] = '\0';`, where `j` equals `i`. The test
-- `str_size > i - 1` holds for `i` up to `str_size`.
unfoldable pub copy_loop : (fuel i : ℕ) (str cpy_str : Bytes) (str_size : ℕ) → Option Bytes
copy_loop zero i str cpy_str str_size = none
copy_loop (suc fuel) i str cpy_str str_size =
    let rest = copy_loop fuel (i + 1) (update str i (cpy_str i)) cpy_str str_size in
    if not (cpy_str i == 0) && leb i str_size then rest else some (update str i 0)

unfoldable pub rtx_strcpy : (fuel : ℕ) (str cpy_str : Bytes) (str_size : ℕ) → Option Bytes
unfolding copy_loop
rtx_strcpy fuel str cpy_str str_size = copy_loop fuel 0 str cpy_str str_size

-- `while (str1[k] != '\0' || str2[k] != '\0') { … }`
unfoldable pub compare_loop : (fuel k : ℕ) (str1 str2 : Bytes) → Option ℤ
compare_loop zero k str1 str2 = none
compare_loop (suc fuel) k str1 str2 =
    let rest = compare_loop fuel (k + 1) str1 str2 in
    if not (str1 k == 0) || not (str2 k == 0)
    then (if not (str1 k == str2 k) then some (pos 1) else rest)
    else some (pos 0)

unfoldable pub rtx_strcmp : (fuel : ℕ) (str1 str2 : Option Bytes) → Option ℤ
unfolding compare_loop
rtx_strcmp fuel (some str1) (some str2) = compare_loop fuel 0 str1 str2
rtx_strcmp fuel _ _ = some (negsuc 0)

-- `while ( str[i] != '\0' ) { … }`
unfoldable pub find_loop : (fuel i ch : ℕ) (str : Bytes) → Option ℤ
find_loop zero i ch str = none
find_loop (suc fuel) i ch str =
    let rest = find_loop fuel (i + 1) ch str in
    if str i == 0 then some (pos 0) else if ch == str i then some (pos 1) else rest

-- `_findChar`
unfoldable pub find_char : (fuel ch : ℕ) (str : Option Bytes) → Option ℤ
unfolding find_loop
find_char fuel ch none = some (negsuc 0)
find_char fuel ch (some str) = find_loop fuel 0 ch str

-- `while (*str++ != '\0') i++;`
unfoldable pub length_loop : (fuel i : ℕ) (str : Bytes) → Option ℤ
length_loop zero i str = none
length_loop (suc fuel) i str =
    let rest = length_loop fuel (i + 1) str in if str i == 0 then some (pos i) else rest

unfoldable pub rtx_strlen : (fuel : ℕ) (str : Option Bytes) → Option ℤ
unfolding length_loop
rtx_strlen fuel none = some (negsuc 0)
rtx_strlen fuel (some str) = length_loop fuel 0 str

-- `char tmp = str[i] - '0'`, as a byte. A negative one is 128 or more.
abbrev pub digit : ℕ → ℕ
digit c = (c + 208) % 256

-- `while (str[i] != '\0') { … }`: the number so far, in 32 bits, and whether it has a digit; or a
-- character that is refused, `some none`.
unfoldable pub digits_loop :
    (fuel i num : ℕ) (ret : Bool) (str : Bytes) → Option (Option (ℕ × Bool))
digits_loop zero i num ret str = none
digits_loop (suc fuel) i num ret str =
    let rest = digits_loop fuel (i + 1) ((num * 10 + digit (str i)) % u32) true str in
    if str i == 0
    then some (some (num, ret))
    else if leb 128 (digit (str i)) || ltb 10 (digit (str i))
    then some none
    else rest

-- `while (str[i] == ' ') i++;`
unfoldable pub spaces_loop : (fuel i : ℕ) (str : Bytes) → Option ℕ
spaces_loop zero i str = none
spaces_loop (suc fuel) i str =
    let rest = spaces_loop fuel (i + 1) str in if str i == 32 then rest else some i

-- `neg*num`, in 32 bits.
abbrev pub signed_by : Bool → ℕ → ℕ
signed_by neg num = if neg then (u32 - num) % u32 else num

-- What is returned, and the number that `num_p` points to afterwards.
abbrev pub stored : Bool → ℕ → Option (ℕ × Bool) → ℤ × Option ℕ
stored neg old none = (pos 0, some old)
stored neg old (some (num, ret)) = (pos (if ret then 1 else 0), some (signed_by neg num))

abbrev pub sign_width : ℕ → ℕ
sign_width c = if (c == 45) || (c == 43) then 1 else 0

unfoldable pub rtx_atoi : (fuel : ℕ) (str : Option Bytes) (num_p : Option ℕ) → Option (ℤ × Option ℕ)
unfolding digits_loop spaces_loop
rtx_atoi fuel (some str) (some old) = elim (spaces_loop fuel 0 str) [
  | none ↦ none
  | some i ↦ elim (digits_loop fuel (i + sign_width (str i)) 0 false str) [
    | none ↦ none
    | some result ↦ some (stored (str i == 45) old result)
  ]
]
rtx_atoi fuel _ num_p = some (pos 0, num_p)
