-- ===== src/Utils/Token.antt =====
-- coldfire/util/src/utils.c: `rtx_strtok`, which keeps its copy of the string and its place in it
-- between the calls. The two walks have fuel; `none` as a result means that it ran out.
pub mod Words
use rtx.Base.{
  ℕ, zero, suc, ◌+◌, ◌%◌, ◌==◌, ◌&&◌, not, if◌then◌else◌, Bool, true, false, Option, none, some,
}
use rtx.Base.Int.{pos, eqb_ℤ}
use rtx.Links.{update}
use rtx.Utils.{Bytes, find_char, rtx_strcpy}

-- `static char copy [1024]` and `static BYTE i`.
pub record Tokens : Type 0 where
  pub copy : Bytes
  pub i : ℕ

-- `_findChar( copy[i], delimiters ) == 1`
unfoldable pub is_delimiter : (fuel ch : ℕ) (delimiters : Bytes) → Option Bool
unfolding find_char
is_delimiter fuel ch delimiters = elim (find_char fuel ch (some delimiters)) [
  | none ↦ none
  | some found ↦ some (eqb_ℤ found (pos 1))
]

-- The walk over the leading characters to be ignored.
unfoldable pub skip_loop : (fuel : ℕ) (copy delimiters : Bytes) (i : ℕ) → Option ℕ
unfolding is_delimiter
skip_loop zero copy delimiters i = none
skip_loop (suc fuel) copy delimiters i =
    let rest = skip_loop fuel copy delimiters ((i + 1) % 256) in
    elim (is_delimiter (suc fuel) (copy i) delimiters) [
      | none ↦ none
      | some found ↦ if found then rest else some i
    ]

-- The walk over the token, which it copies to `ret`.
unfoldable pub take_loop :
    (fuel : ℕ) (copy delimiters : Bytes) (i j : ℕ) → Bytes → Option (ℕ × Bytes)
unfolding is_delimiter
take_loop zero copy delimiters i j ret = none
take_loop (suc fuel) copy delimiters i j ret =
    let rest =
      take_loop fuel copy delimiters ((i + 1) % 256) ((j + 1) % 256) (update ret j (copy i)) in
    elim (is_delimiter (suc fuel) (copy i) delimiters) [
      | none ↦ none
      | some found ↦ if not (copy i == 0) && not found then rest else some (i, update ret j 0)
    ]

-- `if ( str != NULL ) { rtx_strcpy ( copy, str, 100 ); i = 0; }`
unfoldable pub load : (fuel : ℕ) → Option Bytes → Tokens → Option Tokens
unfolding rtx_strcpy
load fuel none t = some t
load fuel (some str) t = elim (rtx_strcpy fuel t.copy str 100) [
  | none ↦ none
  | some copied ↦ some record { copy = copied; i = 0 }
]

unfoldable pub rtx_strtok :
    (fuel : ℕ) (str : Option Bytes) (ret delimiters : Bytes) → Tokens → Option (Tokens × Bytes)
unfolding load skip_loop take_loop
rtx_strtok fuel str ret delimiters t = elim (load fuel str t) [
  | none ↦ none
  | some loaded ↦ elim (skip_loop fuel loaded.copy delimiters loaded.i) [
    | none ↦ none
    | some first ↦ elim (take_loop fuel loaded.copy delimiters first 0 ret) [
      | none ↦ none
      | some (after, token) ↦ some (record loaded { i = after }, token)
    ]
  ]
]
