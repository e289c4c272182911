-- ===== src/Tests/Strings.antt =====
-- The theorems about strings, at the strings "12", "7" and " a b".
use rtx.Base.{ℕ, ◌+◌, ◌≤◌, List, length, none, ◌≡◌, refl, ◌==◌, if◌then◌else◌, ◌∷◌, [], some, arith}
use rtx.Base.Int.{pos}
use rtx.Utils.{Bytes, rtx_atoi}
use rtx.Utils.Spells.{Spells, chars, Spells-chars, NonZero-of_has}
use rtx.Utils.Decimal.{Decimal}
use rtx.Utils.Printf.{int, text, rtx_sprintf}
use rtx.Utils.Printf.Number.{sprintf-atoi}
use rtx.Utils.Token.{Tokens, rtx_strtok}
use rtx.Utils.Token.Words.{strtok-next}

abbrev twelve : Bytes
twelve i = if i == 0 then 49 else if i == 1 then 50 else 0

abbrev seven : Bytes
seven i = if i == 0 then 55 else 0

sprintf-atoi_example :
    (cs : List ℕ) × (rtx_sprintf 11 (b'%' ∷ b'd' ∷ []) (int (pos 42) ∷ []) ≡ text cs)
    × Decimal cs
    × (length cs ≤ 9)
    × (rtx_atoi 11 (some (chars cs)) (some 0) ≡ some (pos 1, some 42))
sprintf-atoi_example = sprintf-atoi 11 42 0 (omega arith) (omega arith) (omega arith)

abbrev blank_only : List ℕ
blank_only = 32 ∷ []

abbrev a_and_b : List ℕ
a_and_b = 32 ∷ 97 ∷ 32 ∷ 98 ∷ []

abbrev tokens : Tokens
tokens = record { copy = chars a_and_b; i = 0 }

strtok-next_example :
    (t : Tokens) × (token : Bytes) × (rtx_strtok 9 none (λ _. 0) (chars blank_only) tokens
      ≡ some (t, token))
    × Spells token 0 (97 ∷ [])
    × Spells t.copy t.i (32 ∷ 98 ∷ [])
    × (t.i + 2 ≡ 4)
strtok-next_example =
    strtok-next 9 (λ _. 0) (chars blank_only) tokens blank_only a_and_b
      (Spells-chars blank_only (NonZero-of_has blank_only refl))
      (Spells-chars a_and_b (NonZero-of_has a_and_b refl)) (omega arith) (omega arith)
