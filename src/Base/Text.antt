-- ===== src/Base/Text.antt =====
-- The characters of a text that the source writes as a literal.
use Prim.Native.Nat.{ℕ}
use Prim.Native.Char.{code}
use Prim.Native.String.{String, [], ◌∷◌}
use mathlib.Core.List as L

abbrev pub chars_of : String → L.List ℕ
chars_of [] = L.[]
chars_of (c ∷ s) = L.◌∷◌ (code c) (chars_of s)
