-- ===== src/Utils/Compare.antt =====
-- `rtx_strcpy` and `rtx_strcmp` on strings.
use rtx.Base.{
  leb, ℕ, zero, suc, ◌+◌, ◌<◌, ◌≤◌, ◌≡◌, ◌≢◌, refl, ◌∙◌, true, false, Bool, ◌==◌, ◌&&◌, ==_cases,
  ==_of_ne, ==_refl, inl, inr, List, [], ◌∷◌, length, some, if◌then◌else◌, arith,
}
use rtx.Base.Int.{pos}
use rtx.Links.{update}
use rtx.Utils.{Bytes, copy_loop, rtx_strcpy, compare_loop, rtx_strcmp}
use rtx.Utils.Spells.{Spells}

-- Whether two strings are equal.
abbrev pub same : List ℕ → List ℕ → Bool
same [] [] = true
same [] (y ∷ ys) = false
same (x ∷ xs) [] = false
same (x ∷ xs) (y ∷ ys) = (x == y) && same xs ys

compare_loop-same :
    (fuel k : ℕ) (a b : Bytes) (xs ys : List ℕ)
    → Spells a k xs
    → Spells b k ys
    → length xs < fuel
    → compare_loop fuel k a b ≡ some (if same xs ys then pos 0 else pos 1)
unfolding compare_loop
compare_loop-same zero k a b xs ys h h' enough = absurd (omega arith)
compare_loop-same (suc fuel) k a b [] [] h h' enough = rw (h, h') refl
compare_loop-same (suc fuel) k a b [] (y ∷ ys) h (at, ne, rest) enough = ground arith
compare_loop-same (suc fuel) k a b (x ∷ xs) [] (at, ne, rest) h' enough = ground arith
compare_loop-same (suc fuel) k a b (x ∷ xs) (y ∷ ys) (at, ne, rest) (at', ne', rest') enough =
    elim (==_cases x y) [
      | inl (e, eq) ↦
          rw (at, at', e, ==_of_ne ne)
            (compare_loop-same fuel (k + 1) a b xs ys rest rest' (omega arith))
      | inr (e, d) ↦ rw (at, at', e, ==_of_ne ne) refl
    ]

-- `rtx_strcmp` of two strings ends on fuel of more than the length of the first, and returns 0 if
-- they have the same characters and 1 otherwise.
pub strcmp-same :
    (fuel : ℕ) (a b : Bytes) (xs ys : List ℕ)
    → Spells a 0 xs
    → Spells b 0 ys
    → length xs < fuel
    → rtx_strcmp fuel (some a) (some b) ≡ some (if same xs ys then pos 0 else pos 1)
unfolding rtx_strcmp
strcmp-same fuel a b xs ys h h' enough = compare_loop-same fuel 0 a b xs ys h h' enough

-- What the copy leaves: the string from `i` on, and what stood before it.
copy_loop-Spells :
    (fuel i : ℕ) (str b : Bytes) (size : ℕ) (xs : List ℕ)
    → Spells b i xs
    → i + length xs ≤ size + 1
    → length xs < fuel
    → (str' : Bytes) × (copy_loop fuel i str b size ≡ some str')
      × Spells str' i xs
      × ((j : ℕ) → j < i → str' j ≡ str j)
unfolding copy_loop
copy_loop-Spells zero i str b size xs h fits enough = absurd (omega arith)
copy_loop-Spells (suc fuel) i str b size [] h fits enough =
    (update str i 0, rw h refl, ground arith, λ j below. ground arith)
copy_loop-Spells (suc fuel) i str b size (x ∷ xs) (at, ne, rest) fits enough =
    let filled : (b i == 0) ≡ false = ground arith in
    let within : leb i size ≡ true = ground arith in
    let (str', runs, spells, kept) =
      copy_loop-Spells fuel (i + 1) (update str i (b i)) b size xs rest (ground arith)
        (ground arith) in
    (
      str',
      rw (filled, within) runs,
      (kept i (omega arith) ∙ rw (==_refl i) at, ne, spells),
      λ j below.
          let below_ne : j ≢ i = omega arith in kept j (omega arith) ∙ rw (==_of_ne below_ne) refl,
    )

-- `rtx_strcpy` of a string at most one character longer than the given size ends on fuel of more
-- than the length of the string, and leaves the string with its terminating zero in the
-- destination.
pub strcpy-Spells :
    (fuel : ℕ) (str b : Bytes) (size : ℕ) (xs : List ℕ)
    → Spells b 0 xs
    → length xs ≤ size + 1
    → length xs < fuel
    → (str' : Bytes) × (rtx_strcpy fuel str b size ≡ some str') × Spells str' 0 xs
unfolding rtx_strcpy
strcpy-Spells fuel str b size xs h fits enough =
    let (str', runs, spells, kept) = copy_loop-Spells fuel 0 str b size xs h (omega arith) enough in
    (str', runs, spells)
