-- ===== src/Utils/Token/Words.antt =====
-- `rtx_strtok` on strings.
use rtx.Base.{
  ℕ, zero, suc, ◌+◌, ◌%◌, ◌<◌, ◌≤◌, ◌≡◌, ◌≢◌, refl, ap, ◌∙◌, false, Bool-cases, ◌==◌, ==_cases,
  ==_of_ne, ==_refl, inl, inr, List, [], ◌∷◌, length, has, some, none, if◌then◌else◌, arith,
}
use rtx.Base.Int.{pos}
use rtx.Links.{update}
use rtx.Utils.{Bytes, find_loop, find_char}
use rtx.Utils.Spells.{Spells}
use rtx.Utils.Compare.{strcpy-Spells}
use rtx.Utils.Token.{Tokens, is_delimiter, skip_loop, take_loop, load, rtx_strtok}

-- The list from its first item on that is not in `ds`.
abbrev pub drop_in : (ds xs : List ℕ) → List ℕ
drop_in ds [] = []
drop_in ds (x ∷ xs) = if has x ds then drop_in ds xs else x ∷ xs

-- The list up to its first item in `ds`, and from there on.
abbrev pub upto : (ds xs : List ℕ) → List ℕ
upto ds [] = []
upto ds (x ∷ xs) = if has x ds then [] else x ∷ upto ds xs

abbrev pub from : (ds xs : List ℕ) → List ℕ
from ds [] = []
from ds (x ∷ xs) = if has x ds then x ∷ xs else from ds xs

-- No character of the list is in `ds`.
abbrev pub Free : (ds xs : List ℕ) → Type 0
Free ds [] = Unit {0}
Free ds (x ∷ xs) = (has x ds ≡ false) × Free ds xs

pub drop_in-Free : (ds xs : List ℕ) → Free ds xs → drop_in ds xs ≡ xs
drop_in-Free ds [] f = refl
drop_in-Free ds (x ∷ xs) (e, f) = rw e refl

pub upto-Free : (ds xs : List ℕ) → Free ds xs → upto ds xs ≡ xs
upto-Free ds [] f = refl
upto-Free ds (x ∷ xs) (e, f) = rw e (ap (λ t. x ∷ t) (upto-Free ds xs f))

find_loop-has :
    (fuel k ch : ℕ) (d : Bytes) (ds : List ℕ)
    → Spells d k ds
    → length ds < fuel
    → find_loop fuel k ch d ≡ some (pos (if has ch ds then 1 else 0))
unfolding find_loop
find_loop-has zero k ch d ds h enough = absurd (omega arith)
find_loop-has (suc fuel) k ch d [] h enough = rw h refl
find_loop-has (suc fuel) k ch d (x ∷ xs) (at, ne, rest) enough = elim (==_cases ch x) [
  | inl (e, eq) ↦ rw (at, ==_of_ne ne, e) refl
  | inr (e, other) ↦ rw (at, ==_of_ne ne, e) (find_loop-has fuel (k + 1) ch d xs rest (omega arith))
]

delimiter-has :
    (fuel ch : ℕ) (d : Bytes) (ds : List ℕ)
    → Spells d 0 ds
    → length ds < fuel
    → is_delimiter fuel ch d ≡ some (has ch ds)
unfolding is_delimiter find_char
delimiter-has fuel ch d ds h enough = elim (Bool-cases (has ch ds)) [
  | inl e ↦ rw (is_delimiter, find_loop-has fuel 0 ch d ds h enough, e) refl
  | inr e ↦ rw (is_delimiter, find_loop-has fuel 0 ch d ds h enough, e) refl
]

zero-has : (d : Bytes) (k : ℕ) (ds : List ℕ) → Spells d k ds → has 0 ds ≡ false
zero-has d k [] h = refl
zero-has d k (x ∷ xs) (at, ne, rest) =
    let e : (0 == x) ≡ false = ground arith in rw e (zero-has d (k + 1) xs rest)

skip_loop-Spells :
    (fuel : ℕ) (c d : Bytes) (k : ℕ) (ds xs : List ℕ)
    → Spells d 0 ds
    → Spells c k xs
    → k + length xs < 256
    → length ds + length xs < fuel
    → (k' : ℕ) × (skip_loop fuel c d k ≡ some k')
      × Spells c k' (drop_in ds xs)
      × (k' + length (drop_in ds xs) ≡ k + length xs)
      × (length (drop_in ds xs) ≤ length xs)
unfolding skip_loop
skip_loop-Spells zero c d k ds xs hd hc fits enough = absurd (omega arith)
skip_loop-Spells (suc fuel) c d k ds [] hd hc fits enough =
    let tested = delimiter-has (suc fuel) 0 d ds hd (omega arith) in
    (k, rw (skip_loop, hc, tested, zero-has d 0 ds hd) refl, hc, refl, omega arith)
skip_loop-Spells (suc fuel) c d k ds (x ∷ xs) hd (at, ne, rest) fits enough =
    let tested = delimiter-has (suc fuel) x d ds hd (omega arith) in
    let step : (k + 1) % 256 ≡ k + 1 = omega arith in
    elim (Bool-cases (has x ds)) [
      | inl e ↦
          let (k', runs, spells, size, less) =
            skip_loop-Spells fuel c d (k + 1) ds xs hd rest (omega arith) (omega arith) in
          let go : skip_loop (suc fuel) c d k ≡ skip_loop fuel c d (k + 1) =
            rw (skip_loop, at, tested, e, step) refl in
          (k', go ∙ runs, rw e spells, rw e (omega (arith, size)), rw e (omega (arith, less)))
      | inr e ↦ (
        k,
        rw (skip_loop, at, tested, e) refl,
        rw e (at, ne, rest),
        rw e refl,
        rw e (omega arith),
      )
    ]

take_loop-Spells :
    (fuel : ℕ) (c d : Bytes) (k j : ℕ) (ret : Bytes) (ds xs : List ℕ)
    → Spells d 0 ds
    → Spells c k xs
    → k + length xs < 256
    → j + length xs < 256
    → length ds + length xs < fuel
    → (k' : ℕ) × (ret' : Bytes) × (take_loop fuel c d k j ret ≡ some (k', ret'))
      × Spells c k' (from ds xs)
      × Spells ret' j (upto ds xs)
      × (k' + length (from ds xs) ≡ k + length xs)
      × ((l : ℕ) → l < j → ret' l ≡ ret l)
unfolding take_loop
take_loop-Spells zero c d k j ret ds xs hd hc fits fits' enough = absurd (omega arith)
take_loop-Spells (suc fuel) c d k j ret ds [] hd hc fits fits' enough =
    let tested = delimiter-has (suc fuel) 0 d ds hd (omega arith) in
    (
      k,
      update ret j 0,
      rw (take_loop, hc, tested, zero-has d 0 ds hd, hc) refl,
      hc,
      ground arith,
      refl,
      λ l below. ground arith,
    )
take_loop-Spells (suc fuel) c d k j ret ds (x ∷ xs) hd (at, ne, rest) fits fits' enough =
    let tested = delimiter-has (suc fuel) x d ds hd (omega arith) in
    let step : (k + 1) % 256 ≡ k + 1 = omega arith in
    let step' : (j + 1) % 256 ≡ j + 1 = omega arith in
    elim (Bool-cases (has x ds)) [
      | inl e ↦ (
        k,
        update ret j 0,
        rw (take_loop, at, tested, e, at, ==_of_ne ne) refl,
        rw e (at, ne, rest),
        rw e (ground arith),
        rw e refl,
        λ l below. ground arith,
      )
      | inr e ↦
          let (k', ret', runs, spells, token, used, kept) =
            take_loop-Spells fuel c d (k + 1) (j + 1) (update ret j x) ds xs hd rest (omega arith)
              (omega arith) (omega arith) in
          let go : take_loop (suc fuel) c d k j ret
              ≡ take_loop fuel c d (k + 1) (j + 1) (update ret j x) =
            rw (take_loop, at, tested, e, at, ==_of_ne ne, step, step') refl in
          (
            k',
            ret',
            go ∙ runs,
            rw e spells,
            rw e (kept j (omega arith) ∙ rw (==_refl j) refl, ne, token),
            rw e (omega (arith, used)),
            λ l below.
                let other : l ≢ j = omega arith in kept l (omega arith) ∙ rw (==_of_ne other) refl,
          )
    ]

-- `rtx_strtok` with NULL, whose place in its copy has a string of `xs` that ends before index
-- 256, ends on enough fuel and agrees with the reference on lists: it leaves in `ret` what stands
-- in `xs` behind the leading delimiters and before the next one, and its place is then at what
-- follows.
pub strtok-next :
    (fuel : ℕ) (ret d : Bytes) (t : Tokens) (ds xs : List ℕ)
    → Spells d 0 ds
    → Spells t.copy t.i xs
    → t.i + length xs < 256
    → length ds + length xs < fuel
    → (t' : Tokens) × (ret' : Bytes) × (rtx_strtok fuel none ret d t ≡ some (t', ret'))
      × Spells ret' 0 (upto ds (drop_in ds xs))
      × Spells t'.copy t'.i (from ds (drop_in ds xs))
      × (t'.i + length (from ds (drop_in ds xs)) ≡ t.i + length xs)
unfolding rtx_strtok load
strtok-next fuel ret d t ds xs hd hc fits enough =
    let (k, skipped, spells, size, less) =
      skip_loop-Spells fuel t.copy d t.i ds xs hd hc fits enough in
    let (k', ret', runs, rest, token, used, kept) =
      take_loop-Spells fuel t.copy d k 0 ret ds (drop_in ds xs) hd spells (omega (arith, size))
        (omega (arith, less)) (omega (arith, less)) in
    (record t { i = k' }, ret', rw (rtx_strtok, skipped, runs) refl, token, rest, used ∙ size)

-- `rtx_strtok` of a string of at most 101 characters is the next token of a copy of that string.
pub strtok-Spells :
    (fuel : ℕ) (str ret d : Bytes) (t : Tokens) (ds xs : List ℕ)
    → Spells d 0 ds
    → Spells str 0 xs
    → length xs ≤ 101
    → length ds + length xs < fuel
    → (t' : Tokens) × (ret' : Bytes) × (rtx_strtok fuel (some str) ret d t ≡ some (t', ret'))
      × Spells ret' 0 (upto ds (drop_in ds xs))
      × Spells t'.copy t'.i (from ds (drop_in ds xs))
      × (t'.i + length (from ds (drop_in ds xs)) ≡ length xs)
unfolding rtx_strtok load
strtok-Spells fuel str ret d t ds xs hd hc fits enough =
    let (copied, copies, is_copy) = strcpy-Spells fuel t.copy str 100 xs hc fits (omega arith) in
    let (t', ret', runs, token, rest, used) =
      strtok-next fuel ret d (record { copy = copied; i = 0 }) ds xs hd is_copy (omega arith)
        enough in
    (t', ret', rw (rtx_strtok, copies) runs, token, rest, used ∙ omega arith)
