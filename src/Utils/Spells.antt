-- ===== src/Utils/Spells.antt =====
-- Strings in memory.
use rtx.Base.{
  ℕ, ◌+◌, ◌-◌, ◌≡◌, ◌≢◌, sym, ◌∙◌, ap, List, [], ◌∷◌, ◌==◌, if◌then◌else◌, has, false, arith,
  ==_of_ne,
}
use rtx.Utils.{Bytes}

-- From index `i` on, the characters `xs` stand in memory, and then the terminating zero.
abbrev pub Spells : Bytes → ℕ → List ℕ → Type 0
Spells b i [] = b i ≡ 0
Spells b i (x ∷ xs) = (b i ≡ x) × (x ≢ 0) × Spells b (i + 1) xs

-- The memory that holds nothing but a string, from index 0 on.
abbrev pub chars : List ℕ → Bytes
chars [] i = 0
chars (c ∷ cs) i = if i == 0 then c else chars cs (i - 1)

-- No character of the list is the terminating zero.
abbrev pub NonZero : List ℕ → Type 0
NonZero [] = Unit {0}
NonZero (c ∷ cs) = (c ≢ 0) × NonZero cs

pub NonZero-of_has : (cs : List ℕ) → has 0 cs ≡ false → NonZero cs
NonZero-of_has [] h = tt
NonZero-of_has (c ∷ cs) h = (ground arith, NonZero-of_has cs (ground arith))

Spells-from :
    (b : Bytes) (i : ℕ) (cs : List ℕ)
    → NonZero cs
    → ((j : ℕ) → b (i + j) ≡ chars cs j)
    → Spells b i cs
Spells-from b i [] ok at = let e : i + 0 ≡ i = omega arith in ap b (sym e) ∙ at 0
Spells-from b i (c ∷ cs) (ne, ok) at =
    let e : i + 0 ≡ i = omega arith in
    (
      ap b (sym e) ∙ at 0,
      ne,
      Spells-from b (i + 1) cs ok (λ j.
          let shifted : i + 1 + j ≡ i + (j + 1) = omega arith in
          let past : j + 1 ≢ 0 = omega arith in
          let before : j + 1 - 1 ≡ j = omega arith in
          ap b shifted ∙ at (j + 1) ∙ rw (==_of_ne past) (ap (chars cs) before)),
    )

pub Spells-chars : (cs : List ℕ) → NonZero cs → Spells (chars cs) 0 cs
Spells-chars cs ok =
    Spells-from (chars cs) 0 cs ok (λ j. let e : 0 + j ≡ j = omega arith in ap (chars cs) e)
