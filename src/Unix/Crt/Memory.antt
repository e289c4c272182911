-- ===== src/Unix/Crt/Memory.antt =====
-- A text on its way into the memory that the two processes share.
use rtx.Base.{
  ℕ, suc, ◌+◌, ◌<◌, ◌≡◌, ◌≢◌, refl, sym, ap, ◌∙◌, ==_refl, List, [], ◌∷◌, ◌++◌, length, arith,
}
use rtx.Links.{update}
use rtx.Message.{Body}
use rtx.Utils.Spells.{Spells}

-- The characters `cs` stand in memory from index `k` on, with no zero among them.
abbrev pub Upto : Body → ℕ → List ℕ → Type 0
Upto b k [] = Unit {0}
Upto b k (c ∷ cs) = (b k ≡ c) × (c ≢ 0) × Upto b (k + 1) cs

Upto-frame :
    (b b' : Body) (k : ℕ) (cs : List ℕ)
    → ((j : ℕ) → j < k + length cs → b' j ≡ b j)
    → Upto b k cs
    → Upto b' k cs
Upto-frame b b' k [] same h = tt
Upto-frame b b' k (c ∷ cs) same (at, ne, rest) = (
  same k (omega arith) ∙ at,
  ne,
  Upto-frame b b' (k + 1) cs (λ j below. same j (omega arith)) rest,
)

pub Upto-append_one :
    (b : Body) (k : ℕ) (cs : List ℕ) (c : ℕ)
    → Upto b k cs
    → b (k + length cs) ≡ c
    → c ≢ 0
    → Upto b k (cs ++ c ∷ [])
Upto-append_one b k [] c h at ne =
    let here : k + 0 ≡ k = omega arith in (ap b (sym here) ∙ at, ne, tt)
Upto-append_one b k (x ∷ cs) c (here, ne', rest) at ne =
    let shift : k + 1 + length cs ≡ k + suc (length cs) = omega arith in
    (here, ne', Upto-append_one b (k + 1) cs c rest (ap b shift ∙ at) ne)

Upto-Spells : (b : Body) (k : ℕ) (cs : List ℕ) → Upto b k cs → b (k + length cs) ≡ 0 → Spells b k cs
Upto-Spells b k [] h at = let here : k + 0 ≡ k = omega arith in ap b (sym here) ∙ at
Upto-Spells b k (x ∷ cs) (here, ne, rest) at =
    let shift : k + 1 + length cs ≡ k + suc (length cs) = omega arith in
    (here, ne, Upto-Spells b (k + 1) cs rest (ap b shift ∙ at))

-- One more character is written, or the zero at the end.
pub Upto-write :
    (b : Body) (i : ℕ) (cs : List ℕ) (c : ℕ)
    → i ≡ length cs
    → c ≢ 0
    → Upto b 0 cs
    → Upto (update b i c) 0 (cs ++ c ∷ [])
Upto-write b i cs c at ne h =
    let here : i ≡ 0 + length cs = omega (arith, at) in
    let framed = Upto-frame b (update b i c) 0 cs (λ j below. ground (arith, here)) h in
    Upto-append_one (update b i c) 0 cs c framed (rw (sym here) (rw (==_refl i) refl)) ne

pub Upto-end :
    (b : Body) (i : ℕ) (cs : List ℕ) → i ≡ length cs → Upto b 0 cs → Spells (update b i 0) 0 cs
Upto-end b i cs at h =
    let here : i ≡ 0 + length cs = omega (arith, at) in
    let framed = Upto-frame b (update b i 0) 0 cs (λ j below. ground (arith, here)) h in
    Upto-Spells (update b i 0) 0 cs framed (rw (sym here) (rw (==_refl i) refl))
