-- ===== src/Links/Chain.antt =====
-- Chains of nodes: what a queue's `head` leads to.
use rtx.Base.{
  ℕ, ◌≡◌, ◌≢◌, refl, true, false, List, [], ◌∷◌, ◌++◌, arith, has, last_of, ==_cases, inl, inr,
  ◌==◌, has-append_one, has-last_of, erase, if◌then◌else◌,
}

-- From `p` the field `next` leads through distinct nodes `xs` to NULL.
abbrev pub IsChain : (ℕ → ℕ) → ℕ → List ℕ → Type 0
IsChain next p [] = p ≡ 0
IsChain next p (x ∷ xs) = (p ≡ x) × (x ≢ 0) × (has x xs ≡ false) × IsChain next (next x) xs

-- The field `tail` of a queue is read only while the queue is not empty.
abbrev pub TailIs : ℕ → List ℕ → Type 0
TailIs t [] = Unit {0}
TailIs t (x ∷ xs) = t ≡ last_of x xs

-- A chain survives a change of memory that spares its own nodes.
pub IsChain-frame :
    {m n : ℕ → ℕ} (p : ℕ) (xs : List ℕ)
    → IsChain n p xs
    → ((a : ℕ) → has a xs ≡ true → m a ≡ n a)
    → IsChain m p xs
IsChain-frame p [] h same = h
IsChain-frame {m} {n} p (x ∷ xs) (e, ne, out, rest) same = (
  e,
  ne,
  out,
  rw (same x (ground arith)) (IsChain-frame (n x) xs rest λ a i. same a (ground arith)),
)

pub not-has-zero : (n : ℕ → ℕ) (p : ℕ) (xs : List ℕ) → IsChain n p xs → has 0 xs ≡ false
not-has-zero n p [] h = refl
not-has-zero n p (x ∷ xs) (e, ne, out, rest) = ground (arith, not-has-zero n (n x) xs rest)

-- Linking a node behind the last one makes the chain longer by that node.
pub IsChain-append_one :
    {m n : ℕ → ℕ} (p x : ℕ) (xs : List ℕ) (y : ℕ)
    → IsChain n p (x ∷ xs)
    → y ≢ 0
    → has y (x ∷ xs) ≡ false
    → m (last_of x xs) ≡ y
    → m y ≡ 0
    → ((a : ℕ) → has a (x ∷ xs) ≡ true → a ≢ last_of x xs → m a ≡ n a)
    → IsChain m p (x ∷ (xs ++ y ∷ []))
IsChain-append_one p x [] y (e, ne, out, rest) ny new at_last at_end same =
    (e, ne, ground arith, (at_last, ny, refl, at_end))
IsChain-append_one {m} {n} p x (z ∷ zs) y (e, ne, out, rest) ny new at_last at_end same = (
  e,
  ne,
  ground (arith, has-append_one x y zs),
  rw (same x (ground arith) (ground (arith, has-last_of z zs))) (
      IsChain-append_one (n x) z zs y rest ny (ground arith) at_last at_end
        λ a i d. same a (ground arith) d),
)

-- The tail of a queue stays its tail when the first node leaves.
pub TailIs-rest : (t x : ℕ) (xs : List ℕ) → TailIs t (x ∷ xs) → TailIs t xs
TailIs-rest t x [] h = tt
TailIs-rest t x (y ∷ ys) h = h

-- The node of `prev ∷ xs` behind which `p` stands.
abbrev pub before : ℕ → ℕ → List ℕ → ℕ
before p prev [] = prev
before p prev (x ∷ xs) = if x == p then prev else before p x xs

pub has-before : (p prev : ℕ) (xs : List ℕ) → has (before p prev xs) (prev ∷ xs) ≡ true
has-before p prev [] = ground arith
has-before p prev (x ∷ xs) = ground (arith, has-before p x xs)

pub before_ne :
    (n : ℕ → ℕ) (q p prev : ℕ) (xs : List ℕ)
    → IsChain n q xs
    → prev ≢ p
    → has p xs ≡ true
    → before p prev xs ≢ p
before_ne n q p prev [] h d i = ground arith
before_ne n q p prev (x ∷ xs) h d i = elim (==_cases x p) [
  | inl (e, eq) ↦ rw e d
  | inr (e, ne) ↦ rw e (before_ne n (n x) p x xs h.3 ne (ground arith))
]

pub has-erase : (a p : ℕ) (xs : List ℕ) → has a (erase p xs) ≡ true → has a xs ≡ true
has-erase a p [] h = h
has-erase a p (x ∷ xs) h = ground (arith, has-erase a p xs)

-- `prev->next = p->next; p->next = NULL`, with `prev` the node before `p`, takes `p` out.
pub IsChain-erase :
    {m n : ℕ → ℕ} (p prev : ℕ) (xs : List ℕ)
    → IsChain n prev (prev ∷ xs)
    → prev ≢ p
    → has p xs ≡ true
    → m (before p prev xs) ≡ n p
    → ((a : ℕ) → a ≢ p → a ≢ before p prev xs → m a ≡ n a)
    → IsChain m prev (prev ∷ erase p xs)
IsChain-erase p prev [] h d i at same = ground arith
IsChain-erase {m} {n} p prev (x ∷ xs) (e, ne, out, (e', ne', out', rest)) d i at same =
    elim (==_cases x p) [
      | inl (b, eq) ↦
          let linked : m prev ≡ n x = ground arith in
          rw b (
            refl,
            ne,
            ground arith,
            rw linked (IsChain-frame (n x) xs rest λ a j. same a (ground arith) (ground arith)),
          )
      | inr (b, ne_p) ↦
          let further : has p xs ≡ true = ground arith in
          let away : prev ≢ before p x xs = ground (arith, has-before p x xs) in
          let kept : m prev ≡ x = ground (arith, same prev) in
          rw b (
            refl,
            ne,
            ground (arith, has-erase prev p xs),
            rw kept (
                IsChain-erase p x xs (refl, ne', out', rest) ne_p further (ground arith)
                  (ground arith)),
          )
    ]

pub has-erase_self :
    (n : ℕ → ℕ) (q p : ℕ) (xs : List ℕ) → IsChain n q xs → has p (erase p xs) ≡ false
has-erase_self n q p [] h = refl
has-erase_self n q p (x ∷ xs) h = ground (arith, has-erase_self n (n x) p xs h.3)

pub last_of-erase :
    (p x : ℕ) (xs : List ℕ) → last_of x xs ≢ p → last_of x (erase p xs) ≡ last_of x xs
last_of-erase p x [] d = refl
last_of-erase p x (y ∷ []) d = ground arith
last_of-erase p x (y ∷ z ∷ zs) d = elim (==_cases y p) [
  | inl (e, eq) ↦ rw e
  | inr (e, ne) ↦ rw e (last_of-erase p y (z ∷ zs) d)
]
