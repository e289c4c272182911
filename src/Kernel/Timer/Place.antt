-- ===== src/Kernel/Timer/Place.antt =====
-- The place of an envelope among those that wait for their time.
use rtx.Base.{
  ℕ, suc, ◌≤◌, ◌==◌, if◌then◌else◌, ◌≡◌, refl, true, ◌||◌, Bool-cases, ==_cases, inl, inr, List, [],
  ◌∷◌, arith, has, length,
}
use rtx.Base.Word.{signed_lt, rank}
use rtx.Links.{Ptr}

-- Before the first one that is due no earlier.
abbrev pub place : (time : Ptr → ℕ) (timeout : ℕ) → Ptr → List Ptr → List Ptr
place time timeout e [] = e ∷ []
place time timeout e (x ∷ xs) =
    if signed_lt (time x) timeout then x ∷ place time timeout e xs else e ∷ x ∷ xs

-- Each is due no later than those behind it.
abbrev pub IsOrdered : (time : Ptr → ℕ) → List Ptr → Type 0
IsOrdered time [] = Unit {0}
IsOrdered time (x ∷ xs) =
    ((y : Ptr) → has y xs ≡ true → rank (time x) ≤ rank (time y)) × IsOrdered time xs

pub has-place :
    (time : Ptr → ℕ) (timeout : ℕ) (e : Ptr) (xs : List Ptr) (a : Ptr)
    → has a (place time timeout e xs) ≡ ((a == e) || has a xs)
has-place time timeout e [] a = ground arith
has-place time timeout e (x ∷ xs) a = elim (Bool-cases (signed_lt (time x) timeout)) [
  | inl before ↦ rw before (ground (arith, has-place time timeout e xs a))
  | inr after ↦ rw after (ground arith)
]

pub length-place :
    (time : Ptr → ℕ) (timeout : ℕ) (e : Ptr) (xs : List Ptr)
    → length (place time timeout e xs) ≡ suc (length xs)
length-place time timeout e [] = refl
length-place time timeout e (x ∷ xs) = elim (Bool-cases (signed_lt (time x) timeout)) [
  | inl before ↦ rw (before, length-place time timeout e xs) refl
  | inr after ↦ rw after refl
]

pub place-IsOrdered :
    (time : Ptr → ℕ) (e : Ptr) (xs : List Ptr)
    → IsOrdered time xs
    → IsOrdered time (place time (time e) e xs)
place-IsOrdered time e [] h = (λ y i. absurd (ground arith), tt)
place-IsOrdered time e (x ∷ xs) (least, rest) = elim (Bool-cases (signed_lt (time x) (time e))) [
  | inl before ↦ rw before (
    λ y i. elim (==_cases y e) [
      | inl (b, eq) ↦ rw eq (ground arith)
      | inr (b, ne) ↦ least y (ground (arith, has-place time (time e) e xs y))
    ],
    place-IsOrdered time e xs rest,
  )
  | inr after ↦
      let first : rank (time e) ≤ rank (time x) = ground arith in
      rw after (
        λ y i. elim (==_cases y x) [
          | inl (b, eq) ↦ rw eq first
          | inr (b, ne) ↦ let later = least y (ground arith) in omega arith
        ],
        (least, rest),
      )
]

pub IsOrdered-frame :
    (time time' : Ptr → ℕ) (xs : List Ptr)
    → ((a : Ptr) → has a xs ≡ true → time' a ≡ time a)
    → IsOrdered time xs
    → IsOrdered time' xs
IsOrdered-frame time time' [] same h = tt
IsOrdered-frame time time' (x ∷ xs) same (least, rest) = (
  λ y i. rw (same x (ground arith), same y (ground arith)) (least y i),
  IsOrdered-frame time time' xs (λ a i. same a (ground arith)) rest,
)
