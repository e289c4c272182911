-- ===== src/Links/Moves.antt =====
-- What linking and unlinking one node does to the contents of a set of queues.
use rtx.Base.{
  ◌≡◌, ◌≢◌, refl, sym, ◌∙◌, true, false, List, [], ◌∷◌, ◌++◌, arith, has, last_of, inl, inr, ◌==◌,
  ==_cases, has-append_one, has-last_of, last_of-append_one,
}
use rtx.Links.{Ptr, null, Queues, update}
use rtx.Links.Chain.{IsChain, TailIs, IsChain-frame, IsChain-append_one}
use rtx.Links.Contents.{Contents, put, Holds}

-- No queue holds the node.
abbrev pub IsFree : Ptr → Contents → Type 0
IsFree p c = (q : Ptr) → has p (c q) ≡ false

-- Replacing one queue's nodes by nodes that no other queue holds keeps the queues apart.
pub put-apart :
    {s : Queues} {c : Contents} (h : Holds s c) (q : Ptr) (ys : List Ptr)
    → ((a r : Ptr) → has a ys ≡ true → has a (c r) ≡ true → r ≡ q)
    → (r t a : Ptr) → has a (put c q ys r) ≡ true
    → has a (put c q ys t) ≡ true
    → r ≡ t
put-apart h q ys own r t a i j = elim (==_cases r q) [
  | inl (e, d) ↦ elim (==_cases t q) [
    | inl (e', d') ↦ d ∙ sym d'
    | inr (e', d') ↦ absurd (d' (own a t (rw (← e) (ground arith)) (ground arith)))
  ]
  | inr (e, d) ↦ elim (==_cases t q) [
    | inl (e', d') ↦ absurd (d (own a r (ground arith) (ground arith)))
    | inr (e', d') ↦ h.apart r t a (ground arith) (ground arith)
  ]
]

module _ {s : Queues} {c : Contents} (h : Holds s c) (q p : Ptr) (ne : p ≢ 0)
    (free : IsFree p c) where
  -- A node is linked into an empty queue.
  pub link_first :
      c q ≡ []
      → Holds
          (record {
            next = update s.next p null;
            head = update s.head q p;
            tail = update s.tail q p;
          })
          (put c q (p ∷ []))
  link_first empty = record {
    chain = λ r. elim (==_cases r q) [
      | inl (e, eq) ↦ rw e (refl, ne, refl, ground arith)
      | inr (e, d) ↦ rw e (IsChain-frame (s.head r) (c r) (h.chain r) λ a i. ground (arith, free r))
    ];
    tail = λ r. elim (==_cases r q) [ inl (e, eq) ↦ rw e refl | inr (e, d) ↦ rw e (h.tail r) ];
    apart = put-apart h q (p ∷ []) λ a r i j. ground (arith, free r);
  }

  -- A node is linked behind the last node of a queue.
  pub link_last :
      (x : Ptr) (xs : List Ptr)
      → c q ≡ x ∷ xs
      → Holds
          (record {
            next = update (update s.next (s.tail q) p) p null;
            head = s.head;
            tail = update s.tail q p;
          })
          (put c q (x ∷ (xs ++ p ∷ [])))
  link_last x xs full = record {
    chain = λ r. elim (==_cases r q) [
      | inl (e, eq) ↦
          rw (e, eq)
            (IsChain-append_one (s.head q) x xs p at_head ne new (ground (arith, linked, at_last))
              (ground arith) λ a i d. ground (arith, at_last, new))
      | inr (e, d) ↦ rw e (
          IsChain-frame (s.head r) (c r) (h.chain r)
            λ a i. ground (arith, free r, h.apart r q a, has-last_of x xs, at_last))
    ];
    tail = λ r. elim (==_cases r q) [
      | inl (e, eq) ↦ rw e (sym (last_of-append_one x p xs))
      | inr (e, d) ↦ rw e (h.tail r)
    ];
    apart =
        put-apart h q (x ∷ (xs ++ p ∷ []))
          λ a r i j. ground (arith, has-append_one a p xs, free r, h.apart r q a);
  }
    where
      at_last : s.tail q ≡ last_of x xs
      at_last = rw full at (h.tail q)

      at_head : IsChain s.next (s.head q) (x ∷ xs)
      at_head = rw full at (h.chain q)

      new : has p (x ∷ xs) ≡ false
      new = rw full at (free q)

      linked : (p == last_of x xs) ≡ false
      linked = ground (arith, has-last_of x xs, new)

module _ {s : Queues} {c : Contents} (h : Holds s c) (q : Ptr) where
  -- The first node of a queue is taken out. The tail of an emptied queue may be anything.
  pub unlink_first :
      (x : Ptr) (xs : List Ptr) (tail : Ptr → Ptr)
      → c q ≡ x ∷ xs
      → TailIs (tail q) xs
      → ((r : Ptr) → r ≢ q → tail r ≡ s.tail r)
      → Holds
          (record { next = update s.next x null; head = update s.head q (s.next x); tail = tail })
          (put c q xs)
  unlink_first x xs t full at_tail others = record {
    chain = λ r. elim (==_cases r q) [
      | inl (e, eq) ↦ rw e (IsChain-frame (s.next x) xs at_head.3 λ a i. ground (arith, at_head.2))
      | inr (e, d) ↦
          rw e (IsChain-frame (s.head r) (c r) (h.chain r) λ a i. ground (arith, h.apart r q a))
    ];
    tail = λ r. elim (==_cases r q) [
      | inl (e, eq) ↦ rw (e, eq) at_tail
      | inr (e, d) ↦ rw (e, others r d) (h.tail r)
    ];
    apart = put-apart h q xs λ a r i j. ground (arith, h.apart r q a);
  }
    where
      at_head : IsChain s.next (s.head q) (x ∷ xs)
      at_head = rw full at (h.chain q)

  -- The head of an empty queue is NULL, and that of any other queue is its first node.
  pub head_of_empty : c q ≡ [] → s.head q ≡ null
  head_of_empty empty = rw empty at (h.chain q)

  pub head_of_cons : (x : Ptr) (xs : List Ptr) → c q ≡ x ∷ xs → (s.head q ≡ x) × (x ≢ null)
  head_of_cons x xs full =
      let chain : IsChain s.next (s.head q) (x ∷ xs) = rw full at (h.chain q) in (chain.0, chain.1)
