-- ===== src/ProcQueue/Remove.antt =====
-- `proc_queue_remove`: the walk ends, and takes the process out of the chain.
use rtx.Base.{
  ℕ, zero, suc, ◌<◌, ◌≡◌, ◌≢◌, ap, ◌∙◌, ◌⊎◌, inl, inr, true, false, List, [], ◌∷◌, some, arith, has,
  erase, last_of, length, ◌==◌, ==_cases, ==_of_ne, ==_refl,
}
use rtx.Links.{Ptr, null, Queues, set_next}
use rtx.Links.Chain.{
  IsChain, not-has-zero, IsChain-frame, before, has-before, before_ne, IsChain-erase, has-erase,
  last_of-erase,
}
use rtx.Links.Contents.{Contents, put, Holds}
use rtx.Links.Moves.{put-apart, head_of_empty, head_of_cons}
use rtx.ProcQueue.{dequeue, remove_loop, remove}
use rtx.ProcQueue.Refines.{dequeue-Holds}

-- Memory after `p`, found behind `prev`, is unlinked.
abbrev pub unlinked : Ptr → Ptr → List Ptr → Queues → Queues
unlinked p prev xs s = set_next p null (set_next (before p prev xs) (s.next p) s)

-- The walk reaches `p` and unlinks it, given a unit of fuel for each node.
pub remove_loop_found :
    (s : Queues) (fuel p prev curr : Ptr) (xs : List Ptr)
    → IsChain s.next curr xs
    → has p xs ≡ true
    → length xs < fuel
    → remove_loop fuel prev curr p s ≡ some (p, unlinked p prev xs s)
unfolding remove_loop
remove_loop_found s zero p prev curr xs h i enough = absurd (omega arith)
remove_loop_found s (suc fuel) p prev curr [] h i enough = ground arith
remove_loop_found s (suc fuel) p prev curr (x ∷ xs) (e, ne, out, rest) i enough =
    elim (==_cases x p) [
      | inl (b, eq) ↦ rw (e, ==_of_ne ne, b) (rw eq)
      | inr (b, d) ↦
          rw (e, ==_of_ne ne, b)
            (remove_loop_found s fuel p x (s.next x) xs rest (ground arith) (omega arith))
    ]

-- The walk ends at NULL when `p` is not in the chain.
pub remove_loop_missing :
    (s : Queues) (fuel p prev curr : Ptr) (xs : List Ptr)
    → IsChain s.next curr xs
    → has p xs ≡ false
    → length xs < fuel
    → remove_loop fuel prev curr p s ≡ some (null, s)
unfolding remove_loop
remove_loop_missing s zero p prev curr xs h i enough = absurd (omega arith)
remove_loop_missing s (suc fuel) p prev curr [] h i enough = ground arith
remove_loop_missing s (suc fuel) p prev curr (x ∷ xs) (e, ne, out, rest) i enough =
    let d : (x == p) ≡ false = ground arith in
    rw (e, ==_of_ne ne, d)
      (remove_loop_missing s fuel p x (s.next x) xs rest (ground arith) (omega arith))

module _ {s : Queues} {c : Contents} (h : Holds s c) (q p x : Ptr) (xs : List Ptr) (nq : q ≢ null)
    (full : c q ≡ x ∷ xs) (later : x ≢ p) (found : has p xs ≡ true) where
  at_head : IsChain s.next (s.head q) (x ∷ xs)
  at_head = rw full at (h.chain q)

  pub head : s.head q ≡ x
  head = at_head.0

  p_ne : p ≢ null
  p_ne = ground (arith, not-has-zero s.next (s.next x) xs at_head.3)

  pub before_p_ne : before p x xs ≢ p
  before_p_ne = before_ne s.next (s.next x) p x xs at_head.3 later found

  -- A process behind the head is unlinked.
  pub remove_behind :
      (fuel : ℕ) → length xs < fuel → remove fuel q p s ≡ some (p, unlinked p x xs s)
  unfolding remove
  remove_behind fuel enough =
      rw (==_of_ne nq, ==_of_ne p_ne, head, ==_of_ne at_head.1, ==_of_ne later)
        (remove_loop_found s fuel p x (s.next x) xs at_head.3 found enough)

  -- The nodes that it writes belong to this queue.
  pub spares_others :
      (r a : Ptr) → r ≢ q → has a (c r) ≡ true → (unlinked p x xs s).next a ≡ s.next a
  spares_others r a d i = ground (arith, h.apart r q a, has-before p x xs)

  -- The heads lead through the same nodes as before, less `p`.
  pub unlinked-IsChain :
      (r : Ptr) → IsChain (unlinked p x xs s).next (s.head r) (put c q (x ∷ erase p xs) r)
  unlinked-IsChain r = elim (==_cases r q) [
    | inl (e, eq) ↦
        rw (e, eq, head)
          (IsChain-erase p x xs (rw head at at_head) later found (ground (arith, before_p_ne))
            λ a d d'. ground arith)
    | inr (e, d) ↦ rw e (IsChain-frame (s.head r) (c r) (h.chain r) λ a i. spares_others r a d i)
  ]

  pub unlinked-Holds : last_of x xs ≢ p → Holds (unlinked p x xs s) (put c q (x ∷ erase p xs))
  unlinked-Holds d = record {
    chain = unlinked-IsChain;
    tail = λ r. elim (==_cases r q) [
      | inl (e, eq) ↦ rw (e, eq, last_of-erase p x xs d) (rw full at (h.tail q))
      | inr (e, ne) ↦ rw e (h.tail r)
    ];
    apart =
        put-apart h q (x ∷ erase p xs) λ a r i j. ground (arith, h.apart r q a, has-erase a p xs);
  }

module _ {s : Queues} {c : Contents} (h : Holds s c) (q : Ptr) (nq : q ≢ null) where
  -- A process at the head is dequeued.
  remove_head :
      (x : Ptr) (xs : List Ptr) (fuel : ℕ) → c q ≡ x ∷ xs → remove fuel q x s ≡ some (dequeue q s)
  unfolding remove
  remove_head x xs fuel full =
      let (head, ne) = head_of_cons h q x xs full in
      rw (==_of_ne nq, ==_of_ne ne, head, ==_of_ne ne, ==_refl x)

  -- `proc_queue_remove` of a process that is the head of the queue, or stands in it and is not
  -- its last, returns that process and leaves the others in order; no other queue changes. The
  -- fuel for the walk is more than the processes behind the head.
  pub remove-erase :
      (p x : Ptr) (xs : List Ptr) (fuel : ℕ)
      → c q ≡ x ∷ xs
      → has p (x ∷ xs) ≡ true
      → (p ≡ x) ⊎ (last_of x xs ≢ p)
      → length xs < fuel
      → (s' : Queues) × (remove fuel q p s ≡ some (p, s')) × Holds s' (put c q (erase p (x ∷ xs)))
  remove-erase p x xs fuel full found position enough = elim (==_cases x p) [
    | inl (e, eq) ↦
        let (first, holds) = dequeue-Holds h q x xs nq full in
        (
          (dequeue q s).1,
          rw (← eq) (remove_head x xs fuel full ∙ ap (λ y. some (y, (dequeue q s).1)) first),
          rw e holds,
        )
    | inr (e, d) ↦
        let behind : has p xs ≡ true = ground arith in
        (
          unlinked p x xs s,
          remove_behind h q p x xs nq full d behind fuel enough,
          rw e (unlinked-Holds h q p x xs nq full d behind (ground arith)),
        )
  ]

  -- `proc_queue_remove` of a process that is not in the queue returns NULL and changes nothing,
  -- on fuel of more than the length of the queue.
  pub remove_missing :
      (p : Ptr) (xs : List Ptr) (fuel : ℕ)
      → c q ≡ xs
      → has p xs ≡ false
      → length xs < fuel
      → remove fuel q p s ≡ some (null, s)
  unfolding remove
  remove_missing p [] fuel full missing enough = ground (arith, head_of_empty h q full)
  remove_missing p (x ∷ xs) fuel full missing enough = elim (==_cases p null) [
    | inl (e, eq) ↦ rw e (ground arith)
    | inr (e, d) ↦
        let (head, ne) = head_of_cons h q x xs full in
        let other : (x == p) ≡ false = ground arith in
        rw (==_of_ne nq, e, head, ==_of_ne ne, other)
          (remove_loop_missing s fuel p x (s.next x) xs (rest x xs full).3 (ground arith)
            (omega arith))
  ]
    where
      rest : (y : Ptr) (ys : List Ptr) → c q ≡ y ∷ ys → IsChain s.next (s.head q) (y ∷ ys)
      rest y ys f = rw f at (h.chain q)
