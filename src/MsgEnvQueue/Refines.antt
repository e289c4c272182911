-- ===== src/MsgEnvQueue/Refines.antt =====
-- The queue of envelopes is a FIFO queue: `enqueue` appends, `dequeue` takes the front.
use rtx.Base.{
  ℕ, ◌≡◌, ◌≢◌, refl, List, [], ◌∷◌, ◌++◌, arith, ◌==◌, last_of, ==_cases, ==_refl, ==_of_ne, inl,
  inr, if◌then◌else◌, has-last_of, true, false,
}
use rtx.Base
use rtx.Rtx.{code_success}
use rtx.Links.{Ptr, null, Queues, update, truthy}
use rtx.Links.Chain.{IsChain, TailIs-rest}
use rtx.Links.Contents.{Contents, put, Holds}
use rtx.Links.Moves.{IsFree, link_first, link_last, unlink_first, head_of_empty, head_of_cons}
use rtx.MsgEnvQueue.{is_empty, enqueue, dequeue}

-- A call with two addresses succeeds.
pub enqueue_env-success :
    (s : Queues) (q p : Ptr) → q ≢ null → p ≢ null → (enqueue q p s).0 ≡ code_success
unfolding enqueue
enqueue_env-success s q p nq np = rw (==_of_ne nq, ==_of_ne np)

-- A queue whose head is its tail holds one envelope.
alone :
    {t : Ptr} (x : Ptr) (xs : List Ptr) → Base.has x xs ≡ false → t ≡ last_of x xs → x ≡ t → xs ≡ []
alone x [] out at_last eq = refl
alone x (y ∷ ys) out at_last eq = ground (arith, has-last_of y ys)

module _ {s : Queues} {c : Contents} (h : Holds s c) (q : Ptr) where
  module _ (p : Ptr) (nq : q ≢ null) (np : p ≢ null) (free : IsFree p c) where
    -- `msg_env_queue_enqueue` of an envelope that stands in no queue puts it behind the others of
    -- the queue, empty or not, and keeps every queue well formed and every other queue as it is.
    pub enqueue_env-Holds :
        (xs : List Ptr) → c q ≡ xs → Holds (enqueue q p s).1 (put c q (xs ++ p ∷ []))
    unfolding enqueue
    enqueue_env-Holds [] e =
        rw (==_of_ne nq, ==_of_ne np, head_of_empty h q e)
          (rw (==_refl q) (link_first h q p np free e))
    enqueue_env-Holds (x ∷ xs) e =
        let (head, ne) = head_of_cons h q x xs e in
        rw (==_of_ne nq, ==_of_ne np, head, ==_of_ne ne)
          (rw (==_refl q) (link_last h q p np free x xs e))

  -- The test for emptiness, as a condition of the source. At NULL it holds too.
  pub is_empty_of_empty : c q ≡ [] → truthy (is_empty q s) ≡ true
  unfolding is_empty
  is_empty_of_empty empty = ground (arith, head_of_empty h q empty)

  pub is_empty_of_cons :
      (x : Ptr) (xs : List Ptr) → q ≢ null → c q ≡ x ∷ xs → truthy (is_empty q s) ≡ false
  unfolding is_empty
  is_empty_of_cons x xs nq full =
      let (head, ne) = head_of_cons h q x xs full in rw (==_of_ne nq, head, ==_of_ne ne)

  -- An empty queue gives NULL.
  pub dequeue_env_empty : c q ≡ [] → (dequeue q s).0 ≡ null
  unfolding dequeue
  dequeue_env_empty empty = ground (arith, head_of_empty h q empty)

  -- `msg_env_queue_dequeue` of a queue that is not empty returns its first envelope, leaves the
  -- others in order, and keeps every queue well formed and every other queue as it is.
  pub dequeue_env-Holds :
      (x : Ptr) (xs : List Ptr)
      → q ≢ null
      → c q ≡ x ∷ xs
      → ((dequeue q s).0 ≡ x) × Holds (dequeue q s).1 (put c q xs)
  unfolding dequeue
  dequeue_env-Holds x xs nq full = elim (==_cases x (s.tail q)) [
    | inl (e, eq) ↦
        rw (==_of_ne nq, head, e, head, ==_of_ne ne)
          (
            refl,
            unlink_first h q x xs (update s.tail q null) full
                (rw (alone x xs nodes.2 (rw full at (h.tail q)) eq) tt) λ r d. ground arith,
          )
    | inr (e, d) ↦
        rw (==_of_ne nq, head, e, head, ==_of_ne ne)
          (
            refl,
            unlink_first h q x xs s.tail full (TailIs-rest (s.tail q) x xs (rw full at (h.tail q)))
                λ r d'. refl,
          )
  ]
    where
      head : s.head q ≡ x
      head = (head_of_cons h q x xs full).0

      nodes : IsChain s.next (s.head q) (x ∷ xs)
      nodes = rw full at (h.chain q)

      ne : x ≢ null
      ne = (head_of_cons h q x xs full).1

  -- The link of the envelope that is taken out is cleared, and no other link changes.
  pub dequeue_env-next :
      (x : Ptr) (xs : List Ptr)
      → q ≢ null
      → c q ≡ x ∷ xs
      → (dequeue q s).1.next ≡ update s.next x null
  unfolding dequeue
  dequeue_env-next x xs nq full =
      let (head, ne) = head_of_cons h q x xs full in
      elim (==_cases x (s.tail q)) [
        | inl (e, eq) ↦ rw (==_of_ne nq, head, e, head, ==_of_ne ne) refl
        | inr (e, d) ↦ rw (==_of_ne nq, head, e, head, ==_of_ne ne) refl
      ]
