-- ===== src/ProcQueue/Refines.antt =====
-- The queue of processes is a FIFO queue: `enqueue` appends, `dequeue` takes the front.
use rtx.Base.{◌≡◌, ◌≢◌, refl, List, [], ◌∷◌, ◌++◌, arith, ==_refl, ==_of_ne}
use rtx.Rtx.{code_success}
use rtx.Links.{Ptr, null, Queues, update}
use rtx.Links.Chain.{TailIs, TailIs-rest}
use rtx.Links.Contents.{Contents, put, Holds}
use rtx.Links.Moves.{IsFree, link_first, link_last, unlink_first, head_of_empty, head_of_cons}
use rtx.ProcQueue.{enqueue, dequeue}

-- A queue that is not empty has the process linked behind its tail.
pub enqueue_behind :
    (s : Queues) (q p : Ptr)
    → q ≢ null
    → p ≢ null
    → s.head q ≢ null
    → (enqueue q p s).1 ≡ record {
      next = update (update s.next (s.tail q) p) p null;
      head = s.head;
      tail = update s.tail q p;
    }
unfolding enqueue
enqueue_behind s q p nq np ne = rw (==_of_ne nq, ==_of_ne np, ==_of_ne ne) (rw (==_refl q))

-- A call with two addresses succeeds.
pub enqueue-success :
    (s : Queues) (q p : Ptr) → q ≢ null → p ≢ null → (enqueue q p s).0 ≡ code_success
unfolding enqueue
enqueue-success s q p nq np = rw (==_of_ne nq, ==_of_ne np)

module _ {s : Queues} {c : Contents} (h : Holds s c) (q : Ptr) where
  module _ (p : Ptr) (nq : q ≢ null) (np : p ≢ null) (free : IsFree p c) where
    enqueue_empty :
        c q ≡ []
        → (enqueue q p s).1 ≡ record {
          next = update s.next p null;
          head = update s.head q p;
          tail = update s.tail q p;
        }
    unfolding enqueue
    enqueue_empty empty = rw (==_of_ne nq, ==_of_ne np, head_of_empty h q empty) (rw (==_refl q))

    -- `proc_queue_enqueue` of a process that stands in no queue puts it behind the others of the
    -- queue, empty or not, and keeps every queue well formed and every other queue as it is.
    pub enqueue-Holds :
        (xs : List Ptr) → c q ≡ xs → Holds (enqueue q p s).1 (put c q (xs ++ p ∷ []))
    enqueue-Holds [] e = rw (enqueue_empty e) (link_first h q p np free e)
    enqueue-Holds (x ∷ xs) e =
        rw (enqueue_behind s q p nq np (ground (arith, head_of_cons h q x xs e)))
          (link_last h q p np free x xs e)

  -- An empty queue gives NULL, and nothing changes.
  pub dequeue_empty : c q ≡ [] → dequeue q s ≡ (null, s)
  unfolding dequeue
  dequeue_empty empty = ground (arith, head_of_empty h q empty)

  -- `proc_queue_dequeue` of a queue that is not empty returns its first process, leaves the
  -- others in order, and keeps every queue well formed and every other queue as it is.
  pub dequeue-Holds :
      (x : Ptr) (xs : List Ptr)
      → q ≢ null
      → c q ≡ x ∷ xs
      → ((dequeue q s).0 ≡ x) × Holds (dequeue q s).1 (put c q xs)
  unfolding dequeue
  dequeue-Holds x xs nq full =
      let (e, ne) = head_of_cons h q x xs full in
      rw (==_of_ne nq, e, ==_of_ne ne) (refl, unlink_first h q x xs s.tail full tail λ r d. refl)
    where
      tail : TailIs (s.tail q) xs
      tail = TailIs-rest (s.tail q) x xs (rw full at (h.tail q))
