-- ===== src/ProcQueue/Tail.antt =====
-- `proc_queue_remove` does not move `tail` when it takes out the last process. The next process that
-- is enqueued is linked behind the process that has left, where no head leads.
use rtx.Base.{
  ℕ, ◌<◌, ◌≡◌, ◌≢◌, sym, subst, true, false, List, ◌∷◌, some, arith, has, erase, last_of, length,
  ==_refl, has-last_of,
}
use rtx.Rtx.{code_success}
use rtx.Links.{Ptr, null, Queues}
use rtx.Links.Chain.{IsChain, IsChain-frame, has-erase, has-erase_self}
use rtx.Links.Contents.{Contents, Holds}
use rtx.Links.Moves.{IsFree}
use rtx.ProcQueue.{enqueue, remove}
use rtx.ProcQueue.Refines.{enqueue_behind, enqueue-success}
use rtx.ProcQueue.Remove.{unlinked, remove_behind, unlinked-IsChain}

-- A defect: `proc_queue_remove` does not move the tail of the queue. After it has taken the last
-- process out of a queue of at least two, `proc_queue_enqueue` of a process that stands in no
-- queue reports success, but the chain of the queue is what was left, and does not lead to the
-- new process. The fuel for the walk is more than the processes behind the head.
pub enqueue-remove_last :
    {s : Queues} {c : Contents} (h : Holds s c) (q y x : Ptr) (xs : List Ptr) (fuel : ℕ)
    → q ≢ null
    → y ≢ null
    → IsFree y c
    → c q ≡ x ∷ xs
    → x ≢ last_of x xs
    → length xs < fuel
    → (s' : Queues) × (remove fuel q (last_of x xs) s ≡ some (last_of x xs, s'))
      × ((enqueue q y s').0 ≡ code_success)
      × IsChain (enqueue q y s').1.next ((enqueue q y s').1.head q) (x ∷ erase (last_of x xs) xs)
      × (has y (x ∷ erase (last_of x xs) xs) ≡ false)
enqueue-remove_last {s} {c} h q y x xs fuel nq ny free full two enough =
    let found : has (last_of x xs) xs ≡ true = ground (arith, has-last_of x xs) in
    let p : Ptr = last_of x xs in
    (
      unlinked p x xs s,
      remove_behind h q p x xs nq full two found fuel enough,
      enqueue-success (unlinked p x xs s) q y nq ny,
      subst (λ (t : Queues). IsChain t.next (t.head q) (x ∷ erase p xs))
          (sym (enqueue_behind (unlinked p x xs s) q y nq ny at_head))
          (IsChain-frame (s.head q) (x ∷ erase p xs) (chain found)
            λ a i. ground (arith, has-erase y p xs, gone, tail, free q)),
      ground (arith, has-erase y p xs, free q),
    )
  where
    nodes : IsChain s.next (s.head q) (x ∷ xs)
    nodes = rw full at (h.chain q)

    at_head : s.head q ≢ null
    at_head = rw nodes.0 nodes.1

    tail : s.tail q ≡ last_of x xs
    tail = rw full at (h.tail q)

    gone : has (last_of x xs) (erase (last_of x xs) xs) ≡ false
    gone = has-erase_self s.next (s.next x) (last_of x xs) xs nodes.3

    chain :
        has (last_of x xs) xs ≡ true
        → IsChain (unlinked (last_of x xs) x xs s).next (s.head q) (x ∷ erase (last_of x xs) xs)
    chain found = rw (==_refl q) at (unlinked-IsChain h q (last_of x xs) x xs nq full two found q)
