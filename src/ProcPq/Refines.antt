-- ===== src/ProcPq/Refines.antt =====
-- The priority queue serves the most urgent priority first, and first come first served within it.
use rtx.Base.{
  ℕ, zero, suc, ◌+◌, ◌≤◌, ◌<◌, ◌≡◌, ◌≢◌, refl, true, false, List, [], ◌∷◌, ◌++◌, arith, some,
  ==_of_ne, inl, inr, ==_cases,
}
use rtx.Base.Int.{pos}
use rtx.Rtx.{code_success, error_illegal_arg}
use rtx.Links.{Ptr, null, Queues}
use rtx.Links.Contents.{Contents, put, Holds}
use rtx.Links.Moves.{IsFree, head_of_empty, head_of_cons}
use rtx.Process.{Pcbs}
use rtx.ProcQueue
use rtx.ProcQueue.Refines.{enqueue-Holds, enqueue-success, dequeue-Holds}
use rtx.ProcPq.{ProcPq, dequeue_loop, dequeue, enqueue, in_range}

-- The queue of a priority.
abbrev pub queue : ProcPq → ℕ → Ptr
queue ppq priority = ppq.priority_queues priority

-- Every priority has a queue at an address of its own.
pub record IsPq (ppq : ProcPq) : Type 0 where
  pub some_queue : (i : ℕ) → i < ppq.num_priorities → queue ppq i ≢ null
  pub distinct :
      (i j : ℕ)
      → i < ppq.num_priorities
      → j < ppq.num_priorities
      → queue ppq i ≡ queue ppq j
      → i ≡ j

module _ {s : Queues} {c : Contents} (h : Holds s c) (ppq : ProcPq) (w : IsPq ppq) where
  -- The loop passes over empty queues and dequeues from the first that is not.
  dequeue_loop_first :
      (left priority k : ℕ) (x : Ptr) (xs : List Ptr)
      → priority + left ≤ ppq.num_priorities
      → priority ≤ k
      → k < priority + left
      → ((j : ℕ) → j < k → c (queue ppq j) ≡ [])
      → c (queue ppq k) ≡ x ∷ xs
      → dequeue_loop left priority ppq s ≡ ProcQueue.dequeue (queue ppq k) s
  unfolding dequeue_loop ProcQueue.is_empty
  dequeue_loop_first zero priority k x xs fits above below before full = absurd (omega arith)
  dequeue_loop_first (suc left) priority k x xs fits above below before full =
      elim (==_cases priority k) [
        | inl (e, eq) ↦
            let (head, ne) = head_of_cons h (queue ppq k) x xs full in
            rw (eq, ==_of_ne (w.some_queue k (omega arith)), head, ==_of_ne ne)
        | inr (e, d) ↦
            let empty = head_of_empty h (queue ppq priority) (before priority (omega arith)) in
            rw (==_of_ne (w.some_queue priority (omega arith)), empty)
              (dequeue_loop_first left (priority + 1) k x xs (omega arith) (omega arith)
                (omega arith) before full)
      ]

  dequeue_loop_none :
      (left priority : ℕ)
      → priority + left ≤ ppq.num_priorities
      → ((j : ℕ) → j < ppq.num_priorities → c (queue ppq j) ≡ [])
      → dequeue_loop left priority ppq s ≡ (null, s)
  unfolding dequeue_loop ProcQueue.is_empty
  dequeue_loop_none zero priority fits all = refl
  dequeue_loop_none (suc left) priority fits all =
      let empty = head_of_empty h (queue ppq priority) (all priority (omega arith)) in
      rw (==_of_ne (w.some_queue priority (omega arith)), empty)
        (dequeue_loop_none left (priority + 1) (omega arith) all)

  -- `proc_pq_dequeue` takes out and returns the front of the queue of the least priority number
  -- whose queue is not empty, and changes no other queue.
  pub dequeue_first :
      (k : ℕ) (x : Ptr) (xs : List Ptr)
      → k < ppq.num_priorities
      → ((j : ℕ) → j < k → c (queue ppq j) ≡ [])
      → c (queue ppq k) ≡ x ∷ xs
      → ((dequeue (some ppq) s).0 ≡ x) × Holds (dequeue (some ppq) s).1 (put c (queue ppq k) xs)
  unfolding dequeue
  dequeue_first k x xs below before full =
      rw
        (dequeue_loop_first ppq.num_priorities 0 k x xs (omega arith) (omega arith) (omega arith)
          before full)
        (dequeue-Holds h (queue ppq k) x xs (w.some_queue k below) full)

  pub dequeue_none :
      ((j : ℕ) → j < ppq.num_priorities → c (queue ppq j) ≡ []) → dequeue (some ppq) s ≡ (null, s)
  unfolding dequeue
  dequeue_none all = dequeue_loop_none ppq.num_priorities 0 (omega arith) all

  -- `proc_pq_enqueue` of a process that stands in no queue and whose priority is in range
  -- succeeds, puts it at the end of the queue of its priority, and changes no other queue.
  pub enqueue_last :
      (pcbs : Pcbs) (p : Ptr) (k : ℕ)
      → p ≢ null
      → IsFree p c
      → (pcbs p).priority ≡ pos k
      → k < ppq.num_priorities
      → ((enqueue (some ppq) p pcbs s).0 ≡ code_success)
        × Holds (enqueue (some ppq) p pcbs s).1 (put c (queue ppq k) (c (queue ppq k) ++ p ∷ []))
  unfolding enqueue
  enqueue_last pcbs p k np free at below =
      let nq = w.some_queue k below in
      let fits : in_range (pos k) ppq.num_priorities ≡ true = ground arith in
      rw (==_of_ne np, at, fits)
        (
          enqueue-success s (queue ppq k) p nq np,
          enqueue-Holds h (queue ppq k) p nq np free (c (queue ppq k)) refl,
        )

-- A priority out of range is refused, and nothing changes.
pub enqueue_refused :
    (ppq : ProcPq) (pcbs : Pcbs) (p : Ptr) (s : Queues)
    → p ≢ null
    → in_range (pcbs p).priority ppq.num_priorities ≡ false
    → enqueue (some ppq) p pcbs s ≡ (error_illegal_arg, s)
unfolding enqueue
enqueue_refused ppq pcbs p s np out = rw (==_of_ne np, out)
