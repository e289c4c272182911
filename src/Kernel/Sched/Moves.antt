-- ===== src/Kernel/Sched/Moves.antt =====
-- Putting a process into a queue, and taking the next one out, keep the scheduler's view.
use rtx.Base.{
  ℕ, zero, suc, ◌<◌, ◌≤◌, ◌≡◌, ◌≢◌, refl, ◌∙◌, ◌⊎◌, inl, inr, List, [], ◌∷◌, ◌++◌, has, some, arith,
  ==_cases, has-append_one, List-cases, Bool-cases,
}
use rtx.Base.Int.{pos}
use rtx.Rtx.{ProcessState, p_ready, p_blocked_on_env_request}
use rtx.Links.{Ptr, null, Queues}
use rtx.Links.Chain.{IsChain}
use rtx.Links.Contents.{Contents, put}
use rtx.Links.Moves.{IsFree}
use rtx.Process.{Pcb, Pcbs}
use rtx.ProcPq
use rtx.ProcPq.{ProcPq}
use rtx.ProcPq.Refines.{queue, IsPq, enqueue_last, dequeue_first}
use rtx.Kernel.{with_state}
use rtx.Kernel.Sched.{Waits, IsSched, IsNext}

module _ {procs : Queues} {pcbs : Pcbs} {r b : ProcPq} {c : Contents}
    (h : IsSched procs pcbs r b c) where
  -- A process that stands in no queue may change in any way.
  pub change-IsSched :
      (pcbs' : Pcbs) (p : Ptr)
      → IsFree p c
      → ((a : Ptr) → a ≢ p → pcbs' a ≡ pcbs a)
      → IsSched procs pcbs' r b c
  change-IsSched pcbs' p free same = record {
    holds = h.holds;
    ready = h.ready;
    blocked = h.blocked;
    apart = h.apart;
    waits = λ q a i. rw (same a (ground (arith, free q))) (h.waits q a i);
  }

  -- Any process may change, but for its state and its priority.
  pub relabel-IsSched :
      (pcbs' : Pcbs)
      → ((a : Ptr) → (pcbs' a).state ≡ (pcbs a).state)
      → ((a : Ptr) → (pcbs' a).priority ≡ (pcbs a).priority)
      → IsSched procs pcbs' r b c
  relabel-IsSched pcbs' states priorities = record {
    holds = h.holds;
    ready = h.ready;
    blocked = h.blocked;
    apart = h.apart;
    waits = λ q a i. elim (h.waits q a i) [
      | inl w ↦ inl (record {
        level = w.level;
        within = w.within;
        here = w.here;
        state = states a ∙ w.state;
        priority = priorities a ∙ w.priority;
      })
      | inr w ↦ inr (record {
        level = w.level;
        within = w.within;
        here = w.here;
        state = states a ∙ w.state;
        priority = priorities a ∙ w.priority;
      })
    ];
  }

  -- A process in another state than those of the two priority queues stands in no queue.
  pub IsFree-of_state :
      (p : Ptr) → (pcbs p).state ≢ p_ready → (pcbs p).state ≢ p_blocked_on_env_request → IsFree p c
  IsFree-of_state p d d' q = elim (Bool-cases (has p (c q))) [
    | inr out ↦ out
    | inl i ↦ elim (h.waits q p i) [ inl w ↦ absurd (d w.state) | inr w ↦ absurd (d' w.state) ]
  ]

  -- A process that stands in no queue is put at the end of the queue of its priority, and goes into
  -- the state of that queue.
  pub enqueue-IsSched :
      (ppq : ProcPq) (pcbs' : Pcbs) (p : Ptr) (k : ℕ)
      → IsPq ppq
      → p ≢ null
      → IsFree p c
      → (pcbs p).priority ≡ pos k
      → k < ppq.num_priorities
      → ((a : Ptr) → a ≢ p → pcbs' a ≡ pcbs a)
      → Waits r p_ready (queue ppq k) (pcbs' p)
        ⊎ Waits b p_blocked_on_env_request (queue ppq k) (pcbs' p)
      → IsSched
          (ProcPq.enqueue (some ppq) p pcbs procs).1
          pcbs'
          r
          b
          (put c (queue ppq k) (c (queue ppq k) ++ p ∷ []))
  enqueue-IsSched ppq pcbs' p k w np free at below same side = record {
    holds = (enqueue_last h.holds ppq w pcbs p k np free at below).1;
    ready = h.ready;
    blocked = h.blocked;
    apart = h.apart;
    waits = λ q a i. elim (==_cases a p) [
      | inl (e, eq) ↦ rw eq (elim (==_cases q (queue ppq k)) [
        | inl (e', eq') ↦ rw eq' side
        | inr (e', d') ↦ absurd (ground (arith, free q))
      ])
      | inr (e, d) ↦
          rw (same a d) (h.waits q a (ground (arith, has-append_one a p (c (queue ppq k)))))
    ];
  }

  -- The next process is taken out of a priority queue. It stands in no queue then.
  module _ (ppq : ProcPq) (w : IsPq ppq) (k : ℕ) (x : Ptr) (xs : List Ptr)
      (n : IsNext ppq c k x xs) where
    chain : IsChain procs.next (procs.head (queue ppq k)) (x ∷ xs)
    chain = rw n.full at (h.holds.chain (queue ppq k))

    pub next_ne : x ≢ null
    next_ne = chain.1

    pub next-IsFree : IsFree x (put c (queue ppq k) xs)
    next-IsFree q = elim (==_cases q (queue ppq k)) [
      | inl (e, eq) ↦ rw e chain.2
      | inr (e, d) ↦ rw e (elim (Bool-cases (has x (c q))) [
        | inl i ↦ absurd (d (h.holds.apart q (queue ppq k) x i (rw n.full (ground arith))))
        | inr i ↦ i
      ])
    ]

    pub next-Waits :
        Waits r p_ready (queue ppq k) (pcbs x)
        ⊎ Waits b p_blocked_on_env_request (queue ppq k) (pcbs x)
    next-Waits = h.waits (queue ppq k) x (rw n.full (ground arith))

    pub dequeue_next :
        (pcbs' : Pcbs)
        → ((a : Ptr) → a ≢ x → pcbs' a ≡ pcbs a)
        → ((ProcPq.dequeue (some ppq) procs).0 ≡ x)
          × IsSched (ProcPq.dequeue (some ppq) procs).1 pcbs' r b (put c (queue ppq k) xs)
    dequeue_next pcbs' same =
        let (first, holds) = dequeue_first h.holds ppq w k x xs n.within n.before n.full in
        (
          first,
          record {
            holds = holds;
            ready = h.ready;
            blocked = h.blocked;
            apart = h.apart;
            waits = λ q a i. elim (==_cases a x) [
              | inl (e, eq) ↦ absurd (ground (arith, next-IsFree q))
              | inr (e, d) ↦ rw (same a d) (
                  h.waits q a (elim (==_cases q (queue ppq k)) [
                    | inl (e', eq') ↦ rw (eq', n.full) (ground arith)
                    | inr (e', d') ↦ rw e' at i
                  ]))
            ];
          },
        )

-- A priority queue is empty, or has a next process.
pub IsNext-cases :
    (ppq : ProcPq) (c : Contents) (n : ℕ)
    → n ≤ ppq.num_priorities
    → ((j : ℕ) → j < n → c (queue ppq j) ≡ [])
      ⊎ ((k : ℕ) × (x : Ptr) × (xs : List Ptr) × IsNext ppq c k x xs)
IsNext-cases ppq c zero fits = inl λ j below. absurd (omega arith)
IsNext-cases ppq c (suc n) fits = elim (IsNext-cases ppq c n (omega arith)) [
  | inr found ↦ inr found
  | inl empty ↦ elim (List-cases (c (queue ppq n))) [
    | inl here ↦ inl λ j below. elim (==_cases j n) [
      | inl (e, eq) ↦ rw eq here
      | inr (e, d) ↦ empty j (omega arith)
    ]
    | inr (x, xs, full) ↦
        inr (n, x, xs, record { within = omega arith; before = empty; full = full })
  ]
]

-- A process put into a state at a priority belongs into the queue of that priority.
pub with_state-Waits :
    (ppq : ProcPq) (st : ProcessState) (k : ℕ) (p : Pcb)
    → k < ppq.num_priorities
    → p.priority ≡ pos k
    → Waits ppq st (queue ppq k) (with_state st p)
with_state-Waits ppq st k p below at = record {
  level = k;
  within = below;
  here = refl;
  state = refl;
  priority = at;
}
