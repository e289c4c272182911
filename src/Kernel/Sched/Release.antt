-- ===== src/Kernel/Sched/Release.antt =====
-- `k_release_msg_env` wakes the process that waits for an envelope: the first of the most urgent.
use rtx.Base.{
  ℕ, ◌≤◌, ◌<◌, ◌≡◌, refl, sym, ap, ◌∙◌, inl, inr, false, List, List, [], ◌∷◌, ◌++◌, some, arith,
  ==_of_ne,
}
use rtx.Base.Int.{pos}
use rtx.Rtx.{p_ready}
use rtx.Links.{Ptr}
use rtx.Links.Contents.{Contents, put}
use rtx.MsgEnvQueue
use rtx.ProcPq
use rtx.ProcPq.Refines.{queue, dequeue_none}
use rtx.Kernel.{Kernel}
use rtx.Kernel.Primitives.{no_envelope, wake_requester, k_is_msg_env_sys_env, k_release_msg_env}
use rtx.Kernel.Sched.{Sched, IsNext}
use rtx.Kernel.Sched.Moves.{relabel-IsSched, dequeue_next, next_ne, next-IsFree, next-Waits}
use rtx.Kernel.Sched.Wake.{make_ready-Sched}

-- The contents after the first process `x` that waits at priority `k` has gone to the ready queue of
-- its priority; `xs` still wait there.
abbrev pub woken : Kernel → Contents → (k : ℕ) (x : Ptr) (xs : List Ptr) → Contents
woken s c k x xs =
    let c' = put c (queue s.blocked_request_env_pq k) xs in
    put c' (queue s.ready_pq k) (c' (queue s.ready_pq k) ++ x ∷ [])

module _ (s : Kernel) (c : Contents) (h : Sched s c) where
  module _ (k : ℕ) (x : Ptr) (xs : List Ptr) (n : IsNext s.blocked_request_env_pq c k x xs) where
    -- The process that waits at priority `k` is of that priority.
    waiting_priority : (s.pcbs x).priority ≡ pos k
    waiting_priority = elim (next-Waits h s.blocked_request_env_pq h.blocked k x xs n) [
      | inl w ↦ absurd (h.apart w.level k w.within n.within (sym w.here))
      | inr w ↦ w.priority ∙ ap pos (h.blocked.distinct w.level k w.within n.within (sym w.here))
    ]

    pub wake_requester-Sched :
        s.blocked_request_env_pq.num_priorities ≤ s.ready_pq.num_priorities
        → Sched (wake_requester s) (woken s c k x xs)
          × (((wake_requester s).pcbs x).state ≡ p_ready)
    unfolding wake_requester
    wake_requester-Sched fits =
        let b = s.blocked_request_env_pq in
        let (first, sched) = dequeue_next h b h.blocked k x xs n s.pcbs λ a d. refl in
        let s₁ : Kernel = record s { procs = (ProcPq.dequeue (some b) s.procs).1 } in
        let below : k < s.ready_pq.num_priorities = omega (arith, n.within) in
        let ne = next_ne h b h.blocked k x xs n in
        rw (first, ==_of_ne ne)
          (make_ready-Sched s₁ (put c (queue b k) xs) x k sched ne
            (next-IsFree h b h.blocked k x xs n) waiting_priority below)

  -- If no process waits, releasing wakes none.
  pub wake_requester_none :
      ((j : ℕ)
        → j < s.blocked_request_env_pq.num_priorities
        → c (queue s.blocked_request_env_pq j) ≡ [])
      → wake_requester s ≡ s
  unfolding wake_requester
  wake_requester_none all = rw (dequeue_none h.holds s.blocked_request_env_pq h.blocked all)

-- `k_release_msg_env` of an envelope of the common pool, while processes wait for an envelope,
-- takes the first process of the most urgent queue that waits, makes it ready at the end of the
-- ready queue of its priority, moves no other process, and keeps the scheduler's view. The queue
-- of waiting processes may have no more priorities than the ready queue has.
pub release-wakes :
    (e : Ptr) (s : Kernel) (c : Contents) (k : ℕ) (x : Ptr) (xs : List Ptr)
    → Sched s c
    → no_envelope e s ≡ false
    → k_is_msg_env_sys_env e s ≡ false
    → s.blocked_request_env_pq.num_priorities ≤ s.ready_pq.num_priorities
    → IsNext s.blocked_request_env_pq c k x xs
    → Sched (k_release_msg_env e s).1 (woken s c k x xs)
      × (((k_release_msg_env e s).1.pcbs x).state ≡ p_ready)
unfolding k_release_msg_env
release-wakes e s c k x xs h there common fits n =
    let s₁ : Kernel = record s { mail = (MsgEnvQueue.enqueue s.free_env_q e s.mail).1 } in
    let (sched, ready) = wake_requester-Sched s₁ c h k x xs n fits in
    rw (there, common)
      (relabel-IsSched sched _ (λ a. ground arith) (λ a. ground arith), ground (arith, ready))
