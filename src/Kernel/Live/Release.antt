-- ===== src/Kernel/Live/Release.antt =====
-- `k_release_msg_env`: the same process runs on, and one that waited may be ready.
use rtx.Base.{ℕ, ◌≡◌, ◌≢◌, inl, inr, refl, sym, subst, ◌∙◌, List, arith, Bool-cases, some, ◌==◌}
use rtx.Links.{Ptr, null}
use rtx.Links.Contents.{put}
use rtx.MsgEnvQueue
use rtx.ProcPq
use rtx.ProcPq.Refines.{queue}
use rtx.Kernel.{Kernel, set_pcb}
use rtx.Kernel.Primitives.{
  owns_less, no_envelope, make_ready, wake_requester, k_release_msg_env, k_is_msg_env_sys_env,
}
use rtx.Kernel.Sched.{IsNext}
use rtx.Kernel.Sched.Moves.{IsNext-cases, next-Waits, relabel-IsSched, dequeue_next}
use rtx.Kernel.Sched.Release.{woken, wake_requester-Sched, wake_requester_none}
use rtx.Kernel.Live.{view, Known, Live}
use rtx.Kernel.Live.Moves.{stay-Live, has-put, has-behind, Ready-behind, Ready-away}
use rtx.Kernel.Live.Stays.{Stays, stays-Live}

wake_requester-Stays : (s : Kernel) → Stays s (wake_requester s)
unfolding wake_requester make_ready
wake_requester-Stays s = record {
  rest = elim (Bool-cases ((ProcPq.dequeue (some s.blocked_request_env_pq) s.procs).0 == null)) [
    | inl e ↦ rw e refl
    | inr e ↦ rw e refl
  ];
  same = record { priority = λ a. ground arith; i_process = λ a. ground arith };
}

-- The process that is woken does not execute.
wake_requester-executing :
    (s : Kernel) (x a : Ptr)
    → (ProcPq.dequeue (some s.blocked_request_env_pq) s.procs).0 ≡ x
    → a ≢ x
    → ((wake_requester s).pcbs a).state ≡ (s.pcbs a).state
unfolding wake_requester make_ready
wake_requester-executing s x a first d = rw first (ground arith)

module _ {z : Ptr} (s : Kernel) (l : Live z (view s)) where
  waiting_other :
      (k : ℕ) (x : Ptr) (xs : List Ptr)
      → IsNext s.blocked_request_env_pq l.queues k x xs
      → l.who ≢ x
  waiting_other k x xs n e =
      elim (next-Waits l.calm.sched s.blocked_request_env_pq l.calm.sched.blocked k x xs n) [
        | inl w ↦ absurd (ground (arith, w.state, l.executing, e))
        | inr w ↦ absurd (ground (arith, w.state, l.executing, e))
      ]

  wake_requester-Live : Live z (view (wake_requester s))
  wake_requester-Live =
      let h = l.calm.sched in
      let b = s.blocked_request_env_pq in
      elim (IsNext-cases b l.queues b.num_priorities (omega arith)) [
        | inl none_wait ↦
            subst (λ t. Live z (view t)) (sym (wake_requester_none s l.queues h none_wait)) l
        | inr (k, x, xs, n) ↦
            let c' = put l.queues (queue b k) xs in
            let q = queue s.ready_pq k in
            let known = l.calm.members (queue b k) x (rw n.full (ground arith)) in
            let first = (dequeue_next h b h.blocked k x xs n s.pcbs λ a d. refl).0 in
            let (sched, ready) = wake_requester-Sched s l.queues h k x xs n l.calm.fits in
            let members =
              has-put (Known (view s)) l.queues (queue b k) xs l.calm.members
                (λ a i. l.calm.members (queue b k) a (rw n.full (ground arith))) in
            stays-Live l (wake_requester-Stays s) (woken s l.queues k x xs) sched
              (wake_requester-executing s x l.who first (waiting_other k x xs n) ∙ l.executing)
              (has-behind (Known (view s)) c' q x members known)
              (λ r.
                Ready-behind c' q x
                  (Ready-away l.queues (queue b k) xs (λ i small. h.apart i k small n.within) r))
      ]

-- The counter of the caller changes nothing else.
owns_less-Live :
    {z : Ptr} (s : Kernel) → Live z (view s) → Live z (view (set_pcb s.current_process owns_less s))
owns_less-Live {z} s l =
    let s' = set_pcb s.current_process owns_less s in
    stay-Live l s.procs s'.pcbs l.queues
      (relabel-IsSched l.calm.sched s'.pcbs (λ a. ground arith) (λ a. ground arith))
      (record { priority = λ a. ground arith; i_process = λ a. ground arith }) (ground arith)
      l.calm.members (λ r. r)

pub release-Live :
    {z : Ptr} (e : Ptr) (s : Kernel) → Live z (view s) → Live z (view (k_release_msg_env e s).1)
unfolding k_release_msg_env
release-Live {z} e s l = elim (Bool-cases (no_envelope e s)) [
  | inl missing ↦ rw missing l
  | inr there ↦ elim (Bool-cases (k_is_msg_env_sys_env e s)) [
    | inl sys ↦
        let s₁ : Kernel = record s { mail = (MsgEnvQueue.enqueue s.sys_free_env_q e s.mail).1 } in
        rw (there, sys) (owns_less-Live s₁ l)
    | inr common ↦
        let s₁ : Kernel = record s { mail = (MsgEnvQueue.enqueue s.free_env_q e s.mail).1 } in
        rw (there, common) (owns_less-Live (wake_requester s₁) (wake_requester-Live s₁ l))
  ]
]
