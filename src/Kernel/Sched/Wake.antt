-- ===== src/Kernel/Sched/Wake.antt =====
-- Waking processes: `k_send_message` wakes a receiver, and the scheduler's view stays right.
use rtx.Base.{ℕ, ◌<◌, ◌≡◌, ◌≢◌, refl, sym, ◌∙◌, ◌⊎◌, inl, inr, false, [], ◌∷◌, ◌++◌, arith, ==_refl}
use rtx.Base.Int.{ℤ, pos}
use rtx.Rtx.{ProcessState, p_ready, p_blocked_on_receive}
use rtx.Links.{Ptr, null, update}
use rtx.Links.Contents.{Contents, put}
use rtx.Links.Moves.{IsFree}
use rtx.ProcPq.Refines.{queue}
use rtx.Kernel.{Kernel, with_state}
use rtx.Kernel.Table.{k_get_process}
use rtx.Kernel.Primitives.{no_envelope, make_ready, wake_if_blocked, wake_receiver, k_send_message}
use rtx.Kernel.Send.{posted, send_posted}
use rtx.Kernel.Sched.{Sched}
use rtx.Kernel.Sched.Moves.{change-IsSched, enqueue-IsSched, relabel-IsSched, IsFree-of_state}

-- A process that stands in no queue is made ready, at the end of the queue of its priority.
pub make_ready-Sched :
    (s : Kernel) (c : Contents) (p : Ptr) (k : ℕ)
    → Sched s c
    → p ≢ null
    → IsFree p c
    → (s.pcbs p).priority ≡ pos k
    → k < s.ready_pq.num_priorities
    → Sched (make_ready p s) (put c (queue s.ready_pq k) (c (queue s.ready_pq k) ++ p ∷ []))
      × (((make_ready p s).pcbs p).state ≡ p_ready)
unfolding make_ready
make_ready-Sched s c p k h np free at below =
    let pcbs = update s.pcbs p (with_state p_ready (s.pcbs p)) in
    let h' = change-IsSched h pcbs p free λ a d. ground arith in
    (
      enqueue-IsSched h' s.ready_pq pcbs p k h.ready np free (ground arith) below (λ a d. refl)
          (inl (record {
            level = k;
            within = below;
            here = refl;
            state = ground arith;
            priority = ground arith;
          })),
      rw (==_refl p),
    )

-- A receiver that is blocked is woken; any other is left alone.
pub wake-Sched :
    (st : ProcessState) (s : Kernel) (c : Contents) (p : Ptr) (k : ℕ)
    → (s.pcbs p).state ≡ st
    → Sched s c
    → p ≢ null
    → (s.pcbs p).priority ≡ pos k
    → k < s.ready_pq.num_priorities
    → ((st ≡ p_blocked_on_receive)
        × Sched
            (wake_if_blocked st p s)
            (put c (queue s.ready_pq k) (c (queue s.ready_pq k) ++ p ∷ []))
        × (((wake_if_blocked st p s).pcbs p).state ≡ p_ready))
      ⊎ ((st ≢ p_blocked_on_receive)
          × Sched (wake_if_blocked st p s) c
          × (((wake_if_blocked st p s).pcbs p).state ≡ st))
unfolding wake_if_blocked
wake-Sched p_blocked_on_receive s c p k is h np at below =
    let free = IsFree-of_state h p (λ e. cc) (λ e. cc) in
    let (sched, ready) = make_ready-Sched s c p k h np free at below in inl (refl, sched, ready)
wake-Sched st s c p k is h np at below = inr (λ e. cc, h, is)

-- `k_send_message` of an envelope that has a message, to a pid that a process has, keeps the
-- scheduler's view (every queued process is in the state and of the priority of its queue), where
-- the receiver's priority has a ready queue. A receiver that was blocked on receive is ready
-- afterwards and stands at the end of the ready queue of its priority; any other keeps its state,
-- and no queue of processes changes.
pub send-Sched :
    (pid : ℤ) (e : Ptr) (s : Kernel) (c : Contents) (k : ℕ)
    → no_envelope e s ≡ false
    → k_get_process pid s ≢ null
    → Sched s c
    → (s.pcbs (k_get_process pid s)).priority ≡ pos k
    → k < s.ready_pq.num_priorities
    → let p = k_get_process pid s in
      let s' = (k_send_message pid e s).1 in
      (((s.pcbs p).state ≡ p_blocked_on_receive)
        × Sched s' (put c (queue s.ready_pq k) (c (queue s.ready_pq k) ++ p ∷ []))
        × ((s'.pcbs p).state ≡ p_ready))
      ⊎ (((s.pcbs p).state ≢ p_blocked_on_receive)
          × Sched s' c
          × ((s'.pcbs p).state ≡ (s.pcbs p).state))
unfolding wake_receiver
send-Sched pid e s c k there known h at below =
    let p = k_get_process pid s in
    let s₁ = posted pid e s in
    let same : (s₁.pcbs p).state ≡ (s.pcbs p).state = ground arith in
    let h₁ = relabel-IsSched h s₁.pcbs (λ a. ground arith) (λ a. ground arith) in
    rw (send_posted pid e s there known)
      (elim (wake-Sched (s₁.pcbs p).state s₁ c p k refl h₁ known (ground arith) below) [
        | inl (blocked, sched, ready) ↦ inl (sym same ∙ blocked, sched, ready)
        | inr (d, sched, stays) ↦ inr (λ e. d (same ∙ e), sched, stays ∙ same)
      ])
