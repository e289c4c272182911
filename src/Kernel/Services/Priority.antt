-- ===== src/Kernel/Services/Priority.antt =====
-- `k_change_priority`: a process that waits in a queue goes to the queue of its new priority.
use rtx.Base.{
  ℕ, ◌<◌, ◌≤◌, ◌≡◌, ◌≢◌, refl, ap, ◌||◌, true, false, ◌⊎◌, inl, inr, List, [], ◌∷◌, ◌++◌, has,
  last_of, erase, length, some, Option, arith, ==_cases, Bool-cases, ==_refl, ==_of_ne,
}
use rtx.Base.Int.{ℤ, pos, is_negative, eqb_ℤ}
use rtx.Rtx.{ProcessState, code_success, p_ready, p_blocked_on_env_request}
use rtx.Links.{Ptr, null, Queues, update}
use rtx.Links.Chain.{IsChain, not-has-zero, has-erase, has-erase_self}
use rtx.Links.Contents.{Contents, put}
use rtx.Links.Moves.{IsFree}
use rtx.Process.{Pcb, Pcbs}
use rtx.ProcPq
use rtx.ProcPq.{ProcPq, in_range}
use rtx.ProcPq.Refines.{queue, IsPq}
use rtx.ProcQueue.Remove.{remove-erase}
use rtx.Kernel.{Kernel, set_pcb}
use rtx.Kernel.Table.{k_get_process}
use rtx.Kernel.Primitives.{null_pid, num_priorities}
use rtx.Kernel.Services.{requeue, k_change_priority, with_code}
use rtx.Kernel.Sched.{Waits, IsSched, Sched}
use rtx.Kernel.Sched.Moves.{change-IsSched, enqueue-IsSched, IsFree-of_state}

module _ {procs : Queues} {pcbs : Pcbs} {r b : ProcPq} {c : Contents} (h : IsSched procs pcbs r b c)
    (ppq : ProcPq) (w : IsPq ppq) where
  -- A process that stands at the front of the queue of its priority, or not at its end, is taken
  -- out, and stands in no queue then.
  remove-IsSched :
      (fuel : ℕ) (p : Ptr) (k : ℕ) (x : Ptr) (xs : List Ptr)
      → (pcbs p).priority ≡ pos k
      → k < ppq.num_priorities
      → c (queue ppq k) ≡ x ∷ xs
      → has p (x ∷ xs) ≡ true
      → (p ≡ x) ⊎ (last_of x xs ≢ p)
      → length xs < fuel
      → (procs' : Queues) × (ProcPq.remove fuel (some ppq) p pcbs procs ≡ some (p, procs'))
        × IsSched procs' pcbs r b (put c (queue ppq k) (erase p (x ∷ xs)))
        × IsFree p (put c (queue ppq k) (erase p (x ∷ xs)))
        × (p ≢ null)
  unfolding ProcPq.remove
  remove-IsSched fuel p k x xs at below full found position enough =
      let q = queue ppq k in
      let (procs', runs, holds) =
        remove-erase h.holds q (w.some_queue k below) p x xs fuel full found position enough in
      let chain : IsChain procs.next (procs.head q) (x ∷ xs) = rw full at (h.holds.chain q) in
      let ne : p ≢ null = ground (arith, not-has-zero procs.next (procs.head q) (x ∷ xs) chain) in
      let fits : in_range (pos k) ppq.num_priorities ≡ true = ground arith in
      (
        procs',
        rw (==_of_ne ne, at, fits) runs,
        record {
          holds = holds;
          ready = h.ready;
          blocked = h.blocked;
          apart = h.apart;
          waits = λ t a i. h.waits t a (elim (==_cases t q) [
            | inl (e, eq) ↦ rw (eq, full) (has-erase a p (x ∷ xs) (rw e at i))
            | inr (e, d) ↦ rw e at i
          ]);
        },
        λ t. elim (==_cases t q) [
          | inl (e, eq) ↦ rw e (has-erase_self procs.next (procs.head q) p (x ∷ xs) chain)
          | inr (e, d) ↦ rw e (elim (Bool-cases (has p (c t))) [
            | inl i ↦ absurd (d (h.holds.apart t q p i (rw full found)))
            | inr out ↦ out
          ])
        ],
        ne,
      )

-- A process is of a new priority.
abbrev pub of_priority : ℤ → Pcb → Pcb
of_priority new_priority p = record p { priority = new_priority }

requeue-Sched :
    (fuel : ℕ) (s : Kernel) (c : Contents) (ppq : ProcPq) (p : Ptr) (k k' : ℕ) (x : Ptr)
    (xs : List Ptr)
    → Sched s c
    → IsPq ppq
    → (Waits s.ready_pq p_ready (queue ppq k') (of_priority (pos k') (s.pcbs p))
        ⊎ Waits s.blocked_request_env_pq p_blocked_on_env_request
            (queue ppq k')
            (of_priority (pos k') (s.pcbs p)))
    → (s.pcbs p).priority ≡ pos k
    → k < ppq.num_priorities
    → k' < ppq.num_priorities
    → c (queue ppq k) ≡ x ∷ xs
    → has p (x ∷ xs) ≡ true
    → (p ≡ x) ⊎ (last_of x xs ≢ p)
    → length xs < fuel
    → let c' = put c (queue ppq k) (erase p (x ∷ xs)) in
      (s' : Kernel) × (requeue fuel ppq p (pos k') s ≡ some s')
      × Sched s' (put c' (queue ppq k') (c' (queue ppq k') ++ p ∷ []))
unfolding requeue
requeue-Sched fuel s c ppq p k k' x xs h w side at below below' full found position enough =
    let c' = put c (queue ppq k) (erase p (x ∷ xs)) in
    let (procs, runs, h', free, ne) =
      remove-IsSched h ppq w fuel p k x xs at below full found position enough in
    let pcbs = update s.pcbs p (of_priority (pos k') (s.pcbs p)) in
    let h'' = change-IsSched h' pcbs p free λ a d. rw (==_of_ne d) refl in
    (
      record s { pcbs = pcbs; procs = (ProcPq.enqueue (some ppq) p pcbs procs).1 },
      rw (requeue, runs) refl,
      enqueue-IsSched h'' ppq pcbs p k' w ne free (rw (==_refl p) refl) below' (λ a d. refl)
          (rw (==_refl p) side),
    )

-- A process in neither queue is in the default case of the `switch`.
switch_default :
    {A : Type 0} (st : ProcessState) (ready waiting other : A)
    → st ≢ p_ready
    → st ≢ p_blocked_on_env_request
    → elim st as (λ x. A) [ p_ready ↦ ready | p_blocked_on_env_request ↦ waiting | _ ↦ other ]
      ≡ other
switch_default p_ready ready waiting other d d' = absurd (d refl)
switch_default p_blocked_on_env_request ready waiting other d d' = absurd (d' refl)
switch_default _ ready waiting other d d' = refl

-- The process may be given another priority: it is no i-process, and none of the system's.
pub record IsUser (p : Pcb) : Type 0 where
  pub no_interrupt : p.is_i_process ≡ false
  pub positive : (is_negative p.pid || eqb_ℤ p.pid null_pid) ≡ false

module _ (fuel : ℕ) (pid : ℤ) (s : Kernel) (c : Contents) (k k' : ℕ) (h : Sched s c)
    (user : IsUser (s.pcbs (k_get_process pid s)))
    (at : (s.pcbs (k_get_process pid s)).priority ≡ pos k) (valid : k' < num_priorities)
    (new : k ≢ k') where
  -- The call comes to the `switch` on the state.
  change_priority_lem :
      (after : Option Kernel)
      → elim (s.pcbs (k_get_process pid s)).state as (λ st. Option Kernel) [
        | p_ready ↦ requeue fuel s.ready_pq (k_get_process pid s) (pos k') s
        | p_blocked_on_env_request ↦
            requeue fuel s.blocked_request_env_pq (k_get_process pid s) (pos k') s
        | _ ↦ some (set_pcb (k_get_process pid s) (of_priority (pos k')) s)
      ]
        ≡ after
      → k_change_priority fuel (pos k') pid s ≡ with_code code_success after
  unfolding k_change_priority
  change_priority_lem after switch =
      let fits : in_range (pos k') num_priorities ≡ true = ground arith in
      rw (k_change_priority, fits, user.no_interrupt, user.positive, at, ==_of_ne new)
        (ap (with_code code_success) switch)

  -- `k_change_priority` of a ready user process to another valid priority, where the process is
  -- at the front of the ready queue of its priority or not its last, succeeds: the process leaves
  -- that queue, stands at the end of the ready queue of its new priority, and the scheduler's
  -- view is kept. The fuel is more than the processes behind the front of the queue. (A process
  -- at the end of a longer queue falls under the defect of `proc_queue_remove`.)
  pub change_priority-ready :
      (x : Ptr) (xs : List Ptr)
      → (s.pcbs (k_get_process pid s)).state ≡ p_ready
      → k < s.ready_pq.num_priorities
      → num_priorities ≤ s.ready_pq.num_priorities
      → c (queue s.ready_pq k) ≡ x ∷ xs
      → has (k_get_process pid s) (x ∷ xs) ≡ true
      → (k_get_process pid s ≡ x) ⊎ (last_of x xs ≢ k_get_process pid s)
      → length xs < fuel
      → let c' = put c (queue s.ready_pq k) (erase (k_get_process pid s) (x ∷ xs)) in
        (s' : Kernel) × (k_change_priority fuel (pos k') pid s ≡ some (code_success, s'))
        × Sched s'
            (put c' (queue s.ready_pq k') (c' (queue s.ready_pq k') ++ k_get_process pid s ∷ []))
  change_priority-ready x xs ready below wide full found position enough =
      let p = k_get_process pid s in
      let side : Waits s.ready_pq p_ready (queue s.ready_pq k') (of_priority (pos k') (s.pcbs p)) =
        record { level = k'; within = omega arith; here = refl; state = ready; priority = refl } in
      let (s', runs, h') =
        requeue-Sched fuel s c s.ready_pq p k k' x xs h h.ready (inl side) at below (omega arith)
          full found position enough in
      (s', change_priority_lem (some s') (rw (ready, runs) refl), h')

  -- `k_change_priority` of a user process that is neither ready nor waiting for an envelope, to
  -- another valid priority, succeeds on any fuel: the process has the new priority, no queue of
  -- processes changes, and the scheduler's view is kept.
  pub change_priority-elsewhere :
      (s.pcbs (k_get_process pid s)).state ≢ p_ready
      → (s.pcbs (k_get_process pid s)).state ≢ p_blocked_on_env_request
      → (s' : Kernel) × (k_change_priority fuel (pos k') pid s ≡ some (code_success, s'))
        × Sched s' c
        × ((s'.pcbs (k_get_process pid s)).priority ≡ pos k')
  change_priority-elsewhere not_ready not_waiting =
      let p = k_get_process pid s in
      let pcbs = update s.pcbs p (of_priority (pos k') (s.pcbs p)) in
      (
        record s { pcbs = pcbs },
        change_priority_lem (some (record s { pcbs = pcbs }))
            (switch_default (s.pcbs p).state _ _ _ not_ready not_waiting),
        change-IsSched h pcbs p (IsFree-of_state h p not_ready not_waiting)
            (λ a d. rw (==_of_ne d) refl),
        rw (==_refl p) refl,
      )
