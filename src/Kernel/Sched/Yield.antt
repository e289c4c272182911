-- ===== src/Kernel/Sched/Yield.antt =====
-- Giving up the processor: `k_release_processor`, and the blocking ends of `k_receive_message` and
-- `k_request_msg_env`. Each runs the next ready process.
use rtx.Base.{
  ℕ, ◌<◌, ◌≡◌, ◌≢◌, refl, inl, inr, true, false, List, [], ◌∷◌, ◌++◌, arith, has, ==_of_ne, ==_refl,
  has-append_one,
}
use rtx.Base.Int.{pos}
use rtx.Rtx.{code_success, p_ready, p_blocked_on_env_request, p_blocked_on_receive}
use rtx.Links.{Ptr, null, update}
use rtx.Links.Contents.{Contents, put, Holds}
use rtx.Links.Moves.{IsFree}
use rtx.MsgEnvQueue.Refines.{is_empty_of_empty}
use rtx.Process.{Pcbs}
use rtx.ProcPq.{ProcPq}
use rtx.ProcPq.Refines.{queue}
use rtx.Kernel.{Kernel, current, with_state, later, again}
use rtx.Kernel.Primitives.{k_receive_message, k_request_msg_env, k_release_processor}
use rtx.Kernel.Sched.{Sched, IsNext}
use rtx.Kernel.Sched.Moves.{change-IsSched, enqueue-IsSched, with_state-Waits, IsNext-cases}
use rtx.Kernel.Sched.Run.{Runs, switch-Runs, switch-others}

-- Where a process is ready, there is a next process.
pub IsNext-of_has :
    (s : Kernel) (c : Contents) (p : Ptr) (k : ℕ)
    → k < s.ready_pq.num_priorities
    → has p (c (queue s.ready_pq k)) ≡ true
    → (j : ℕ) × (x : Ptr) × (xs : List Ptr) × IsNext s.ready_pq c j x xs
IsNext-of_has s c p k below i =
    elim (IsNext-cases s.ready_pq c s.ready_pq.num_priorities (omega arith)) [
      | inr found ↦ found
      | inl empty ↦ absurd (ground (arith, empty k below))
    ]

-- The next process is the same after a change of a queue of another priority queue.
IsNext-put :
    (ppq : ProcPq) (c : Contents) (q : Ptr) (ys : List Ptr) (j : ℕ) (x : Ptr) (xs : List Ptr)
    → IsNext ppq c j x xs
    → ((i : ℕ) → i < ppq.num_priorities → queue ppq i ≢ q)
    → IsNext ppq (put c q ys) j x xs
IsNext-put ppq c q ys j x xs n away = record {
  within = n.within;
  before = λ i small.
      let fits : i < ppq.num_priorities = omega (arith, n.within) in
      rw (==_of_ne (away i fits)) (n.before i small);
  full = rw (==_of_ne (away j n.within)) n.full;
}

module _ (s : Kernel) (c : Contents) (h : Sched s c) (free : IsFree s.current_process c) where
  module _ (np : s.current_process ≢ null) (k : ℕ) (at : (current s).priority ≡ pos k) where
    -- The contents with the current process at the end of a queue.
    abbrev behind : Ptr → Contents
    behind q = put c q (c q ++ s.current_process ∷ [])

    -- `k_release_processor`, called by a process that stands in no queue and whose priority has a
    -- ready queue, puts it at the end of that queue; then the front of the most urgent ready
    -- queue that is not empty runs, and the scheduler's view is kept. There always is such a
    -- process, so the call reports success once the caller runs again.
    pub release_processor-Runs :
        k < s.ready_pq.num_priorities
        → let c' = behind (queue s.ready_pq k) in
          (j : ℕ) × (x : Ptr) × (xs : List Ptr) × IsNext s.ready_pq c' j x xs
          × ((k_release_processor s).0 ≡ later code_success)
          × Runs (k_release_processor s).1 (put c' (queue s.ready_pq j) xs) x
    unfolding k_release_processor
    release_processor-Runs below =
        let q = queue s.ready_pq k in
        let (j, x, xs, n) = IsNext-of_has s (behind q) s.current_process k below (
          rw (==_refl q)
            (ground (arith, has-append_one s.current_process s.current_process (c q)))) in
        let pcbs = update s.pcbs s.current_process (with_state p_ready (current s)) in
        let sched =
          enqueue-IsSched h s.ready_pq pcbs s.current_process k h.ready np free at below
            (λ a d. ground arith)
            (inl (
              rw (==_refl s.current_process)
                (with_state-Waits s.ready_pq p_ready k (current s) below at))) in
        (j, x, xs, n, refl, switch-Runs _ (behind q) p_ready sched j x xs n)

    -- `k_request_msg_env`, called by a process that is no i-process and stands in no queue, while
    -- the pool is empty and some process is ready, puts the caller at the end of the queue of
    -- waiting processes of its priority; the front of the most urgent ready queue that is not
    -- empty runs, and the scheduler's view is kept. The caller tests the pool again once it runs
    -- again.
    pub request_msg_env-Runs :
        (m : Contents)
        → Holds s.mail m
        → m s.free_env_q ≡ []
        → (current s).is_i_process ≡ false
        → k < s.blocked_request_env_pq.num_priorities
        → (j : ℕ) (x : Ptr) (xs : List Ptr) → IsNext s.ready_pq c j x xs
        → ((k_request_msg_env s).0 ≡ again)
          × Runs
              (k_request_msg_env s).1
              (put (behind (queue s.blocked_request_env_pq k)) (queue s.ready_pq j) xs)
              x
    unfolding k_request_msg_env
    request_msg_env-Runs m mail empty process below j x xs n =
        let q = queue s.blocked_request_env_pq k in
        let pcbs : Pcbs =
          update s.pcbs s.current_process (with_state p_blocked_on_env_request (current s)) in
        let sched =
          enqueue-IsSched h s.blocked_request_env_pq pcbs s.current_process k h.blocked np free at
            below (λ a d. ground arith)
            (inr (
              rw (==_refl s.current_process) (
                with_state-Waits s.blocked_request_env_pq p_blocked_on_env_request k (current s)
                  below at))) in
        let n' = IsNext-put s.ready_pq c q _ j x xs n λ i small. h.apart i k small below in
        rw (is_empty_of_empty mail s.free_env_q empty, process)
          (refl, switch-Runs _ (behind q) p_blocked_on_env_request sched j x xs n')

  -- `k_receive_message`, called by a process that is no i-process and stands in no queue, while
  -- its mailbox is empty and some process is ready, leaves the caller blocked on receive; the
  -- front of the most urgent ready queue that is not empty runs, and the scheduler's view is
  -- kept. The caller tests its mailbox again once it runs again.
  pub receive_message-Runs :
      (m : Contents)
      → Holds s.mail m
      → m (current s).recv_msgs ≡ []
      → (current s).is_i_process ≡ false
      → (j : ℕ) (x : Ptr) (xs : List Ptr) → IsNext s.ready_pq c j x xs
      → ((k_receive_message s).0 ≡ again)
        × Runs (k_receive_message s).1 (put c (queue s.ready_pq j) xs) x
        × (((k_receive_message s).1.pcbs s.current_process).state ≡ p_blocked_on_receive)
  unfolding k_receive_message
  receive_message-Runs m mail empty process j x xs n =
      let pcbs : Pcbs =
        update s.pcbs s.current_process (with_state p_blocked_on_receive (current s)) in
      let sched = change-IsSched h pcbs s.current_process free λ a d. ground arith in
      let away : s.current_process ≢ x = ground (arith, n.full, free (queue s.ready_pq j)) in
      rw (is_empty_of_empty mail (current s).recv_msgs empty, process)
        (
          refl,
          switch-Runs s c p_blocked_on_receive sched j x xs n,
          rw (switch-others s c p_blocked_on_receive sched j x xs n s.current_process away)
              (ground arith),
        )
