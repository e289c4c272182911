-- ===== src/Kernel/Sched/Run.antt =====
-- `k_process_switch` runs the front of the most urgent queue that is not empty.
use rtx.Base.{ℕ, ◌≡◌, ◌≢◌, refl, List, some, arith}
use rtx.Rtx.{ProcessState, p_executing}
use rtx.Links.{Ptr, update}
use rtx.Links.Contents.{Contents, put}
use rtx.Links.Moves.{IsFree}
use rtx.ProcPq
use rtx.ProcPq.Refines.{queue}
use rtx.Kernel.{Kernel, current, with_state}
use rtx.Kernel.Switch.{k_process_switch}
use rtx.Kernel.Sched.{Sched, IsSched, IsNext}
use rtx.Kernel.Sched.Moves.{dequeue_next, next-IsFree}

-- After a switch process `x` runs: it is the current process, it is executing, it stands in no
-- queue, and the scheduler's view is `c`.
pub record Runs (s : Kernel) (c : Contents) (x : Ptr) : Type 0 where
  pub sched : Sched s c
  pub is_current : s.current_process ≡ x
  pub executing : (current s).state ≡ p_executing
  pub free : IsFree x c

module _ (s : Kernel) (c : Contents) (t : ProcessState)
    (h : IsSched s.procs
      (update s.pcbs s.current_process (with_state t (current s)))
      s.ready_pq
      s.blocked_request_env_pq
      c)
    (k : ℕ) (x : Ptr) (xs : List Ptr) (n : IsNext s.ready_pq c k x xs) where
  next_is : (ProcPq.dequeue (some s.ready_pq) s.procs).0 ≡ x
  next_is = (dequeue_next h s.ready_pq h.ready k x xs n _ λ a d. refl).0

  pub switch-Runs : Runs (k_process_switch t s) (put c (queue s.ready_pq k) xs) x
  unfolding k_process_switch
  switch-Runs = record {
    sched = (dequeue_next h s.ready_pq h.ready k x xs n _ λ a d. ground (arith, next_is)).1;
    is_current = next_is;
    executing = ground arith;
    free = next-IsFree h s.ready_pq h.ready k x xs n;
  }

  -- Every process but the one that runs is as before, the old one in the state it gave up in.
  pub switch-others :
      (a : Ptr)
      → a ≢ x
      → (k_process_switch t s).pcbs a ≡ update s.pcbs s.current_process (with_state t (current s)) a
  unfolding k_process_switch
  switch-others a d = ground (arith, next_is)
