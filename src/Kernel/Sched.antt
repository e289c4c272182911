-- ===== src/Kernel/Sched.antt =====
-- The scheduler's view of the kernel: which process stands in which queue, and in which state.
pub mod Moves
pub mod Run
pub mod Wake
pub mod Release
pub mod Yield
use rtx.Base.{ℕ, ◌+◌, ◌<◌, ◌≡◌, ◌≢◌, ◌⊎◌, true, false, List, [], ◌∷◌, has, some}
use rtx.Base.Int.{ℤ, pos}
use rtx.Rtx.{ProcessState, p_ready, p_blocked_on_env_request}
use rtx.Links.{Ptr, Queues}
use rtx.Links.Contents.{Contents, Holds}
use rtx.Links.Moves.{IsFree}
use rtx.Process.{Pcb, Pcbs}
use rtx.ProcPq.{ProcPq}
use rtx.ProcPq.Refines.{queue, IsPq}
use rtx.Kernel.{Kernel}

-- A process at priority `k` of a priority queue is in that queue's state, and of that priority.
pub record Waits (ppq : ProcPq) (st : ProcessState) (q : Ptr) (p : Pcb) : Type 0 where
  pub level : ℕ
  pub within : level < ppq.num_priorities
  pub here : q ≡ queue ppq level
  pub state : p.state ≡ st
  pub priority : p.priority ≡ pos level

-- The queues `c` are those in memory, and hold ready processes and processes that wait for an
-- envelope, each in the queue of its priority.
pub record IsSched (procs : Queues) (pcbs : Pcbs) (ready_pq blocked_pq : ProcPq) (c : Contents)
    : Type 0 where
  pub holds : Holds procs c
  pub ready : IsPq ready_pq
  pub blocked : IsPq blocked_pq
  pub apart :
      (i j : ℕ)
      → i < ready_pq.num_priorities
      → j < blocked_pq.num_priorities
      → queue ready_pq i ≢ queue blocked_pq j
  pub waits :
      (q p : Ptr)
      → has p (c q) ≡ true
      → Waits ready_pq p_ready q (pcbs p) ⊎ Waits blocked_pq p_blocked_on_env_request q (pcbs p)

abbrev pub Sched : Kernel → Contents → Type 0
Sched s c = IsSched s.procs s.pcbs s.ready_pq s.blocked_request_env_pq c

-- `x` is the front of the most urgent queue that is not empty, and `xs` stands behind it.
pub record IsNext (ppq : ProcPq) (c : Contents) (k : ℕ) (x : Ptr) (xs : List Ptr) : Type 0 where
  pub within : k < ppq.num_priorities
  pub before : (j : ℕ) → j < k → c (queue ppq j) ≡ []
  pub full : c (queue ppq k) ≡ x ∷ xs
