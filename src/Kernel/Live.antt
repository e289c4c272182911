-- ===== src/Kernel/Live.antt =====
-- The processes between two traps, for the primitives of coldfire/kern/src/k_primitives.c: the scheduler's
-- view, a process that runs, and the null process ready to run.
pub mod Moves
pub mod Stays
pub mod Release
pub mod Blocks
pub mod Steps
use rtx.Base.{ℕ, ◌+◌, ◌*◌, ◌<◌, ◌≤◌, ◌≡◌, ◌≢◌, ◌⊎◌, true, false, has}
use rtx.Base.Int.{pos}
use rtx.Rtx.{p_executing}
use rtx.Links.{Ptr, null, Queues}
use rtx.Links.Contents.{Contents}
use rtx.Process.{Pcbs}
use rtx.ProcPq.{ProcPq}
use rtx.ProcPq.Refines.{queue}
use rtx.Kernel.{Kernel}
use rtx.Kernel.Sched.{IsSched}

-- The part of the kernel that is about processes.
pub record View : Type 0 where
  pub p_table : Ptr
  pub num_processes : ℕ
  pub procs : Queues
  pub pcbs : Pcbs
  pub ready_pq : ProcPq
  pub blocked_pq : ProcPq
  pub current_process : Ptr
  pub interrupted_process : Ptr

abbrev pub view : Kernel → View
view s = record {
  p_table = s.p_table;
  num_processes = s.num_processes;
  procs = s.procs;
  pcbs = s.pcbs;
  ready_pq = s.ready_pq;
  blocked_pq = s.blocked_request_env_pq;
  current_process = s.current_process;
  interrupted_process = s.interrupted_process;
}

-- A process of the table.
pub record Known (v : View) (p : Ptr) : Type 0 where
  pub index : ℕ
  pub within : index < v.num_processes
  pub at : p ≡ v.p_table + index * 52

-- A priority that has a ready queue and, but for the null process `z`, one for waiting.
pub record Ranked (z : Ptr) (v : View) (p : Ptr) : Type 0 where
  pub level : ℕ
  pub at : (v.pcbs p).priority ≡ pos level
  pub below : level < v.ready_pq.num_priorities
  pub low : p ≢ z → level < v.blocked_pq.num_priorities

-- The processes in the queues, and the table.
pub record Calm (z : Ptr) (v : View) (c : Contents) : Type 0 where
  pub sched : IsSched v.procs v.pcbs v.ready_pq v.blocked_pq c
  pub members : (q p : Ptr) → has p (c q) ≡ true → Known v p
  pub ranked : (p : Ptr) → Known v p → Ranked z v p
  pub placed : (p : Ptr) → Known v p → p ≢ null
  pub fits : v.blocked_pq.num_priorities ≤ v.ready_pq.num_priorities

-- The process `z` stands in a ready queue.
pub record Ready (z : Ptr) (v : View) (c : Contents) : Type 0 where
  pub level : ℕ
  pub below : level < v.ready_pq.num_priorities
  pub queued : has z (c (queue v.ready_pq level)) ≡ true

-- The process `who` has the processor, or has been interrupted by an i-process that has it.
pub record Live (z : Ptr) (v : View) : Type 0 where
  pub queues : Contents
  pub calm : Calm z v queues
  pub who : Ptr
  pub known : Known v who
  pub executing : (v.pcbs who).state ≡ p_executing
  pub turn :
      ((v.interrupted_process ≡ null) × (v.current_process ≡ who))
      ⊎ ((v.interrupted_process ≡ who) × ((v.pcbs v.current_process).is_i_process ≡ true))
  pub idle : (who ≡ z) ⊎ Ready z v queues
