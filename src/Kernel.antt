-- ===== src/Kernel.antt =====
-- The kernel of the ColdFire port: its global variables (coldfire/kern/inc/k_globals.h and the
-- statics of coldfire/kern/src/*.c) as one record that every primitive takes and returns.
-- Structs stand at byte addresses: a process control block takes 52 bytes, an envelope 20.
pub mod Table
pub mod Switch
pub mod Primitives
pub mod Services
pub mod Sched
pub mod Live
pub mod Timer
pub mod Uart
pub mod Boot
pub mod Send
pub mod Receive
pub mod Envelopes
use rtx.Base.{ℕ, Bool, ◌==◌, if◌then◌else◌}
use rtx.Base.Int.{ℤ}
use rtx.Rtx.{ProcessState}
use rtx.Links.{Ptr, Queues, update}
use rtx.Process.{Pcb, Pcbs}
use rtx.ProcPq.{ProcPq}
use rtx.Message.{MsgEnv}
use rtx.Trace.{TraceCircleBuf}

pub record Kernel : Type 0 where
  pub pcbs : Pcbs
  pub procs : Queues
  pub envs : Ptr → MsgEnv
  pub mail : Queues
  pub current_process : Ptr
  pub interrupted_process : Ptr
  pub p_table : Ptr
  pub num_processes : ℕ
  pub pid_table : ℕ → ℤ
  pub ready_pq : ProcPq
  pub blocked_request_env_pq : ProcPq
  pub free_env_q : Ptr
  pub sys_free_env_q : Ptr
  pub env_pool : Ptr
  pub sys_env_pool : Ptr
  pub send_trace_buf : TraceCircleBuf
  pub recv_trace_buf : TraceCircleBuf
  pub clock : ℕ
  pub timeout_queue : Ptr
  -- The device register SERIAL1_IMR, as last written.
  pub serial1_imr : ℕ

abbrev pub current : Kernel → Pcb
current s = s.pcbs s.current_process

-- `pcb->f = …` and `env->f = …`
abbrev pub set_pcb : Ptr → (Pcb → Pcb) → Kernel → Kernel
set_pcb p f s = record s { pcbs = update s.pcbs p (f (s.pcbs p)) }

abbrev pub set_env : Ptr → (MsgEnv → MsgEnv) → Kernel → Kernel
set_env e f s = record s { envs = update s.envs e (f (s.envs e)) }

abbrev pub with_state : ProcessState → Pcb → Pcb
with_state st p = record p { state = st }

-- How a primitive that can give up the processor comes back: at once with a result; with a result
-- once the process runs again; or by making its test again once the process runs again.
pub data Reply (A : Type 0) : Type 0 where
  now : A → Reply A
  later : A → Reply A
  again : Reply A
