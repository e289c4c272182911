-- ===== src/Tests/System.antt =====
-- A system of three processes: the null process, ready; process 1, which runs; process 2, which is
-- blocked on receive. One envelope is in the pool, one in the reserve, one in the hands of process 1.
use rtx.Base.{ℕ, ◌+◌, ◌≡◌, refl, true, false, [], ◌∷◌, inl, inr, arith, ==_cases, some}
use rtx.Base.Int.{pos}
use rtx.Rtx.{ProcessState, p_ready, p_executing, p_blocked_on_receive}
use rtx.Links.{Ptr, Queues, blank, update}
use rtx.Links.Contents.{Contents, put, Holds, blank-Holds}
use rtx.Process.{Pcb, Pcbs}
use rtx.Message.{MsgEnv}
use rtx.Trace.{TraceCircleBuf}
use rtx.ProcQueue
use rtx.ProcQueue.Refines.{enqueue-Holds}
use rtx.MsgEnvQueue
use rtx.MsgEnvQueue.Refines.{enqueue_env-Holds}
use rtx.Kernel.{Kernel}
use rtx.Kernel.Sched.{Sched}

abbrev pub process : ℕ → ℕ → ProcessState → Ptr → Pcb
process pid priority state mailbox = record {
  pid = pos pid;
  name = "process";
  priority = pos priority;
  state = state;
  stack_ptr = 0;
  is_i_process = false;
  recv_msgs = mailbox;
  start = 0;
  stack_begin = 0;
  stack_bottom = 0;
  first_time = true;
  env_owned = pos 1;
}

abbrev pub pcbs : Pcbs
pcbs =
    update (update (λ _. process 0 3 p_ready 230) 1052 (process 1 1 p_executing 231)) 1104
      (process 2 1 p_blocked_on_receive 232)

abbrev pub procs : Queues
procs = (ProcQueue.enqueue 203 1000 blank).1

abbrev pub queued : Contents
queued = put (λ _. []) 203 (1000 ∷ [])

procs-Holds : Holds procs queued
procs-Holds = enqueue-Holds blank-Holds 203 1000 (omega arith) (omega arith) (λ q. refl) [] refl

abbrev pub mail : Queues
mail = (MsgEnvQueue.enqueue 221 540 (MsgEnvQueue.enqueue 220 520 blank).1).1

abbrev pub posted : Contents
posted = put (put (λ _. []) 220 (520 ∷ [])) 221 (540 ∷ [])

pub mail-Holds : Holds mail posted
mail-Holds =
    enqueue_env-Holds
      (enqueue_env-Holds blank-Holds 220 520 (omega arith) (omega arith) (λ q. refl) [] refl) 221
      540 (omega arith) (omega arith) (λ q. ground arith) [] refl

abbrev pub letter : MsgEnv
letter = record { dest_pid = pos 0; send_pid = pos 0; msg_type = pos 7; msg = some (λ _. 0) }

abbrev pub ring : TraceCircleBuf
ring = record {
  tail = 0;
  buf = λ _. record { dest_pid = pos 0; send_pid = pos 0; msg_type = pos 0; time_stamp = 0 };
}

abbrev pub system : Kernel
system = record {
  pcbs = pcbs;
  procs = procs;
  envs = λ _. letter;
  mail = mail;
  current_process = 1052;
  interrupted_process = 0;
  p_table = 1000;
  num_processes = 3;
  pid_table = pos;
  ready_pq = record { num_priorities = 4; priority_queues = λ i. 200 + i };
  blocked_request_env_pq = record { num_priorities = 3; priority_queues = λ i. 210 + i };
  free_env_q = 220;
  sys_free_env_q = 221;
  env_pool = 500;
  sys_env_pool = 540;
  send_trace_buf = ring;
  recv_trace_buf = ring;
  clock = 42;
  timeout_queue = 0;
  serial1_imr = 2;
}

pub system-Sched : Sched system queued
system-Sched = record {
  holds = procs-Holds;
  ready = record { some_queue = λ i a. omega arith; distinct = λ i j a b e. omega arith };
  blocked = record { some_queue = λ i a. omega arith; distinct = λ i j a b e. omega arith };
  apart = λ i j a b. omega arith;
  waits = λ q p i. elim (==_cases q 203) [
    | inl (e, eq) ↦
        let is : p ≡ 1000 = ground arith in
        inl (record {
          level = 3;
          within = omega arith;
          here = omega arith;
          state = rw is;
          priority = rw is;
        })
    | inr (e, d) ↦ absurd (ground arith)
  ];
}
