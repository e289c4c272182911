-- ===== src/Unix/Crt.antt =====
-- unix/kern/src/crt_i_process.c and unix/crt/src/main.c: the i-process that puts texts into the memory
-- that it shares with another process of the host (unix/inc/crt_shmem.h), which prints them. Each reads
-- and writes that memory at any time, so a step of either is one test, one write, one character or one
-- signal. The mailbox and the queue of texts are lists here. A text is the characters before its zero. The
-- i-process runs when it is signalled: by the process that prints, after a text, and by a process that has
-- sent it one (`send_console_chars` of unix/kern/src/k_primitives.c). Signals that come while one is
-- pending are one.
pub mod Texts
pub mod Memory
mod Phases
mod Moves
mod Printing
pub mod Prints
mod Awake
mod Inside
pub mod Lost
pub mod Drains
use rtx.Base.{
  ℕ, ◌+◌, ◌-◌, ◌||◌, leb, Bool, true, false, ◌==◌, if◌then◌else◌, Option, none, some, List, [], ◌∷◌,
  ◌++◌,
}
use rtx.Links.{Ptr, update}
use rtx.Message.{Body}

pub record Letter : Type 0 where
  pub env : Ptr
  pub send_pid : ℕ
  pub text : List ℕ

-- Where the i-process stands in its loop, and the process that prints in its own.
pub data IProcess : Type 0 where
  exited acknowledging receiving testing : IProcess
  copying : Letter → (rest : List ℕ) → IProcess
  setting storing : Letter → IProcess

pub data Printer : Type 0 where
  waiting freeing signalling : Printer
  printing : (i : ℕ) → Printer

abbrev pub crt_buf_size : ℕ
crt_buf_size = 1024

-- `i_process_wait_flag` is set while the printer has a text in `buf`. `taken` records the letters that
-- have been put into the memory, `acked` those that were sent back, `printed` the output, and `outside`
-- whether there was a write behind the end of `buf`. A signal to the i-process may be pending, and
-- `senders` processes have sent it a letter and not yet the signal.
pub record Crt : Type 0 where
  pub i_process_wait_flag : Bool
  pub buf : Body
  pub mailbox : List Letter
  pub display_queue : List Letter
  pub prev_msg : Option Letter
  pub i : ℕ
  pub i_process : IProcess
  pub printer : Printer
  pub taken : List Letter
  pub acked : List Letter
  pub printed : List ℕ
  pub outside : Bool
  pub signalled : Bool
  pub senders : ℕ

-- `prev_msg->msg_type = DISPLAY_ACK; k_send_message(prev_msg->send_pid, prev_msg); prev_msg = NULL;`
abbrev pub acknowledge : Option Letter → Crt → Crt
acknowledge none s = s
acknowledge (some l) s = record s { acked = s.acked ++ l ∷ []; prev_msg = none }

-- `k_receive_message` and `msg_env_queue_enqueue`, which takes no NULL.
abbrev pub receive : List Letter → Crt → Crt
receive [] s = s
receive (l ∷ ls) s = record s { mailbox = ls; display_queue = s.display_queue ++ l ∷ [] }

-- The next text, or `k_i_process_exit`.
abbrev pub load : List Letter → Crt → Crt
load [] s = record s { i_process = exited }
load (l ∷ ls) s = record s {
  display_queue = ls;
  i = 0;
  i_process = copying l l.text;
  taken = s.taken ++ l ∷ [];
}

abbrev pub i_move : IProcess → Crt → Crt
i_move exited s =
    if s.signalled then record s { signalled = false; i_process = acknowledging } else s
i_move acknowledging s = record (if s.i_process_wait_flag then s else acknowledge s.prev_msg s) {
  i_process = receiving;
}
i_move receiving s = record (receive s.mailbox s) { i_process = testing }
i_move testing s =
    if s.i_process_wait_flag then record s { i_process = exited } else load s.display_queue s
i_move (copying l (c ∷ rest)) s = record s {
  buf = update s.buf s.i c;
  outside = s.outside || leb crt_buf_size s.i;
  i = s.i + 1;
  i_process = copying l rest;
}
i_move (copying l []) s = record s {
  buf = update s.buf s.i 0;
  outside = s.outside || leb crt_buf_size s.i;
  i_process = setting l;
}
i_move (setting l) s = record s { i_process_wait_flag = true; i_process = storing l }
i_move (storing l) s = record s { prev_msg = some l; i_process = exited }

unfoldable pub start_crt_i_process : Crt → Crt
start_crt_i_process s = i_move s.i_process s

abbrev pub print_move : Printer → Crt → Crt
print_move waiting s = if s.i_process_wait_flag then record s { printer = printing 0 } else s
print_move (printing i) s =
    if s.buf i == 0
    then record s { printer = freeing }
    else record s { printed = s.printed ++ s.buf i ∷ []; printer = printing (i + 1) }
print_move freeing s = record s { i_process_wait_flag = false; printer = signalling }
print_move signalling s = record s { signalled = true; printer = waiting }

unfoldable pub crt_main : Crt → Crt
crt_main s = print_move s.printer s

-- What happens next: a letter is sent to the i-process, or the signal behind one, or one of the two
-- makes a step.
pub data Event : Type 0 where
  sent : Letter → Event
  killed i_runs crt_runs : Event

unfoldable pub step : Event → Crt → Crt
step (sent l) s = record s { mailbox = s.mailbox ++ l ∷ []; senders = s.senders + 1 }
step killed s = if s.senders == 0 then s else record s { signalled = true; senders = s.senders - 1 }
step i_runs s = start_crt_i_process s
step crt_runs s = crt_main s

unfoldable pub run : List Event → Crt → Crt
run [] s = s
run (e ∷ es) s = run es (step e s)

-- The start: `i_process_wait_flag` is set free. What memory holds is `memory`.
abbrev pub init : (memory : Body) → Crt
init memory = record {
  i_process_wait_flag = false;
  buf = memory;
  mailbox = [];
  display_queue = [];
  prev_msg = none;
  i = 0;
  i_process = exited;
  printer = waiting;
  taken = [];
  acked = [];
  printed = [];
  outside = false;
  signalled = false;
  senders = 0;
}
