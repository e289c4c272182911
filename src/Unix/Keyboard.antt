-- ===== src/Unix/Keyboard.antt =====
-- unix/kern/src/kb_i_process.c and unix/keyboard/src/main.c: the process of the host that reads what is
-- typed into the memory that it shares with the i-process (unix/inc/keyboard_shmem.h), and the i-process
-- that answers a request with it. A step is one character read, one test, one write or one signal, and
-- the steps of the two come in any order. Signals that come while one is pending are one.
pub mod Bounds
pub mod Lines
use rtx.Base.{ℕ, ◌+◌, Bool, true, false, ◌==◌, if◌then◌else◌, ltb, List, [], ◌∷◌, ◌++◌}
use rtx.Links.{Ptr, update}
use rtx.Message.{Body}

abbrev pub keyboard_buf_size : ℕ
keyboard_buf_size = 1024

-- An envelope that asks for a line, and its answer.
pub record Request : Type 0 where
  pub env : Ptr
  pub send_pid : ℕ

pub record Answer : Type 0 where
  pub request : Request
  pub msg : Body

-- Where the i-process stands, and the process that reads. `length++` reads and then writes.
pub data KbIProcess : Type 0 where
  exited receiving resetting : KbIProcess
  copying ending : Request → (i : ℕ) → KbIProcess
  freeing answering : Request → KbIProcess

pub data Reader : Type 0 where
  reading counting signalling flagging : Reader
  storing : (c : ℕ) → Reader
  adding : (k : ℕ) → Reader

-- `input` is what has been typed and not read, `msg` the text of the envelope in hand, `answered` what was
-- sent back.
pub record Keyboard : Type 0 where
  pub input : List ℕ
  pub kb_wait_flag : Bool
  pub buf : Body
  pub length : ℕ
  pub signalled : Bool
  pub mailbox : List Request
  pub msg : Body
  pub i_process : KbIProcess
  pub reader : Reader
  pub answered : List Answer

abbrev pub take_request : List Request → Keyboard → Keyboard
take_request [] s = record s { i_process = resetting }
take_request (r ∷ rs) s = record s { mailbox = rs; i_process = copying r 0 }

abbrev pub kb_i_move : KbIProcess → Keyboard → Keyboard
kb_i_move exited s =
    if s.signalled then record s { signalled = false; i_process = receiving } else s
kb_i_move receiving s = take_request s.mailbox s
kb_i_move (copying r i) s =
    if ltb i s.length
    then record s { msg = update s.msg i (s.buf i); i_process = copying r (i + 1) }
    else record s { i_process = ending r i }
kb_i_move (ending r i) s = record s { msg = update s.msg i 0; i_process = freeing r }
kb_i_move (freeing r) s = record s { kb_wait_flag = false; i_process = answering r }
kb_i_move (answering r) s = record s {
  answered = s.answered ++ record { request = r; msg = s.msg } ∷ [];
  i_process = resetting;
}
kb_i_move resetting s = record s { length = 0; i_process = exited }

unfoldable pub start_kb_i_process : Keyboard → Keyboard
start_kb_i_process s = kb_i_move s.i_process s

-- `getchar`, which waits for a character, and the tests of it.
abbrev pub read_key : List ℕ → Keyboard → Keyboard
read_key [] s = s
read_key (c ∷ cs) s =
    let t : Keyboard = record s { input = cs } in
    if c == 10
    then record t { reader = signalling }
    else if ltb s.length keyboard_buf_size
    then record t { reader = storing c }
    else t

abbrev pub read_move : Reader → Keyboard → Keyboard
read_move reading s = read_key s.input s
read_move (storing c) s = record s { buf = update s.buf s.length c; reader = counting }
read_move counting s = record s { reader = adding s.length }
read_move (adding k) s = record s { length = k + 1; reader = reading }
read_move signalling s = record s { signalled = true; reader = flagging }
read_move flagging s = record s { kb_wait_flag = true; reader = reading }

unfoldable pub keyboard_main : Keyboard → Keyboard
keyboard_main s = read_move s.reader s

-- A key is typed, a request is sent to the i-process, or one of the two makes a step.
pub data KeyEvent : Type 0 where
  typed : (c : ℕ) → KeyEvent
  asked : Request → KeyEvent
  i_steps reader_steps : KeyEvent

unfoldable pub key_step : KeyEvent → Keyboard → Keyboard
key_step (typed c) s = record s { input = s.input ++ c ∷ [] }
key_step (asked r) s = record s { mailbox = s.mailbox ++ r ∷ [] }
key_step i_steps s = start_kb_i_process s
key_step reader_steps s = keyboard_main s

unfoldable pub key_run : List KeyEvent → Keyboard → Keyboard
key_run [] s = s
key_run (e ∷ es) s = key_run es (key_step e s)

-- The start. What memory holds is `memory`, and the text of the first envelope `text`.
abbrev pub key_init : (memory text : Body) → Keyboard
key_init memory text = record {
  input = [];
  kb_wait_flag = false;
  buf = memory;
  length = 0;
  signalled = false;
  mailbox = [];
  msg = text;
  i_process = exited;
  reader = reading;
  answered = [];
}
