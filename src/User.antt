-- ===== src/User.antt =====
-- What a process sees of the kernel (coldfire/inc/rtx.h): the envelopes it receives, one after the
-- other, and the calls it makes. A process is a state passed from call to call; it ends a run
-- where it waits in `receive_message` and no envelope is left.
pub mod Console
pub mod Wallclock
pub mod Abc
pub mod Cci
pub mod Pong
use rtx.Base.{
  ℕ, zero, suc, ◌+◌, ◌==◌, leb, if◌then◌else◌, Bool, true, false, Option, none, some, List, [], ◌∷◌,
  ◌++◌,
}
use rtx.Base.Int.{ℤ, pos, negsuc, eqb_ℤ}
use rtx.Message.{Body, MsgEnv}
use rtx.Utils.Printf.{Printed, text, null_param}

-- An envelope: its address, and what stands in it when it arrives.
pub record Letter : Type 0 where
  pub env : ℕ
  pub at : MsgEnv

-- A call of the kernel. A message that is sent is given by its address, its type and its body; the
-- kernel writes both pids. A text that goes to the console is given as its characters.
pub data Call : Type 0 where
  send_message : (dest_pid : ℤ) (env : ℕ) (msg_type : ℤ) (msg : Option Body) → Call
  request_msg_env release_processor terminate : Call
  release_msg_env : (env : ℕ) → Call
  k_request_msg_env : Call
  k_send_message : (dest_pid : ℤ) (env : ℕ) → Call
  request_process_status get_trace_buffers : (env : ℕ) → Call
  change_priority : (new_priority target : ℤ) → Call
  request_delay : (time_delay : ℕ) (wakeup_code : ℤ) (env : ℕ) → Call
  send_console_chars : (env : ℕ) → List ℕ → (request_ack : Bool) → Call

-- What the kernel answers to the newest of the calls made so far: a status, the system time, the
-- envelope of a request, and the body that a call has filled in.
pub record Answers : Type 0 where
  pub status : List Call → ℤ
  pub system_time : List Call → ℕ
  pub granted : List Call → Letter
  pub filled : List Call → Body

-- The envelopes still to be received, and the calls made, the newest first.
pub record World : Type 0 where
  pub inbox : List Letter
  pub calls : List Call
  pub answers : Answers

-- How a run ends: with a value; in `receive_message`, for ever; or with a fault.
pub data Ended (A : Type 0) : Type 0 where
  done : A → World → Ended A
  waiting : World → Ended A
  fault : Ended A

abbrev pub Run : Type 0 → Type 0
Run A = World → Ended A

infixl 5 ◌>>=◌ ◌>>◌
abbrev pub ◌>>=◌ : {A B : Type 0} → Run A → (A → Run B) → Run B
◌>>=◌ m f w = elim (m w) [ done a w' ↦ f a w' | waiting w' ↦ waiting w' | fault ↦ fault ]

abbrev pub ◌>>◌ : {A B : Type 0} → Run A → Run B → Run B
m >> k = m >>= λ _. k

abbrev pub pure : {A : Type 0} → A → Run A
pure a w = done a w

-- A value that a function on strings returns; with `none`, it has run out of fuel.
abbrev pub value_of : {A : Type 0} → Option A → Run A
value_of none w = fault
value_of (some a) w = done a w

-- What a printing function leaves in its buffer.
abbrev pub printed : Printed → Run (List ℕ)
printed (text t) w = done t w
printed null_param w = fault
printed Printed.fault w = fault

abbrev pub call : Call → Run (Unit {0})
call c w = done tt (record w { calls = c ∷ w.calls })

abbrev pub status_of : Call → Run ℤ
status_of c w = done (w.answers.status (c ∷ w.calls)) (record w { calls = c ∷ w.calls })

abbrev pub get_system_time : Run ℕ
get_system_time w = done (w.answers.system_time w.calls) w

abbrev pub new_envelope : Run Letter
new_envelope w =
    done (w.answers.granted (request_msg_env ∷ w.calls))
      (record w { calls = request_msg_env ∷ w.calls })

abbrev receive : List Letter → Run Letter
receive [] w = waiting w
receive (l ∷ ls) w = done l (record w { inbox = ls })

abbrev pub receive_message : Run Letter
receive_message w = receive w.inbox w

-- The oldest envelope of a process's own queue, or, where that is empty, the next one received.
abbrev pub next_letter : List Letter → Run (Letter × List Letter)
next_letter [] = receive_message >>= λ l. pure (l, [])
next_letter (l ∷ ls) = pure (l, ls)

-- The walk that waits for an envelope of one type, and puts all others at the end of the queue.
unfoldable pub wait_loop : ℤ → List Letter → List Letter → Run (Letter × List Letter)
wait_loop code [] q w = waiting (record w { inbox = [] })
wait_loop code (l ∷ ls) q w =
    let rest = wait_loop code ls (q ++ l ∷ []) w in
    if eqb_ℤ l.at.msg_type code then done (l, q) (record w { inbox = ls }) else rest

abbrev pub wait_for : ℤ → List Letter → Run (Letter × List Letter)
wait_for code q w = wait_loop code w.inbox q w
