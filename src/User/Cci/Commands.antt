-- ===== src/User/Cci/Commands.antt =====
-- coldfire/kern/src/cci.c: `start_cci`, one envelope after the other. The functions on strings have
-- fuel for a message body of 1024 characters.
use rtx.Base.{
  ℕ, zero, suc, ◌+◌, ltb, ◌==◌, if◌then◌else◌, Bool, true, false, Option, none, some, List, [], ◌∷◌,
}
use rtx.Base.Int.{ℤ, pos, eqb_ℤ, abs}
use rtx.Base.Text.{chars_of}
use rtx.Rtx.{code_success, error_illegal_arg, console_input}
use rtx.Message.{Body, of_word}
use rtx.Utils.{Bytes, rtx_strcmp, rtx_atoi}
use rtx.Utils.Spells.{chars}
use rtx.Utils.Token.{rtx_strtok}
use rtx.Utils.Printf.{str}
use rtx.User.{
  Letter, send_message, release_msg_env, request_process_status, get_trace_buffers, terminate,
  change_priority, k_request_msg_env, k_send_message, done, waiting, fault, Run, ◌>>=◌, ◌>>◌, pure,
  value_of, call, status_of, new_envelope, next_letter,
}
use rtx.User.Cci.{
  Cci, say, say_formatted, say_status, cci_intro, cci_set_wall_clock, cci_display_wall_clock,
}
use rtx.User.Cci.Tables.{cci_print_process_statuses, cci_print_trace_buffers}

abbrev pub proc_a_pid : ℤ
proc_a_pid = pos 2

abbrev pub pong_pid : ℤ
pong_pid = pos 5

abbrev pub delimiters : List ℕ
delimiters = chars_of " \t\r\n"

-- The next token, which overwrites a buffer that is not read before.
unfoldable pub next_token : (str : Option Bytes) → Cci → Run (Bytes × Cci)
next_token text c = value_of (rtx_strtok 1024 text (λ _. 0) (chars delimiters) c.tokens) >>= λ r.
    pure (r.1, record c { tokens = r.0 })

-- `rtx_strcmp(cmd, name) == 0`
abbrev pub is_zero : Option ℤ → Bool
is_zero none = false
is_zero (some result) = eqb_ℤ result (pos 0)

unfoldable pub is_command : (cmd : Bytes) (name : List ℕ) → Bool
is_command cmd name = is_zero (rtx_strcmp 1024 (some cmd) (some (chars name)))

-- "s": the envelope for process A goes out once.
unfoldable pub start_a : Option Letter → Cci → Run Cci
start_a none c = say (chars_of "Process A has already been started.\r\n") c
start_a (some l) c = do
  status ← status_of (send_message proc_a_pid l.env l.at.msg_type l.at.msg)
  c ←
      (if eqb_ℤ status code_success
        then pure c
        else say_status (chars_of "Error: could not jumpstart process A.errno %d\r\n") status c)
  pure (record c { proc_a_env = none })

-- What a call of the kernel has left in the body of `status_env`.
abbrev pub filled_in : Option Body → Run (Option Body)
filled_in none w = done none w
filled_in (some b) w = done (some (w.answers.filled w.calls)) w

-- A complaint if a status is not `CODE_SUCCESS`.
abbrev pub complain : List ℕ → (status : ℤ) → Cci → Run Cci
complain format status c = if eqb_ℤ status code_success then pure c else say_status format status c

-- "ps"
unfoldable pub show_statuses : Cci → Run Cci
show_statuses c = do
  status ← status_of (request_process_status c.status_env.env)
  dump ← filled_in c.status_env.at.msg
  (if eqb_ℤ status code_success
      then (cci_print_process_statuses dump c >>= λ r.
          complain (chars_of "CCI_printProcessStatuses failed with status %d\r\n") r.0 r.1)
      else say_status (chars_of "Error: could not get the process statues. errno %d\r\n") status c)

-- "b": the buffers are printed also when they could not be read.
unfoldable pub show_traces : Cci → Run Cci
show_traces c = do
  status ← status_of (get_trace_buffers c.status_env.env)
  dump ← filled_in c.status_env.at.msg
  c ← complain (chars_of "get_trace_buffers failed with status %d\r\n") status c
  r ← cci_print_trace_buffers dump c
  complain (chars_of "CCI_printTraceBuffers failed with status %d\r\n") r.0 r.1

-- "t". The call does not come back.
unfoldable pub stop : Cci → Run Cci
stop c = do c ← say (chars_of "Sayonara~") c; call terminate; waiting

-- What `rtx_atoi` stores, as an `int`.
abbrev pub stored_int : Option ℕ → ℤ
stored_int none = pos 0
stored_int (some n) = of_word n

-- `change_priority(priority, pid)`, and what is printed about it.
unfoldable pub set_priority : (priority pid : ℤ) → Cci → Run Cci
set_priority priority pid c = do
  status ← status_of (change_priority priority pid)
  (if eqb_ℤ status error_illegal_arg
      then say
          (chars_of
            "Usage: n <priority> <processID>\r\npriority must be 0-2 and processID must be a user process other than the null process\r\n")
          c
      else complain (chars_of "CCI_setNewPriority failed with status %d\r\n") status c)

-- "n"
unfoldable pub new_priority : Cci → Run Cci
new_priority c = do
  priority_str ← next_token none c
  pid_str ← next_token none priority_str.1
  priority ← value_of (rtx_atoi 1024 (some priority_str.0) (some 0))
  pid ← value_of (rtx_atoi 1024 (some pid_str.0) (some 0))
  (if ltb (abs priority.0 + abs pid.0) 2
      then say (chars_of "Error Bad command format: Usage: n <priority> <processID>\r\n") pid_str.1
      else set_priority (stored_int priority.1) (stored_int pid.1) pid_str.1)

-- "c"
unfoldable pub set_time : Cci → Run Cci
set_time c = do
  new_time ← next_token none c
  (if new_time.0 0 == 0
      then say (chars_of "c\r\nSets the console clock.\r\nUsage: c <hh:mm:ss>\r\n") new_time.1
      else (cci_set_wall_clock new_time.0 new_time.1 >>= λ r. pure r.1))

-- "pong": the kernel's functions are called directly.
unfoldable pub start_pong : Cci → Run Cci
start_pong c w =
    let asked = k_request_msg_env ∷ w.calls in
    done (record c { pong_mode = true })
      (record w { calls = k_send_message pong_pid (w.answers.granted asked).env ∷ asked })

-- The characters of a string in memory.
unfoldable pub read_string : (fuel i : ℕ) → Bytes → Option (List ℕ)
read_string zero i b = none
read_string (suc fuel) i b =
    let rest = read_string fuel (i + 1) b in
    if b i == 0 then some [] else elim rest [ none ↦ none | some cs ↦ some (b i ∷ cs) ]

-- With a NULL parameter, `rtx_sprintf` leaves its buffer as it is: a fault.
abbrev pub invalid : (msg : Option Bytes) → Cci → Run Cci
invalid none c = λ w. fault
invalid (some msg) c = value_of (read_string 1024 0 msg) >>= λ cs.
    say_formatted (chars_of "Invalid command '%s'\r\n") (str cs ∷ []) c

-- The branch of a command.
unfoldable pub execute : (cmd : Bytes) (msg : Option Bytes) → Cci → Run Cci
execute cmd msg c =
    if is_command cmd (chars_of "s")
    then start_a c.proc_a_env c
    else if is_command cmd (chars_of "ps")
    then show_statuses c
    else if is_command cmd (chars_of "cd")
    then (cci_display_wall_clock true c >>= λ r. pure r.1)
    else if is_command cmd (chars_of "ct")
    then (cci_display_wall_clock false c >>= λ r. pure r.1)
    else if is_command cmd (chars_of "b")
    then show_traces c
    else if is_command cmd (chars_of "t")
    then stop c
    else if is_command cmd (chars_of "n")
    then new_priority c
    else if is_command cmd (chars_of "c")
    then set_time c
    else if is_command cmd (chars_of "pong")
    then start_pong c
    else invalid msg c

-- A line from the console. A body that is NULL makes `rtx_strtok` go on with the last line.
unfoldable pub read_line : (msg : Option Bytes) → Cci → Run Cci
read_line msg c = do
  token ← next_token msg c
  c ←
      (if token.0 0 == 0
        then (say [] token.1 >>= say (chars_of "Please enter a command.\r\n"))
        else execute token.0 msg token.1)
  say (chars_of "CCI: ") c

-- `if (env->msg_type == CONSOLE_INPUT) { … } else { … } release_msg_env(env);`. The other branch
-- only writes to the debugger.
unfoldable pub interpret : Letter → Cci → Run Cci
interpret l c = do
  c ← (if eqb_ℤ l.at.msg_type console_input then read_line l.at.msg c else pure c)
  call (release_msg_env l.env)
  pure c

unfoldable pub interpret_all : (rounds : ℕ) → Cci → Run Cci
interpret_all zero c = pure c
interpret_all (suc rounds) c = do
  next ← next_letter c.msg_queue
  c ← interpret next.0 (record c { msg_queue = next.1 })
  interpret_all rounds c

-- `start_cci`, for a number of envelopes.
unfoldable pub start_cci : (rounds : ℕ) → Run Cci
start_cci rounds = do
  print_env ← new_envelope
  proc_a_env ← new_envelope
  status_env ← new_envelope
  clock_env ← new_envelope
  c ← cci_intro record {
    msg_queue = [];
    print_env = print_env.env;
    proc_a_env = some proc_a_env;
    status_env = status_env;
    clock_env = clock_env;
    tokens = record { copy = λ _. 0; i = 0 };
    pong_mode = false;
  }
  c ← say (chars_of "CCI: ") c
  interpret_all rounds c
