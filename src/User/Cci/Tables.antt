-- ===== src/User/Cci/Tables.antt =====
-- coldfire/kern/src/cci_utils.c: the tables of process states and of traced messages.
use rtx.Base.{
  ℕ, zero, suc, ◌+◌, ◌*◌, ltb, ◌==◌, if◌then◌else◌, Bool, true, false, Option, none, some, List, [],
  ◌∷◌,
}
use rtx.Base.Int.{ℤ}
use rtx.Base.Word.{i31, max_uint32}
use rtx.Base.Text.{chars_of}
use rtx.Rtx.{code_success, error_null_arg}
use rtx.Message.{Body, get_word, of_word}
use rtx.Utils.Printf.{Param, int}
use rtx.User.{Run, ◌>>=◌, pure}
use rtx.User.Cci.{Cci, say, say_formatted}

abbrev pub word_at : ℕ → Body → ℤ
word_at i dump = of_word (get_word i dump)

-- The `switch` on a process state, by the place of the state in its enumeration.
unfoldable pub state_text : (state : ℕ) → List ℕ
state_text s =
    if s == 0
    then chars_of "ready                  "
    else if s == 1
    then chars_of "executing              "
    else if s == 2
    then chars_of "blocked on env request "
    else if s == 3
    then chars_of "blocked on receive     "
    else chars_of "                       "

-- The rows of `count` processes, the first at the word `i` of the data.
unfoldable pub print_rows : (count i : ℕ) → Body → Cci → Run Cci
unfolding state_text get_word of_word
print_rows zero i dump c = pure c
print_rows (suc count) i dump c = do
  c ← say_formatted (chars_of "%4d   ") (int (word_at i dump) ∷ []) c
  c ← say (state_text (get_word (i + 1) dump)) c
  c ← say_formatted (chars_of "%2d\r\n") (int (word_at (i + 2) dump) ∷ []) c
  print_rows count (i + 3) dump c

-- `for (i=0;i<num_processes;i++)`: no round for a negative number.
abbrev pub rounds_of : ℕ → ℕ
rounds_of n = if ltb n i31 then n else 0

unfoldable pub cci_print_process_statuses : (raw_data : Option Body) → Cci → Run (ℤ × Cci)
unfolding print_rows
cci_print_process_statuses none c = pure (error_null_arg, c)
cci_print_process_statuses (some dump) c = do
  c ← say (chars_of "PID | STATUS                | PRIORITY\r\n") c
  c ← print_rows (rounds_of (get_word 0 dump)) 1 dump c
  pure (code_success, c)

-- An `ipc_trace_t` is four words: `dest_pid`, `send_pid`, `msg_type`, `time_stamp`.
abbrev pub trace_params : (i : ℕ) → Body → List Param
trace_params i dump =
    int (word_at i dump)
    ∷ int (word_at (i + 1) dump)
    ∷ int (word_at (i + 2) dump)
    ∷ int (word_at (i + 3) dump)
    ∷ []

abbrev pub is_logged : (i : ℕ) → Body → Bool
is_logged i dump = if get_word (i + 3) dump == max_uint32 then false else true

-- The words of the trace `i`: of the sends, and, 16 traces later, of the receives.
abbrev pub send_dump : ℕ → ℕ
send_dump i = 4 * i

abbrev pub recv_dump : ℕ → ℕ
recv_dump i = 4 * (16 + i)

unfoldable pub print_received : (i : ℕ) → Body → Cci → Run Cci
print_received i dump c =
    if is_logged (recv_dump i) dump
    then say_formatted (chars_of "   %2u |   %2u |   %3d | %6u\r\n")
        (trace_params (recv_dump i) dump) c
    else say (chars_of "      |      |       |       \r\n") c

-- `for (i=0;i<IPC_MESSAGE_TRACE_HISTORY_SIZE;i++)`, with `left` rounds left.
unfoldable pub print_traces : (left i : ℕ) → Body → Cci → Run Cci
unfolding print_received get_word of_word
print_traces zero i dump c = pure c
print_traces (suc left) i dump c =
    let rest = print_traces left (i + 1) dump in
    if is_logged (send_dump i) dump
    then say_formatted (chars_of "   %2u |   %2u |   %3d | %6u ||")
        (trace_params (send_dump i) dump) c
      >>= print_received i dump
      >>= rest
    else if is_logged (recv_dump i) dump
    then say (chars_of "      |      |       |       ||") c >>= print_received i dump >>= rest
    else pure c

unfoldable pub cci_print_trace_buffers : (dump : Option Body) → Cci → Run (ℤ × Cci)
unfolding print_traces
cci_print_trace_buffers none c = pure (error_null_arg, c)
cci_print_trace_buffers (some dump) c = do
  c ←
      say
        (chars_of
          "MESSAGE TRACE BUFFERS\r\n\r\n Send Trace                   || Receive Trace\r\n Dest |Sender|Message|  Time  || Dest |Sender|Message|  Time\r\n PID  |PID   |Type   |        || PID  |PID   |Type   |\r\n--------------------------------------------------------------\r\n")
        c
  c ← print_traces 16 0 dump c
  c ← say (chars_of "\r\n") c
  pure (code_success, c)
