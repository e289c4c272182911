-- ===== src/User/Abc.antt =====
-- coldfire/user/src/a.c, b.c and c.c: the processes A, B and C. A counts, and sends each count to B;
-- B passes it on to C; and C prints a line for every twentieth count, and then sleeps.
pub mod Counts
use rtx.Base.{
  ℕ, zero, suc, ◌+◌, ◌%◌, ◌==◌, if◌then◌else◌, Bool, true, false, Option, none, some, List, [], ◌∷◌,
  ◌++◌,
}
use rtx.Base.Int.{ℤ, pos, negsuc, eqb_ℤ}
use rtx.Base.Word.{u32, signed_rem}
use rtx.Base.Text.{chars_of}
use rtx.Message.{Body, MsgEnv, set_word, first_word, on_body}
use rtx.User.{
  Letter, Call, send_message, release_msg_env, release_processor, send_console_chars, request_delay,
  Run, ◌>>=◌, ◌>>◌, pure, call, new_envelope, receive_message, next_letter, wait_loop, wait_for,
}

abbrev pub proc_b_pid : ℤ
proc_b_pid = pos 3

abbrev pub proc_c_pid : ℤ
proc_c_pid = pos 4

abbrev pub count_report : ℤ
count_report = negsuc 5

abbrev pub wakeup_10 : ℤ
wakeup_10 = negsuc 9

-- One round of A's loop. The counter is a pattern of 32 bits.
unfoldable pub count : (counter : ℕ) → Run ℕ
unfolding set_word
count counter = do
  count_msg ← new_envelope
  call (
      send_message proc_b_pid count_msg.env count_report
        (on_body (set_word 0 counter) count_msg.at).msg)
  call release_processor
  pure ((counter + 1) % u32)

unfoldable pub count_loop : (rounds counter : ℕ) → Run ℕ
unfolding count
count_loop zero counter = pure counter
count_loop (suc rounds) counter = count counter >>= count_loop rounds

-- `process_A`, for a number of rounds.
unfoldable pub process_a : (rounds : ℕ) → Run ℕ
unfolding count_loop
process_a rounds = do
  start_msg ← receive_message
  call (release_msg_env start_msg.env)
  count_loop rounds 0

-- `process_B`, for a number of rounds.
unfoldable pub process_b : (rounds : ℕ) → Run (Unit {0})
process_b zero = pure tt
process_b (suc rounds) = do
  received ← receive_message
  call (send_message proc_c_pid received.env received.at.msg_type received.at.msg)
  process_b rounds

-- "Go passive for 10 seconds": what arrives meanwhile is put into the queue.
unfoldable pub go_passive : (timeout_msg : ℕ) → List Letter → Run (List Letter)
unfolding wait_loop
go_passive timeout_msg queue = do
  call (request_delay 1000 wakeup_10 timeout_msg)
  woken ← wait_for wakeup_10 queue
  pure woken.1

-- What C does with an envelope.
unfoldable pub consume : (timeout_msg : ℕ) → Letter → List Letter → Run (List Letter)
unfolding go_passive
consume timeout_msg l queue =
    if eqb_ℤ l.at.msg_type count_report
    then if signed_rem (first_word l.at) 20 == 0
      then call (send_console_chars l.env (chars_of "\r\nProcess C\r\n") false)
        >> go_passive timeout_msg queue
      else call (release_msg_env l.env) >> pure queue
    else call (release_msg_env l.env) >> pure queue

unfoldable pub consume_loop : (rounds timeout_msg : ℕ) → List Letter → Run (List Letter)
unfolding consume
consume_loop zero timeout_msg queue = pure queue
consume_loop (suc rounds) timeout_msg queue = do
  next ← next_letter queue
  queue' ← consume timeout_msg next.0 next.1
  call release_processor
  consume_loop rounds timeout_msg queue'

-- `process_C`, for a number of rounds.
unfoldable pub process_c : (rounds : ℕ) → Run (List Letter)
unfolding consume_loop
process_c rounds = new_envelope >>= λ timeout_msg. consume_loop rounds timeout_msg.env []
