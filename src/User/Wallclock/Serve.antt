-- ===== src/User/Wallclock/Serve.antt =====
-- coldfire/user/src/wallclock.c: `start_wallclock`, one envelope after the other.
use rtx.Base.{ℕ, zero, suc, if◌then◌else◌, Bool, true, false, not, [], ◌++◌}
use rtx.Base.Int.{ℤ, eqb_ℤ}
use rtx.Base.Text.{chars_of}
use rtx.Rtx.{code_success, error_illegal_arg}
use rtx.User.{
  Letter, send_message, request_delay, Run, ◌>>=◌, ◌>>◌, pure, value_of, printed, call, status_of,
  get_system_time, new_envelope, next_letter,
}
use rtx.User.Console.{print}
use rtx.User.Wallclock.{
  Wallclock, wakeup_code, one_second_delay, clock_on, clock_off, clock_set, clock_ret, at_clock,
  restore_cursor, clock_time, clock_face, set_wall_clock, print_status, print_text,
}

-- `request_delay( ONE_SECOND_DELAY, WAKEUP_CODE, timeout_env)`, with its complaint.
unfoldable pub wait_second : Wallclock → Run Wallclock
wait_second c = do
  status ← status_of (request_delay one_second_delay wakeup_code c.timeout_env)
  (if not (eqb_ℤ status code_success)
      then print_status (chars_of "request_delay failed with status %d\r\n") status c
      else pure c)

unfoldable pub show_time : (now : ℕ) → Wallclock → Run Wallclock
unfolding clock_time clock_face
show_time now c = do
  str ← printed (clock_face (clock_time now c.ref c.offset))
  q ← print str c.send_env c.msg_q
  pure (record c { msg_q = q })

-- An envelope from the timing services.
unfoldable pub wake_up : Wallclock → Run Wallclock
unfolding wait_second show_time
wake_up c = do
  c' ← wait_second c
  now ← get_system_time
  (if c'.clock_display_en then show_time now c' else pure c')

-- `_displayWallClock`
unfoldable pub display_wall_clock : (disp_b : Bool) → Wallclock → Run Wallclock
display_wall_clock true c = pure (record c { clock_display_en = true })
display_wall_clock false c = do
  c' ← print_text (at_clock ++ (chars_of "        " ++ restore_cursor)) c
  pure (record c' { clock_display_en = false })

-- `env->msg_type = CLOCK_RET; send_message(env->send_pid,env);`
abbrev pub give_back : Letter → Wallclock → Run Wallclock
give_back l c = call (send_message l.at.send_pid l.env clock_ret l.at.msg) >> pure c

abbrev complain : ℤ → Wallclock → Run Wallclock
complain status c =
    if eqb_ℤ status error_illegal_arg
    then print_text
        (chars_of
          "c\r\nSets the console clock (24h).\r\nUsage: c <hh:mm:ss>\r\nhh must be 00-23\r\nmm must be 00-59\r\nss must be 00-59\r\n")
        c
    else if not (eqb_ℤ status code_success)
    then print_status (chars_of "CCI_setClock failed with status %d\r\n") status c
    else pure c

-- An envelope of the type CLOCK_SET.
unfoldable pub set_clock : Letter → Wallclock → Run Wallclock
unfolding set_wall_clock
set_clock l c = do
  now ← get_system_time
  result ← value_of (set_wall_clock now l.at.msg c)
  c' ← complain result.0 result.1
  give_back l c'

unfoldable pub serve : Letter → Wallclock → Run Wallclock
unfolding wake_up display_wall_clock set_clock
serve l c =
    if eqb_ℤ l.at.msg_type wakeup_code
    then wake_up c
    else if eqb_ℤ l.at.msg_type clock_on
    then display_wall_clock true c >>= give_back l
    else if eqb_ℤ l.at.msg_type clock_off
    then display_wall_clock false c >>= give_back l
    else if eqb_ℤ l.at.msg_type clock_set
    then set_clock l c
    else pure c

unfoldable pub start : Run Wallclock
unfolding wait_second
start = do
  timeout_env ← new_envelope
  send_env ← new_envelope
  wait_second record {
    offset = 0;
    ref = 0;
    clock_display_en = false;
    timeout_env = timeout_env.env;
    send_env = send_env.env;
    msg_q = [];
  }

-- `while (1) { … }`, for a number of envelopes.
unfoldable pub serve_all : (rounds : ℕ) → Wallclock → Run Wallclock
unfolding serve
serve_all zero c = pure c
serve_all (suc rounds) c = do
  next ← next_letter c.msg_q
  c' ← serve next.0 (record c { msg_q = next.1 })
  serve_all rounds c'

unfoldable pub start_wallclock : (rounds : ℕ) → Run Wallclock
unfolding start serve_all
start_wallclock rounds = start >>= serve_all rounds
