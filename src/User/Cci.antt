-- ===== src/User/Cci.antt =====
-- coldfire/kern/src/cci.c and cci_utils.c: the console command interpreter. Its globals and the
-- variables that live as long as the process are a record that every step takes and returns.
pub mod Tables
pub mod Commands
pub mod Requests
use rtx.Base.{
  ℕ, zero, suc, ◌+◌, ◌==◌, if◌then◌else◌, Bool, true, false, Option, none, some, List, [], ◌∷◌,
  ◌++◌,
}
use rtx.Base.Int.{ℤ, pos, negsuc, eqb_ℤ}
use rtx.Base.Text.{chars_of}
use rtx.Rtx.{code_success}
use rtx.Message.{Body, MsgEnv}
use rtx.Utils.{Bytes}
use rtx.Utils.Token.{Tokens}
use rtx.Utils.Printf.{Param, int}
use rtx.User.{
  Letter, Call, send_message, Run, ◌>>=◌, ◌>>◌, pure, status_of, new_envelope, wait_loop, wait_for,
}
use rtx.User.Console.{print, print_formatted}
use rtx.User.Wallclock.{clock_on, clock_off, clock_set, clock_ret}

-- `proc_a_env` is `none` for NULL. The envelopes `status_env` and `clock_env` are kept with what was
-- last written into them; `tokens` is what `rtx_strtok` keeps between its calls.
pub record Cci : Type 0 where
  pub msg_queue : List Letter
  pub print_env : ℕ
  pub proc_a_env : Option Letter
  pub status_env : Letter
  pub clock_env : Letter
  pub tokens : Tokens
  pub pong_mode : Bool

abbrev pub wallclock_pid : ℤ
wallclock_pid = pos 1

-- `print_ack(msg, print_env, msg_queue)`
abbrev pub say : List ℕ → Cci → Run Cci
say msg c = print msg c.print_env c.msg_queue >>= λ q. pure (record c { msg_queue = q })

abbrev pub say_formatted : List ℕ → List Param → Cci → Run Cci
say_formatted format params c =
    print_formatted format params c.print_env c.msg_queue >>= λ q. pure (record c { msg_queue = q })

-- `params[0] = &status; params[1] = NULL; …`
abbrev pub say_status : List ℕ → (status : ℤ) → Cci → Run Cci
say_status format status c = say_formatted format (int status ∷ []) c

unfoldable pub cci_intro : Cci → Run Cci
cci_intro c = say (chars_of "Welcome to P.OS.\r\n==========================\r\n") c

unfoldable pub wait_for_wallclock : Cci → Run Cci
unfolding wait_loop
wait_for_wallclock c = wait_for clock_ret c.msg_queue >>= λ r. pure (record c { msg_queue = r.1 })

-- `send_message(WALLCLOCK_PID, send_env)`, and the wait if it succeeds.
abbrev pub ask_wallclock : (msg_type : ℤ) → Option Body → Cci → Run (ℤ × Cci)
ask_wallclock msg_type msg c = do
  ret ← status_of (send_message wallclock_pid c.clock_env.env msg_type msg)
  (if eqb_ℤ ret code_success
      then (wait_for_wallclock c >>= λ c'. pure (ret, c'))
      else pure (ret, c))

-- `CCI_setWallClock`, with what `rtx_strcpy` leaves in the body: the new time.
unfoldable pub cci_set_wall_clock : (new_time : Body) → Cci → Run (ℤ × Cci)
unfolding wait_for_wallclock
cci_set_wall_clock new_time c = ask_wallclock clock_set (some new_time) (record c {
  clock_env = record c.clock_env { at = record c.clock_env.at { msg = some new_time } };
})

-- `CCI_displayWallClock`
unfoldable pub cci_display_wall_clock : (disp_b : Bool) → Cci → Run (ℤ × Cci)
unfolding wait_for_wallclock
cci_display_wall_clock disp_b c =
    ask_wallclock (if disp_b then clock_on else clock_off) c.clock_env.at.msg c
