-- ===== src/Tests/Processes.antt =====
-- The theorems about the processes, for a kernel that grants everything at the time 500.
use rtx.Base.{ℕ, ◌≡◌, refl, true, false, some, none, List, [], ◌∷◌, ◌++◌, arith}
use rtx.Base.Int.{ℤ, pos}
use rtx.Base.Text.{chars_of}
use rtx.Rtx.{code_success, display_ack}
use rtx.Message.{MsgEnv, set_word}
use rtx.Utils.Spells.{chars, Spells-chars, NonZero-of_has}
use rtx.Utils.Printf.{text}
use rtx.User.{Letter, send_message, request_delay, send_console_chars, Answers, World, done}
use rtx.User.Wallclock.{
  Wallclock, wakeup_code, clock_off, clock_ret, at_clock, restore_cursor, clock_time, clock_face,
  set_wall_clock,
}
use rtx.User.Wallclock.Setting.{set-shows}
use rtx.User.Wallclock.Serve.{serve, wake_up}
use rtx.User.Wallclock.Replies.{serve-off, wake_up-shows}
use rtx.User.Abc.{count_report, wakeup_10}
use rtx.User.Cci.{Cci}
use rtx.User.Pong.{Pong, tick, forward, backward, border}
use rtx.User.Pong.Ball.{InPlay, tick-InPlay}

abbrev empty : MsgEnv
empty = record { dest_pid = pos 0; send_pid = pos 9; msg_type = pos 0; msg = some (λ _. 0) }

abbrev of_type : ℤ → ℕ → Letter
of_type t e = record { env = e; at = record empty { msg_type = t } }

-- An envelope that nothing waits for, an acknowledgement, a wakeup, and an answer of the clock.
abbrev pub other : Letter
other = of_type (pos 7) 100

abbrev pub ack : Letter
ack = of_type display_ack 200

abbrev wakeup : Letter
wakeup = of_type wakeup_10 300

abbrev pub ret : Letter
ret = of_type clock_ret 400

abbrev granting : Answers
granting = record {
  status = λ _. pos 0;
  system_time = λ _. 500;
  granted = λ _. other;
  filled = λ _ _. 0;
}

abbrev pub world : List Letter → World
world inbox = record { inbox = inbox; calls = []; answers = granting }

abbrev pub clock : Wallclock
clock = record {
  offset = 3600;
  ref = 100;
  clock_display_en = true;
  timeout_env = 40;
  send_env = 60;
  msg_q = [];
}

abbrev pub noon : List ℕ
noon = chars_of "12:00:00"

set-shows_example :
    (c : Wallclock) × (set_wall_clock 500 (some (chars noon)) clock ≡ some (code_success, c))
    × (clock_face (clock_time 500 c.ref c.offset) ≡ text (at_clock ++ (noon ++ restore_cursor)))
    × (clock_face (clock_time 700 c.ref c.offset)
        ≡ text (at_clock ++ (chars_of "12:00:02" ++ restore_cursor)))
set-shows_example =
    set-shows 500 700 12 0 0 (chars noon) clock (omega arith) (omega arith) (omega arith)
      (Spells-chars noon (NonZero-of_has noon refl)) (omega arith) (omega arith)

serve-off_example :
    serve (of_type clock_off 80) clock (world (other ∷ ack ∷ []))
    ≡ done
        (record clock { clock_display_en = false; msg_q = other ∷ [] })
        (record (world []) {
          calls =
              send_message (pos 9) 80 clock_ret (some (λ _. 0))
              ∷ send_console_chars 60 (at_clock ++ (chars_of "        " ++ restore_cursor)) true
              ∷ [];
        })
serve-off_example =
    serve-off (of_type clock_off 80) clock (world (other ∷ ack ∷ [])) (other ∷ []) ack [] refl refl
      (refl, tt) refl

wake_up-shows_example :
    wake_up clock (world (other ∷ ack ∷ []))
    ≡ done
        (record clock { msg_q = other ∷ [] })
        (record (world []) {
          calls =
              send_console_chars 60 (at_clock ++ (chars_of "01:00:04" ++ restore_cursor)) true
              ∷ request_delay 100 wakeup_code 40
              ∷ [];
        })
wake_up-shows_example =
    wake_up-shows clock (world (other ∷ ack ∷ [])) (other ∷ []) ack [] refl refl refl (refl, tt)
      refl (omega arith) (omega arith) (omega arith)

abbrev forty : Letter
forty = record {
  env = 20;
  at = record empty { msg_type = count_report; msg = some (set_word 0 40 (λ _. 0)) };
}

abbrev pub cci : Cci
cci = record {
  msg_queue = [];
  print_env = 60;
  proc_a_env = none;
  status_env = other;
  clock_env = other;
  tokens = record { copy = λ _. 0; i = 0 };
  pong_mode = false;
}

-- The ball is about to leave the last row that it may be in.
abbrev game : Pong
game = record {
  board = border;
  left_paddle_pos = 10;
  right_paddle_pos = 10;
  ball_r = 22;
  ball_c = 2;
  r_speed = forward;
  c_speed = backward;
}

tick-InPlay_example : (p : Pong) × (tick game ≡ some p) × InPlay p
tick-InPlay_example = tick-InPlay game record {
  above = omega arith;
  below = omega arith;
  from_below = λ h. absurd (omega arith);
  from_above = λ h. refl;
  within = omega arith;
}
