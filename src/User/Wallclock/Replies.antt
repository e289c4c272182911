-- ===== src/User/Wallclock/Replies.antt =====
-- What the wall clock does with each kind of envelope.
use rtx.Base.{
  ℕ, ◌+◌, ◌-◌, ◌*◌, ◌/◌, ◌%◌, ◌<◌, ◌≤◌, ◌≡◌, refl, ap, ◌∙◌, true, false, if◌then◌else◌, List, [],
  ◌∷◌, ◌++◌, some, arith,
}
use rtx.Base.Int.{eqb_ℤ}
use rtx.Base.Word.{i31}
use rtx.Base.Text.{chars_of}
use rtx.Rtx.{code_success, display_ack}
use rtx.Utils.{Bytes}
use rtx.Utils.Spells.{Spells}
use rtx.Utils.Printf.{text, rtx_sprintf, print_loop}
use rtx.User.{
  Letter, Call, send_message, request_delay, send_console_chars, World, done, ◌>>=◌, pure,
}
use rtx.User.Console.{take, Lacks, print_ack-keeps}
use rtx.User.Wallclock.{
  Wallclock, at_clock, restore_cursor, wakeup_code, one_second_delay, clock_on, clock_off,
  clock_set, clock_ret, clock_time, clock_face, set_wall_clock,
}
use rtx.User.Wallclock.Face.{hms, clock_face-hms}
use rtx.User.Wallclock.Setting.{set_wall_clock-hms, clock_time-set}
use rtx.User.Wallclock.Serve.{wait_second, show_time, wake_up, display_wall_clock, set_clock, serve}

-- The answer to a request: its own envelope, to where it came from.
abbrev pub answer : Letter → Call
answer l = send_message l.at.send_pid l.env clock_ret l.at.msg

-- A request to set the clock to a time "hh:mm:ss" is carried out, and answered at once.
pub serve-set :
    (l : Letter) (t : Bytes) (c : Wallclock) (w : World) (hr min sec : ℕ)
    → l.at.msg_type ≡ clock_set
    → l.at.msg ≡ some t
    → Spells t 0 (hms hr min sec)
    → hr < 24
    → min < 60
    → sec < 60
    → serve l c w
      ≡ done
          (record c { offset = hr * 3600 + min * 60 + sec; ref = w.answers.system_time w.calls })
          (record w { calls = answer l ∷ w.calls })
unfolding serve set_clock
serve-set l t c w hr min sec kind body spelt h m s =
    let now = w.answers.system_time w.calls in
    let set : set_wall_clock now l.at.msg c
        ≡ some (code_success, record c { offset = hr * 3600 + min * 60 + sec; ref = now }) =
      ap (λ b. set_wall_clock now b c) body ∙ set_wall_clock-hms now hr min sec t c h m s spelt in
    rw (serve, kind, set) refl

-- A request to show the clock is answered at once.
pub serve-on :
    (l : Letter) (c : Wallclock) (w : World)
    → l.at.msg_type ≡ clock_on
    → serve l c w
      ≡ done (record c { clock_display_en = true }) (record w { calls = answer l ∷ w.calls })
unfolding serve display_wall_clock
serve-on l c w kind = rw (serve, kind) refl

-- A request to hide the clock, where an acknowledgement comes, is answered: the wall clock wipes
-- the clock off the screen, waits for the acknowledgement, and sends the envelope of the request
-- back to its sender. What comes before the acknowledgement stands at the end of the queue, in
-- its order.
pub serve-off :
    (l : Letter) (c : Wallclock) (w : World) (others : List Letter) (ack : Letter)
    (later : List Letter)
    → l.at.msg_type ≡ clock_off
    → w.inbox ≡ others ++ (ack ∷ later)
    → Lacks display_ack others
    → eqb_ℤ ack.at.msg_type display_ack ≡ true
    → serve l c w
      ≡ done
          (record c { clock_display_en = false; msg_q = c.msg_q ++ others })
          (record w {
            inbox = later;
            calls =
                answer l
                ∷ send_console_chars c.send_env
                    (at_clock ++ (chars_of "        " ++ restore_cursor))
                    true
                ∷ w.calls;
          })
unfolding serve display_wall_clock rtx_sprintf print_loop
serve-off l c w others ack later kind at none_of it =
    let shown =
      print_ack-keeps (at_clock ++ (chars_of "        " ++ restore_cursor)) c.send_env others ack
        later c.msg_q w at none_of it in
    let said : rtx_sprintf 200 (at_clock ++ (chars_of "        " ++ restore_cursor)) []
        ≡ text (at_clock ++ (chars_of "        " ++ restore_cursor)) =
      refl in
    rw (serve, kind, said) (rw (◌>>=◌, shown) refl)

-- A wakeup of the wall clock, with the clock shown, an offset of less than a day, a reference
-- time not after the present, the present below 2^31, the next delay granted, and an
-- acknowledgement to come: the next delay is requested first, then the time of the day is
-- printed, which is the offset and the whole seconds since the reference time, modulo a day. What
-- comes before the acknowledgement stands at the end of the queue, in its order.
pub wake_up-shows :
    (c : Wallclock) (w : World) (others : List Letter) (ack : Letter) (later : List Letter)
    → c.clock_display_en ≡ true
    → w.answers.status (request_delay one_second_delay wakeup_code c.timeout_env ∷ w.calls)
      ≡ code_success
    → w.inbox ≡ others ++ (ack ∷ later)
    → Lacks display_ack others
    → eqb_ℤ ack.at.msg_type display_ack ≡ true
    → c.offset < 86400
    → let delayed = request_delay one_second_delay wakeup_code c.timeout_env ∷ w.calls in
      let now = w.answers.system_time delayed in
      c.ref ≤ now
      → now < i31
      → let t = ((now - c.ref) / 100 + c.offset) % 86400 in
        wake_up c w
        ≡ done
            (record c { msg_q = c.msg_q ++ others })
            (record w {
              inbox = later;
              calls =
                  send_console_chars c.send_env
                    (take 1025
                      (at_clock ++ (hms (t / 3600) (t % 3600 / 60) (t % 60) ++ restore_cursor)))
                    true
                  ∷ delayed;
            })
unfolding wake_up wait_second show_time
wake_up-shows c w others ack later shown granted at none_of it small passed below =
    let delayed = request_delay one_second_delay wakeup_code c.timeout_env ∷ w.calls in
    let now = w.answers.system_time delayed in
    let t = ((now - c.ref) / 100 + c.offset) % 86400 in
    let face = at_clock ++ (hms (t / 3600) (t % 3600 / 60) (t % 60) ++ restore_cursor) in
    let faced : clock_face (clock_time now c.ref c.offset) ≡ text face =
      ap clock_face (clock_time-set now c.ref c.offset passed below small)
      ∙ clock_face-hms t (omega arith) in
    let printing =
      print_ack-keeps face c.send_env others ack later c.msg_q (record w { calls = delayed }) at
        none_of it in
    rw (wake_up, wait_second, ◌>>=◌, granted)
      (ap (λ b. (if b then show_time now c else pure c) (record w { calls = delayed })) shown
        ∙ rw (show_time, faced, ◌>>=◌, printing) refl)
