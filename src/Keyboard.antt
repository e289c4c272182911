-- ===== src/Keyboard.antt =====
-- From the keyboard to the wall clock: the interrupts of coldfire/kern/src/uart_i_process.c, the
-- interpreter of coldfire/kern/src/cci.c and the process of coldfire/user/src/wallclock.c together.
use rtx.Base.{
  ℕ, ◌+◌, ◌*◌, ◌<◌, ◌≡◌, ◌≢◌, refl, ap, ◌∙◌, true, false, List, [], ◌∷◌, ◌++◌, some, arith,
}
use rtx.Base.Int.{eqb_ℤ}
use rtx.Base.Text.{chars_of}
use rtx.Rtx.{code_success, display_ack, console_input}
use rtx.Links.{Ptr, null}
use rtx.Message.{Body, MsgEnv}
use rtx.Utils.{Bytes}
use rtx.Utils.Token.{Tokens}
use rtx.Kernel.{Kernel, set_env, now}
use rtx.Kernel.Primitives.{k_request_msg_env, k_send_message}
use rtx.Kernel.Uart.{Uart, cci_pid, end_line, masked}
use rtx.Kernel.Uart.Typing.{type_all, Typed, type_all-ends, end_line-sends}
use rtx.User.{Letter, release_msg_env, send_console_chars, World, done}
use rtx.User.Console.{Lacks}
use rtx.User.Wallclock.{Wallclock, clock_set, clock_ret}
use rtx.User.Wallclock.Face.{two, hms}
use rtx.User.Wallclock.Serve.{serve}
use rtx.User.Wallclock.Replies.{answer, serve-set}
use rtx.User.Cci.{Cci, wallclock_pid}
use rtx.User.Cci.Commands.{interpret}
use rtx.User.Cci.Requests.{after_request, request, interpret-sets_clock}

two-Typed : (n : ℕ) → n < 100 → (cs : List ℕ) → Typed cs → Typed (two n ++ cs)
two-Typed n h cs ok =
    (ground arith, ground arith, omega arith, (ground arith, ground arith, omega arith, ok))

-- "c hh:mm:ss"
abbrev pub time_line : (hr min sec : ℕ) → List ℕ
time_line hr min sec = b'c' ∷ 32 ∷ hms hr min sec

time_line-Typed : (hr min sec : ℕ) → hr < 24 → min < 60 → sec < 60 → Typed (time_line hr min sec)
time_line-Typed hr min sec h m s =
    let colon : (cs : List ℕ) → Typed cs → Typed (b':' ∷ cs) =
      λ cs ok. (refl, refl, (λ z. omega arith), ok) in
    let ends : Typed (b':' ∷ two sec) = colon (two sec) (two-Typed sec (omega arith) [] tt) in
    let middle : Typed (b':' ∷ two min ++ (b':' ∷ two sec)) =
      colon (two min ++ (b':' ∷ two sec)) (two-Typed min (omega arith) (b':' ∷ two sec) ends) in
    let time : Typed (hms hr min sec) =
      two-Typed hr (omega arith) (b':' ∷ two min ++ (b':' ∷ two sec)) middle in
    (refl, refl, (λ z. omega arith), (refl, refl, (λ z. omega arith), time))

-- The envelope with a line that the interpreter receives, and the one with a request that the wall
-- clock receives.
abbrev pub line_letter : (e : Ptr) → MsgEnv → Body → Letter
line_letter e x body = record {
  env = e;
  at = record x { msg_type = console_input; msg = some body };
}

abbrev pub request_letter : Cci → Body → Letter
request_letter c t = record {
  env = c.clock_env.env;
  at = record { dest_pid = wallclock_pid; send_pid = cci_pid; msg_type = clock_set; msg = some t };
}

-- From the keyboard to the clock: "c hh:mm:ss" with the hours below 24 and the minutes and the
-- seconds below 60, and the end of the line, are typed while no game runs and the line is empty;
-- `k_request_msg_env` gives an envelope with a message; the kernel accepts what the interpreter
-- sends to the wall clock; an answer of the wall clock comes to the interpreter, and after it an
-- acknowledgement. Then the interrupts run without a fault, with any fuel, and the interpreter is
-- sent that envelope with a text. The interpreter, given it, sends the wall clock a text, waits
-- for the answer, prints its prompt, waits for the acknowledgement and releases the line; what
-- comes before those two stands at the end of its queue, in its order. And the wall clock, given
-- the second text, has the time that was typed, in seconds, as its offset and the present as its
-- reference, and answers.
pub typed_line-sets_clock :
    (fuel hr min sec : ℕ) (u : Uart) (s s₁ : Kernel) (e : Ptr) (b : Body) (c : Cci) (w : World)
    (others : List Letter) (ret : Letter) (others' : List Letter) (ack : Letter)
    (later : List Letter) (k : Wallclock) (v : World)
    → hr < 24
    → min < 60
    → sec < 60
    → u.pong_mode ≡ false
    → u.input_index ≡ 0
    → k_request_msg_env (masked s) ≡ (now e, s₁)
    → e ≢ null
    → (s₁.envs e).msg ≡ some b
    → ((t : Bytes) → w.answers.status (request t c ∷ w.calls) ≡ code_success)
    → w.inbox ≡ others ++ (ret ∷ others' ++ (ack ∷ later))
    → Lacks clock_ret others
    → eqb_ℤ ret.at.msg_type clock_ret ≡ true
    → Lacks display_ack others'
    → eqb_ℤ ack.at.msg_type display_ack ≡ true
    → (u' : Uart) × (body : Body) × (tokens : Tokens) × (t : Bytes) × (type_all fuel
          (time_line hr min sec ++ (13 ∷ []))
          u
          s
        ≡ some (
          u',
          (k_send_message cci_pid e
              (set_env e (λ x. record x { msg_type = console_input; msg = some body }) s₁)).1,
        ))
      × (interpret (line_letter e (s₁.envs e) body) c w
          ≡ done (after_request tokens t (others ++ others') c) (record w {
            inbox = later;
            calls =
                release_msg_env e
                ∷ send_console_chars c.print_env (chars_of "CCI: ") true
                ∷ request t c
                ∷ w.calls;
          }))
      × (serve (request_letter c t) k v
          ≡ done
              (record k {
                offset = hr * 3600 + min * 60 + sec;
                ref = v.answers.system_time v.calls;
              })
              (record v { calls = answer (request_letter c t) ∷ v.calls }))
typed_line-sets_clock fuel hr min sec u s s₁ e b c w others ret others' ack later k v h m z off
      start granted ne has_body accepts at none_of it none_of' it' =
    let (u', typed, idx, spells) =
      type_all-ends fuel b'c' (32 ∷ hms hr min sec) u s off start (time_line-Typed hr min sec h m z)
        (omega arith) in
    let (body, is, sends) =
      end_line-sends u' (masked s) s₁ e b (time_line hr min sec) idx spells granted ne has_body in
    let (tokens, t, spelt, runs) =
      interpret-sets_clock c w (line_letter e (s₁.envs e) body) body hr min sec others ret others'
        ack later refl refl is accepts at none_of it none_of' it' in
    (
      (end_line u' (masked s)).0,
      body,
      tokens,
      t,
      typed ∙ ap (λ k'. some ((end_line u' (masked s)).0, k')) sends,
      runs,
      serve-set (request_letter c t) t k v hr min sec refl refl spelt h m z,
    )
