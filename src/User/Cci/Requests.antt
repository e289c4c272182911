-- ===== src/User/Cci/Requests.antt =====
-- From a line on the console to the request that the wall clock gets.
use rtx.Base.{
  ℕ, ◌+◌, ◌/◌, ◌%◌, ◌<◌, ◌≤◌, ◌≡◌, refl, ap, subst, ◌∙◌, true, false, ◌==◌, Bool-cases, inl, inr,
  Option, List, [], ◌∷◌, ◌++◌, length, has, some, none, arith,
}
use rtx.Base.Int.{eqb_ℤ}
use rtx.Base.Text.{chars_of}
use rtx.Rtx.{code_success, display_ack, console_input}
use rtx.Utils.{Bytes}
use rtx.Utils.Spells.{Spells, chars, NonZero, NonZero-of_has, Spells-chars}
use rtx.Utils.Compare.{same, strcmp-same}
use rtx.Utils.Token.{Tokens}
use rtx.Utils.Token.Words.{
  upto, drop_in, from, Free, drop_in-Free, upto-Free, strtok-next, strtok-Spells,
}
use rtx.User.{Letter, Call, send_message, release_msg_env, send_console_chars, World, done, ◌>>=◌}
use rtx.User.Console.{Lacks, wait_for-finds, print_ack-keeps}
use rtx.User.Wallclock.{clock_set, clock_ret}
use rtx.User.Wallclock.Face.{hms}
use rtx.User.Cci.{Cci, wallclock_pid, wait_for_wallclock, cci_set_wall_clock}
use rtx.User.Cci.Commands.{
  delimiters, next_token, is_zero, is_command, execute, set_time, read_line, interpret,
}

is_command-same :
    (cmd : Bytes) (xs name : List ℕ)
    → Spells cmd 0 xs
    → has 0 name ≡ false
    → length xs < 1024
    → is_command cmd name ≡ same xs name
unfolding is_command
is_command-same cmd xs name h ok fits =
    ap is_zero (
      strcmp-same 1024 cmd (chars name) xs name h (Spells-chars name (NonZero-of_has name ok)) fits)
    ∙ elim (Bool-cases (same xs name)) [ inl e ↦ rw e refl | inr e ↦ rw e refl ]

NonZero-delimiters : NonZero delimiters
NonZero-delimiters = NonZero-of_has delimiters refl

digit-Free : (n : ℕ) → has (48 + n) delimiters ≡ false
digit-Free n = ground arith

hms-Free : (hr min sec : ℕ) → Free delimiters (hms hr min sec)
hms-Free hr min sec =
    let d = digit-Free in
    (
      d (hr / 10),
      (
        d (hr % 10),
        (refl, (d (min / 10), (d (min % 10), (refl, (d (sec / 10), (d (sec % 10), tt)))))),
      ),
    )

-- The first token of a line.
first_token :
    (c : Cci) (msg : Bytes) (xs : List ℕ)
    → Spells msg 0 xs
    → length xs ≤ 101
    → (t : Tokens) × (token : Bytes) × ((w : World)
        → next_token (some msg) c w ≡ done (token, record c { tokens = t }) w)
      × Spells token 0 (upto delimiters (drop_in delimiters xs))
      × Spells t.copy t.i (from delimiters (drop_in delimiters xs))
      × (t.i + length (from delimiters (drop_in delimiters xs)) ≡ length xs)
unfolding next_token
first_token c msg xs h fits =
    let (t, token, runs, is, rest, used) =
      strtok-Spells 1024 msg (λ _. 0) (chars delimiters) c.tokens delimiters xs
        (Spells-chars delimiters NonZero-delimiters) h fits (omega arith) in
    (t, token, λ w. rw (next_token, runs) refl, is, rest, used)

-- The next token of the same line.
later_token :
    (c : Cci) (xs : List ℕ)
    → Spells c.tokens.copy c.tokens.i xs
    → c.tokens.i + length xs ≤ 101
    → (t : Tokens) × (token : Bytes) × ((w : World)
        → next_token none c w ≡ done (token, record c { tokens = t }) w)
      × Spells token 0 (upto delimiters (drop_in delimiters xs))
unfolding next_token
later_token c xs h fits =
    let (t, token, runs, is, rest, used) =
      strtok-next 1024 (λ _. 0) (chars delimiters) c.tokens delimiters xs
        (Spells-chars delimiters NonZero-delimiters) h (omega arith) (omega arith) in
    (t, token, λ w. rw (next_token, runs) refl, is)

-- The interpreter after its request to the wall clock.
abbrev pub after_request : Tokens → (t : Bytes) → List Letter → Cci → Cci
after_request tokens t others c = record c {
  tokens = tokens;
  clock_env = record c.clock_env { at = record c.clock_env.at { msg = some t } };
  msg_queue = c.msg_queue ++ others;
}

abbrev pub request : (t : Bytes) → Cci → Call
request t c = send_message wallclock_pid c.clock_env.env clock_set (some t)

set_wall_clock-asks :
    (c : Cci) (w : World) (t : Bytes) (others : List Letter) (ret : Letter) (later : List Letter)
    → w.answers.status (request t c ∷ w.calls) ≡ code_success
    → w.inbox ≡ others ++ (ret ∷ later)
    → Lacks clock_ret others
    → eqb_ℤ ret.at.msg_type clock_ret ≡ true
    → cci_set_wall_clock t c w
      ≡ done
          (code_success, after_request c.tokens t others c)
          (record w { inbox = later; calls = request t c ∷ w.calls })
unfolding cci_set_wall_clock wait_for_wallclock
set_wall_clock-asks c w t others ret later granted at none_of it =
    let waited =
      wait_for-finds clock_ret others ret later c.msg_queue
        (record w { calls = request t c ∷ w.calls }) at none_of it in
    rw (cci_set_wall_clock, ◌>>=◌, granted, wait_for_wallclock, ◌>>=◌, waited)
      (ap
        (λ s.
          done (s, after_request c.tokens t others c)
            (record w { inbox = later; calls = request t c ∷ w.calls }))
        granted)

append_assoc : (a b d : List Letter) → (a ++ b) ++ d ≡ a ++ (b ++ d)
append_assoc [] b d = refl
append_assoc (x ∷ a) b d = ap (λ t. x ∷ t) (append_assoc a b d)

-- The command "c" with a time.
set_time-asks :
    (c : Cci) (w : World) (hr min sec : ℕ) (others : List Letter) (ret : Letter)
    (later : List Letter)
    → Spells c.tokens.copy c.tokens.i (32 ∷ hms hr min sec)
    → c.tokens.i + length (32 ∷ hms hr min sec) ≤ 101
    → ((t : Bytes) → w.answers.status (request t c ∷ w.calls) ≡ code_success)
    → w.inbox ≡ others ++ (ret ∷ later)
    → Lacks clock_ret others
    → eqb_ℤ ret.at.msg_type clock_ret ≡ true
    → (tokens : Tokens) × (t : Bytes) × Spells t 0 (hms hr min sec)
      × (set_time c w
          ≡ done
              (after_request tokens t others c)
              (record w { inbox = later; calls = request t c ∷ w.calls }))
unfolding set_time
set_time-asks c w hr min sec others ret later h fits granted at none_of it =
    let (tokens, t, reads, is) = later_token c (32 ∷ hms hr min sec) h fits in
    let free = hms-Free hr min sec in
    let text_of =
      ap (upto delimiters) (drop_in-Free delimiters (hms hr min sec) free)
      ∙ upto-Free delimiters (hms hr min sec) free in
    let spelt : Spells t 0 (hms hr min sec) = subst (Spells t 0) text_of is in
    let given : (t 0 == 0) ≡ false = ground (arith, spelt) in
    let asks =
      set_wall_clock-asks (record c { tokens = tokens }) w t others ret later (granted t) at none_of
        it in
    (tokens, t, spelt, rw (set_time, ◌>>=◌, reads, given, ◌>>=◌, asks) refl)

execute-c :
    (cmd : Bytes) (msg : Option Bytes) (c : Cci)
    → Spells cmd 0 (b'c' ∷ [])
    → execute cmd msg c ≡ set_time c
unfolding execute
execute-c cmd msg c is =
    let test : (name : List ℕ) → has 0 name ≡ false → is_command cmd name ≡ same (b'c' ∷ []) name =
      λ name ok. is_command-same cmd (b'c' ∷ []) name is ok (omega arith) in
    rw
      (
        test (chars_of "s") refl,
        test (chars_of "ps") refl,
        test (chars_of "cd") refl,
        test (chars_of "ct") refl,
        test (chars_of "b") refl,
        test (chars_of "t") refl,
        test (chars_of "n") refl,
        test (chars_of "c") refl,
      )
      refl

-- A line "c hh:mm:ss" from the console, where the kernel accepts what is sent to the wall clock,
-- an answer of the wall clock comes, and after it an acknowledgement: the envelope for the clock
-- goes to the wall clock with the text of that time, the interpreter waits for the answer, prints
-- its prompt, waits for the acknowledgement, and releases the line. What arrives before those two
-- stands at the end of its queue, in its order.
pub interpret-sets_clock :
    (c : Cci) (w : World) (l : Letter) (msg : Bytes) (hr min sec : ℕ) (others : List Letter)
    (ret : Letter) (others' : List Letter) (ack : Letter) (later : List Letter)
    → l.at.msg_type ≡ console_input
    → l.at.msg ≡ some msg
    → Spells msg 0 (b'c' ∷ 32 ∷ hms hr min sec)
    → ((t : Bytes) → w.answers.status (request t c ∷ w.calls) ≡ code_success)
    → w.inbox ≡ others ++ (ret ∷ others' ++ (ack ∷ later))
    → Lacks clock_ret others
    → eqb_ℤ ret.at.msg_type clock_ret ≡ true
    → Lacks display_ack others'
    → eqb_ℤ ack.at.msg_type display_ack ≡ true
    → (tokens : Tokens) × (t : Bytes) × Spells t 0 (hms hr min sec)
      × (interpret l c w
          ≡ done (after_request tokens t (others ++ others') c) (record w {
            inbox = later;
            calls =
                release_msg_env l.env
                ∷ send_console_chars c.print_env (chars_of "CCI: ") true
                ∷ request t c
                ∷ w.calls;
          }))
unfolding interpret read_line execute
interpret-sets_clock c w l msg hr min sec others ret others' ack later kind body h granted at
      none_of it none_of' it' =
    let (t1, cmd, reads, is, rest, used) =
      first_token c msg (b'c' ∷ 32 ∷ hms hr min sec) h (omega arith) in
    let (tokens, t, spelt, sets) =
      set_time-asks (record c { tokens = t1 }) w hr min sec others ret (others' ++ (ack ∷ later))
        rest (omega (arith, used)) granted at none_of it in
    let (c_at, c_ne, c_end) = is in
    let given : (cmd 0 == 0) ≡ false = ground arith in
    let prompted =
      print_ack-keeps (chars_of "CCI: ") c.print_env others' ack later (c.msg_queue ++ others)
        (record w { inbox = others' ++ (ack ∷ later); calls = request t c ∷ w.calls }) refl none_of'
        it' in
    (
      tokens,
      t,
      spelt,
      rw
          (
            interpret,
            kind,
            body,
            read_line,
            ◌>>=◌,
            reads,
            given,
            execute-c cmd l.at.msg (record c { tokens = t1 }) is,
            sets,
          )
          (rw (◌>>=◌, prompted)
            (ap
              (λ q.
                done (record (after_request tokens t others c) { msg_queue = q })
                  (record w {
                    inbox = later;
                    calls =
                        release_msg_env l.env
                        ∷ send_console_chars c.print_env (chars_of "CCI: ") true
                        ∷ request t c
                        ∷ w.calls;
                  }))
              (append_assoc c.msg_queue others others'))),
    )
