-- ===== src/User/Abc/Counts.antt =====
-- From A's counter to the lines that C prints.
use rtx.Base.{ℕ, suc, ◌%◌, ◌<◌, ◌≡◌, refl, true, false, ltb, ◌==◌, List, ◌∷◌, ◌++◌, some, arith}
use rtx.Base.Int.{eqb_ℤ}
use rtx.Base.Word.{i31, signed_rem}
use rtx.Base.Text.{chars_of}
use rtx.Message.{Body, get_word, set_word, first_word}
use rtx.Message.Words.{get_word-set_word}
use rtx.User.{
  Letter, send_message, release_msg_env, send_console_chars, request_delay, World, done, ◌>>=◌,
  ◌>>◌,
}
use rtx.User.Console.{Lacks, wait_for-finds}
use rtx.User.Abc.{proc_c_pid, count_report, wakeup_10, process_b, go_passive, consume}

-- The envelope that B sends on is the one it received, with the same type and the same body.
pub process_b-forwards :
    (w : World) (l : Letter) (ls : List Letter) (rounds : ℕ)
    → w.inbox ≡ l ∷ ls
    → process_b (suc rounds) w
      ≡ process_b rounds (record w {
        inbox = ls;
        calls = send_message proc_c_pid l.env l.at.msg_type l.at.msg ∷ w.calls;
      })
unfolding process_b
process_b-forwards w l ls rounds at = rw (process_b, at) refl

-- The number in a report is the counter that A had.
counted :
    (n : ℕ) (b : Body) (l : Letter)
    → n < i31
    → l.at.msg ≡ some (set_word 0 n b)
    → signed_rem (first_word l.at) 20 ≡ n % 20
counted n b l below body =
    let read : get_word 0 (set_word 0 n b) ≡ n = get_word-set_word 0 n b (omega arith) in
    let small : ltb n i31 ≡ true = ground arith in rw (body, read, small) refl

-- A report of a count that 20 does not divide: C releases the envelope, and prints nothing.
pub consume-skips :
    (timeout n : ℕ) (b : Body) (l : Letter) (q : List Letter) (w : World)
    → l.at.msg_type ≡ count_report
    → l.at.msg ≡ some (set_word 0 n b)
    → n < i31
    → (n % 20 == 0) ≡ false
    → consume timeout l q w ≡ done q (record w { calls = release_msg_env l.env ∷ w.calls })
unfolding consume
consume-skips timeout n b l q w kind body below other =
    rw (consume, kind, counted n b l below body, other) refl

-- A report of a count below 2^31 that 20 divides, where the wakeup comes: process C prints its
-- line with the envelope of the report, asks for ten seconds, and takes nothing else up before
-- they are over. What arrives meanwhile stands at the end of its queue, in its order.
pub consume-prints :
    (timeout n : ℕ) (b : Body) (l : Letter) (q : List Letter) (w : World) (others : List Letter)
    (wakeup : Letter) (later : List Letter)
    → l.at.msg_type ≡ count_report
    → l.at.msg ≡ some (set_word 0 n b)
    → n < i31
    → (n % 20 == 0) ≡ true
    → w.inbox ≡ others ++ (wakeup ∷ later)
    → Lacks wakeup_10 others
    → eqb_ℤ wakeup.at.msg_type wakeup_10 ≡ true
    → consume timeout l q w
      ≡ done (q ++ others) (record w {
        inbox = later;
        calls =
            request_delay 1000 wakeup_10 timeout
            ∷ send_console_chars l.env (chars_of "\r\nProcess C\r\n") false
            ∷ w.calls;
      })
unfolding consume go_passive
consume-prints timeout n b l q w others wakeup later kind body below twenty at none_of it =
    let printing = send_console_chars l.env (chars_of "\r\nProcess C\r\n") false in
    let slept =
      wait_for-finds wakeup_10 others wakeup later q
        (record w { calls = request_delay 1000 wakeup_10 timeout ∷ printing ∷ w.calls }) at none_of
        it in
    rw (consume, kind, counted n b l below body, twenty, ◌>>◌, ◌>>=◌)
      (rw (go_passive, ◌>>=◌, slept) refl)
