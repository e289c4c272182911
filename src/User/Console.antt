-- ===== src/User/Console.antt =====
-- coldfire/util/src/utils.c: `print_ack`, with which a process prints a text and waits until the
-- console has it. Envelopes of other types that arrive meanwhile are kept for later.
use rtx.Base.{ℕ, zero, suc, ◌≡◌, refl, ap, ◌∙◌, true, false, List, [], ◌∷◌, ◌++◌}
use rtx.Base.Int.{ℤ, eqb_ℤ}
use rtx.Rtx.{display_ack}
use rtx.Utils.Printf.{Param, rtx_sprintf}
use rtx.User.{
  printed, Letter, send_console_chars, World, done, waiting, Run, ◌>>=◌, ◌>>◌, pure, call,
  wait_loop, wait_for,
}

-- What `rtx_strcpy` of a text leaves in a buffer: `n + 1` characters of it, for a size `n`.
abbrev pub take : ℕ → List ℕ → List ℕ
take n [] = []
take zero (x ∷ xs) = []
take (suc n) (x ∷ xs) = x ∷ take n xs

unfoldable pub print_ack : (msg : List ℕ) (print_env : ℕ) → List Letter → Run (Letter × List Letter)
unfolding wait_loop
print_ack msg print_env queue = do
  call (send_console_chars print_env (take 1025 msg) true)
  wait_for display_ack queue

-- Where the answer does not matter: the queue that is left.
abbrev pub print : (msg : List ℕ) (print_env : ℕ) → List Letter → Run (List Letter)
print msg print_env queue = print_ack msg print_env queue >>= λ r. pure r.1

-- A format and its parameters.
abbrev pub print_formatted : List ℕ → List Param → (print_env : ℕ) → List Letter → Run (List Letter)
print_formatted format params print_env queue =
    printed (rtx_sprintf 200 format params) >>= λ str. print str print_env queue

-- No envelope of the list has this type.
abbrev pub Lacks : ℤ → List Letter → Type 0
Lacks code [] = Unit {0}
Lacks code (l ∷ ls) = (eqb_ℤ l.at.msg_type code ≡ false) × Lacks code ls

append_assoc_one :
    (q : List Letter) (l : Letter) (ls : List Letter) → (q ++ l ∷ []) ++ ls ≡ q ++ (l ∷ ls)
append_assoc_one [] l ls = refl
append_assoc_one (x ∷ q) l ls = ap (λ t. x ∷ t) (append_assoc_one q l ls)

append_none : (q : List Letter) → q ++ [] ≡ q
append_none [] = refl
append_none (x ∷ q) = ap (λ t. x ∷ t) (append_none q)

wait_loop-finds :
    (code : ℤ) (others : List Letter) (l : Letter) (later q : List Letter) (w : World)
    → Lacks code others
    → eqb_ℤ l.at.msg_type code ≡ true
    → wait_loop code (others ++ (l ∷ later)) q w
      ≡ done (l, q ++ others) (record w { inbox = later })
unfolding wait_loop
wait_loop-finds code [] l later q w none_of it = rw (it, append_none q) refl
wait_loop-finds code (x ∷ others) l later q w (other, none_of) it =
    rw other (wait_loop-finds code others l later (q ++ x ∷ []) w none_of it)
    ∙ ap (λ t. done (l, t) (record w { inbox = later })) (append_assoc_one q x others)

-- Waiting for an envelope of one type takes the first of that type. The envelopes before it stand at
-- the end of the queue, in the order in which they came, and those after it are still to be received.
pub wait_for-finds :
    (code : ℤ) (others : List Letter) (l : Letter) (later q : List Letter) (w : World)
    → w.inbox ≡ others ++ (l ∷ later)
    → Lacks code others
    → eqb_ℤ l.at.msg_type code ≡ true
    → wait_for code q w ≡ done (l, q ++ others) (record w { inbox = later })
wait_for-finds code others l later q w at none_of it =
    ap (λ ls. wait_loop code ls q w) at ∙ wait_loop-finds code others l later q w none_of it

wait_loop-waits :
    (code : ℤ) (ls q : List Letter) (w : World)
    → Lacks code ls
    → wait_loop code ls q w ≡ waiting (record w { inbox = [] })
unfolding wait_loop
wait_loop-waits code [] q w none_of = refl
wait_loop-waits code (l ∷ ls) q w (other, none_of) =
    rw other (wait_loop-waits code ls (q ++ l ∷ []) w none_of)

-- `print_ack`, where an acknowledgement comes: the text is sent to the console with a request for
-- it, no other call is made, and the envelopes that come before the acknowledgement stand at the
-- end of the queue, in their order, none lost.
pub print_ack-keeps :
    (msg : List ℕ) (env : ℕ) (others : List Letter) (ack : Letter) (later q : List Letter)
    (w : World)
    → w.inbox ≡ others ++ (ack ∷ later)
    → Lacks display_ack others
    → eqb_ℤ ack.at.msg_type display_ack ≡ true
    → print_ack msg env q w
      ≡ done
          (ack, q ++ others)
          (record w {
            inbox = later;
            calls = send_console_chars env (take 1025 msg) true ∷ w.calls;
          })
unfolding print_ack
print_ack-keeps msg env others ack later q w at none_of it =
    wait_for-finds display_ack others ack later q
      (record w { calls = send_console_chars env (take 1025 msg) true ∷ w.calls }) at none_of it

-- `print_ack`, when no acknowledgement comes: the process waits for ever, whatever else it receives.
pub print_ack-waits :
    (msg : List ℕ) (env : ℕ) (q : List Letter) (w : World)
    → Lacks display_ack w.inbox
    → print_ack msg env q w
      ≡ waiting
          (record w { inbox = []; calls = send_console_chars env (take 1025 msg) true ∷ w.calls })
unfolding print_ack
print_ack-waits msg env q w none_of =
    wait_loop-waits display_ack w.inbox q
      (record w { calls = send_console_chars env (take 1025 msg) true ∷ w.calls }) none_of
