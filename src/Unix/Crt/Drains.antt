-- ===== src/Unix/Crt/Drains.antt =====
-- unix/kern/src/crt_i_process.c and unix/crt/src/main.c: where the two processes can go on to.
mod Taken
use rtx.Base.{
  ℕ, zero, suc, ◌+◌, ◌≡◌, ◌≢◌, ◌-◌, inl, inr, ==_of_ne, refl, sym, ap, subst, ◌∙◌, Bool, true,
  false, ◌==◌, if◌then◌else◌, Option, none, some, List, [], ◌∷◌, ◌++◌, length, length-append, arith,
}
use rtx.Message.{Body}
use rtx.Utils.Spells.{Spells}
use rtx.Unix.Crt.{
  Letter, IProcess, exited, acknowledging, receiving, testing, copying, setting, storing, Printer,
  waiting, signalling, printing, freeing, Crt, acknowledge, receive, load, i_move,
  start_crt_i_process, print_move, crt_main, Event, killed, i_runs, crt_runs, step, run, init,
}
use rtx.Unix.Crt.Texts.{
  texts, AllText, sent_of, append_assoc, append_none, run-append, sent_of-append,
}
use rtx.Unix.Crt.Phases.{Showing, Phase, quiet, loading, showing, Inv}
use rtx.Unix.Crt.Moves.{post-Phase}
use rtx.Unix.Crt.Awake.{
  Awake, Due, signal, sender, shown, freed, append_one_ne, killed-Awake, run-Awake,
}
use rtx.Unix.Crt.Printing.{print_char}
use rtx.Unix.Crt.Prints.{print_move-Inv, init-Inv, run-Inv, run-prints_all}
use rtx.Unix.Crt.Drains.Taken.{
  Going, i_move-Going, print_next, Quiet, Drains, waits, Unloaded, i_step-Drains, start-Drains,
  copying-Drains, load-Drains, test-Drains,
}

waits-load :
    (n : ℕ) (ls : List Letter) (s : Crt)
    → s.display_queue ≡ ls
    → ls ≢ []
    → waits s ≡ suc n
    → waits (load ls s) ≡ n
waits-load n [] s is some_shown count = absurd (some_shown refl)
waits-load n (l ∷ ls) s is some_shown count =
    let count' : length ((l ∷ ls) ++ s.mailbox) ≡ suc n =
      ap (λ t. length (t ++ s.mailbox)) (sym is) ∙ count in
    omega (arith, count')

-- The i-process takes a letter out of its mailbox, if there is one, and shows the next one.
receive-Drains :
    (n : ℕ)
    → Unloaded n
    → (ms : List Letter) (s : Crt) → s.mailbox ≡ ms
    → Going s
    → s.i_process ≡ receiving
    → s.i_process_wait_flag ≡ false
    → waits s ≡ suc n
    → Drains s
receive-Drains n free ms s mail inv is f count =
    let t = record (receive ms s) { i_process = testing } in
    let moves : i_move receiving s ≡ t =
      ap (λ ms. record (receive ms s) { i_process = testing }) mail in
    let inv' : Going t = subst Going moves (i_move-Going receiving s is inv) in
    i_step-Drains receiving s is (subst Drains (sym moves) (go ms mail inv'))
  where
    go :
        (ms : List Letter)
        → s.mailbox ≡ ms
        → Going (record (receive ms s) { i_process = testing })
        → Drains (record (receive ms s) { i_process = testing })
    go [] mail inv' =
        let t = record s { i_process = testing } in
        let some_shown : s.display_queue ≢ [] = λ e.
          let none : length {A = Letter} [] ≡ suc n =
            ap length (sym (ap (λ x. x ++ s.mailbox) e ∙ mail)) ∙ count in
          omega (arith, none) in
        test-Drains n free t inv' refl f (waits-load n s.display_queue t refl some_shown count)
    go (m ∷ ms) mail inv' =
        let t = record (receive (m ∷ ms) s) { i_process = testing } in
        let same : waits t ≡ waits s =
          ap length (
            append_assoc s.display_queue (m ∷ []) ms ∙ ap (λ x. s.display_queue ++ x) (sym mail)) in
        test-Drains n free t inv' refl f
          (waits-load n t.display_queue t refl (append_one_ne s.display_queue m) (same ∙ count))

acknowledge-Drains :
    (n : ℕ)
    → Unloaded n
    → (prev : Option Letter) (s : Crt)
    → Going (record (acknowledge prev s) { i_process = receiving })
    → s.i_process_wait_flag ≡ false
    → waits s ≡ suc n
    → Drains (record (acknowledge prev s) { i_process = receiving })
acknowledge-Drains n free none s inv f count =
    receive-Drains n free s.mailbox (record s { i_process = receiving }) refl inv refl f count
acknowledge-Drains n free (some l) s inv f count =
    receive-Drains n free s.mailbox (record (acknowledge (some l) s) { i_process = receiving }) refl
      inv refl f count

acknowledging-Drains :
    (n : ℕ)
    → Unloaded n
    → (s : Crt) → Going s
    → s.i_process ≡ acknowledging
    → s.i_process_wait_flag ≡ false
    → waits s ≡ suc n
    → Drains s
acknowledging-Drains n free s inv is f count =
    let t = record (acknowledge s.prev_msg s) { i_process = receiving } in
    let moves : i_move acknowledging s ≡ t =
      ap (λ b. record (if b then s else acknowledge s.prev_msg s) { i_process = receiving }) f in
    i_step-Drains acknowledging s is (
      subst Drains (sym moves) (
        acknowledge-Drains n free s.prev_msg s
          (subst Going moves (i_move-Going acknowledging s is inv)) f count))

-- A signal is pending.
woken-Drains :
    (n : ℕ)
    → Unloaded n
    → (s : Crt) → Going s
    → s.i_process ≡ exited
    → s.i_process_wait_flag ≡ false
    → s.signalled ≡ true
    → waits s ≡ suc n
    → Drains s
woken-Drains n free s inv is f pending count =
    let t = record s { signalled = false; i_process = acknowledging } in
    let moves : i_move exited s ≡ t = ap (λ b. if b then t else s) pending in
    i_step-Drains exited s is (
      subst Drains (sym moves) (
        acknowledging-Drains n free t (subst Going moves (i_move-Going exited s is inv)) refl f
          count))

-- A sender has not yet signalled.
killed-Drains :
    (n : ℕ)
    → Unloaded n
    → (s : Crt) → Going s
    → s.i_process ≡ exited
    → s.i_process_wait_flag ≡ false
    → s.senders ≢ 0
    → waits s ≡ suc n
    → Drains s
unfolding run step
killed-Drains n free s inv is f some_left count =
    let t : Crt = record s { signalled = true; senders = s.senders - 1 } in
    let sends : step killed s ≡ t = ap (λ b. if b then s else t) (==_of_ne some_left) in
    let going : Going t = record {
      inv = record {
        phase = post-Phase s s.mailbox true (s.senders - 1) inv.inv.phase;
        box = inv.inv.box;
        display = inv.inv.display;
      };
      awake = killed-Awake s.i_process s;
    } in
    let (es, none_sent, q) = woken-Drains n free t going is f refl count in
    (killed ∷ es, none_sent, subst (λ t. Quiet (run es t)) (sym sends) q)

free-Drains : (n : ℕ) → Unloaded n
unfolding run
free-Drains zero s inv is f count =
    let (none_shown, none_sent) = nothing s.display_queue s.mailbox count in
    ([], refl, (f, is, none_shown, none_sent))
  where
    nothing : (a b : List Letter) → length (a ++ b) ≡ 0 → (a ≡ []) × (b ≡ [])
    nothing [] [] e = (refl, refl)
    nothing [] (x ∷ b) e = absurd (omega (arith, e))
    nothing (x ∷ a) b e = absurd (omega (arith, e))
free-Drains (suc n) s inv is f count = go (free-Drains n) (subst (λ p. Awake p s) is inv.awake)
  where
    go : Unloaded n → Awake exited s → Drains s
    go free (inl (signal pending)) = woken-Drains n free s inv is f pending count
    go free (inl (sender some_left)) = killed-Drains n free s inv is f some_left count
    go free (inl (shown f')) = absurd (ground (arith, f, f'))
    go free (inl (freed at)) =
        let t = record s { signalled = true; printer = waiting } in
        print_next signalling s t at refl inv (λ inv'. woken-Drains n free t inv' is f refl count)
    go free (inr (none_shown, none_sent)) =
        let none : length {A = Letter} [] ≡ suc n =
          ap length (sym (ap (λ x. x ++ s.mailbox) none_shown ∙ none_sent)) ∙ count in
        absurd (omega (arith, none))

idle-Drains : (s : Crt) → Going s → s.i_process ≡ exited → Drains s
idle-Drains s inv is = start-Drains (waits s) (free-Drains (waits s)) s inv is refl

testing-Drains : (s : Crt) → Going s → s.i_process ≡ testing → Drains s
testing-Drains s inv is = by_flag s.i_process_wait_flag refl
  where
    by_flag : (b : Bool) → s.i_process_wait_flag ≡ b → Drains s
    by_flag false f =
        let n = waits (load s.display_queue s) in test-Drains n (free-Drains n) s inv is f refl
    by_flag true f =
        let t = record s { i_process = exited } in
        let moves : i_move testing s ≡ t = ap (λ b. if b then t else load s.display_queue s) f in
        i_step-Drains testing s is (
          subst Drains (sym moves)
            (idle-Drains t (subst Going moves (i_move-Going testing s is inv)) refl))

receiving-Drains : (s : Crt) → Going s → s.i_process ≡ receiving → Drains s
receiving-Drains s inv is =
    i_step-Drains receiving s is
      (testing-Drains (i_move receiving s) (i_move-Going receiving s is inv) refl)

-- From wherever the i-process is.
any-Drains : (p : IProcess) (s : Crt) → s.i_process ≡ p → Going s → Drains s
any-Drains exited s is inv = idle-Drains s inv is
any-Drains acknowledging s is inv =
    i_step-Drains acknowledging s is
      (receiving-Drains (i_move acknowledging s) (i_move-Going acknowledging s is inv) refl)
any-Drains receiving s is inv = receiving-Drains s inv is
any-Drains testing s is inv = testing-Drains s inv is
any-Drains (copying l rest) s is inv =
    copying-Drains (waits s) (free-Drains (waits s)) l rest s inv is refl
any-Drains (setting l) s is inv =
    let t = i_move (setting l) s in
    let inv' = i_move-Going (setting l) s is inv in
    i_step-Drains (setting l) s is (
      i_step-Drains (storing l) t refl
        (idle-Drains (i_move (storing l) t) (i_move-Going (storing l) t refl inv') refl))
any-Drains (storing l) s is inv =
    i_step-Drains (storing l) s is
      (idle-Drains (i_move (storing l) s) (i_move-Going (storing l) s is inv) refl)

-- The console of the Unix port does not come to a standstill: after letters whose texts have no
-- zero, the signals behind them, and steps of the i-process and of the process that prints, in
-- any order from the start, where the i-process runs only when it is signalled, there are further
-- steps of the two and signals of those that have sent a letter, with nothing more sent, after
-- which the output is the texts of all the letters that were sent, one behind the other in the
-- order of the sending.
pub run-drains :
    (es : List Event) (memory : Body)
    → AllText (sent_of es)
    → (es' : List Event) × (sent_of es' ≡ [])
      × ((run (es ++ es') (init memory)).printed ≡ texts (sent_of es))
run-drains es memory ok =
    let s = run es (init memory) in
    let (es', none_sent, (f, is, none_shown, none_left)) = any-Drains s.i_process s refl (record {
      inv = run-Inv es (init memory) ok (init-Inv memory);
      awake = run-Awake es (init memory) (inr (refl, refl));
    }) in
    let same : run (es ++ es') (init memory) ≡ run es' s = run-append es es' (init memory) in
    let all_sent : sent_of (es ++ es') ≡ sent_of es =
      sent_of-append es es' ∙ (ap (λ t. sent_of es ++ t) none_sent ∙ append_none (sent_of es)) in
    (
      es',
      none_sent,
      run-prints_all (es ++ es') memory (subst AllText (sym all_sent) ok)
            (ap (λ t. t.i_process_wait_flag) same ∙ f) (ap (λ t. t.i_process) same ∙ is)
            (ap (λ t. t.display_queue) same ∙ none_shown) (ap (λ t. t.mailbox) same ∙ none_left)
          ∙ ap texts all_sent,
    )
