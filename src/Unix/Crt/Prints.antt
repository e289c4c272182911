-- ===== src/Unix/Crt/Prints.antt =====
-- unix/kern/src/crt_i_process.c and unix/crt/src/main.c: what is printed.
use rtx.Base.{
  ℕ, ◌+◌, ◌-◌, ◌==◌, true, ◌≡◌, refl, sym, ap, subst, ◌∙◌, false, Option, none, some, List, [], ◌∷◌,
  ◌++◌, arith, on_test,
}
use rtx.Message.{Body}
use rtx.Unix.Crt.{
  Letter, IProcess, exited, acknowledging, receiving, testing, copying, setting, storing, Printer,
  waiting, signalling, printing, freeing, Crt, acknowledge, receive, load, i_move,
  start_crt_i_process, print_move, crt_main, Event, sent, killed, i_runs, crt_runs, step, run, init,
}
use rtx.Unix.Crt.Texts.{
  texts, AllText, sent_of, append_assoc, append_none, texts-append, texts-append_one,
  AllText-append_one,
}
use rtx.Unix.Crt.Phases.{Showing, Phase, quiet, loading, showing, Inv}
use rtx.Unix.Crt.Moves.{i_move-Inv, post-Phase}
use rtx.Unix.Crt.Printing.{Printer-Phase, printer-rest}

-- Every letter that was sent is at one place on its way, in the order of the sending.
abbrev on_way : Crt → List Letter
on_way s = s.taken ++ (s.display_queue ++ s.mailbox)

acknowledge-on_way : (prev : Option Letter) (s : Crt) → on_way (acknowledge prev s) ≡ on_way s
acknowledge-on_way none s = refl
acknowledge-on_way (some l) s = refl

receive-on_way : (ls : List Letter) (s : Crt) → s.mailbox ≡ ls → on_way (receive ls s) ≡ on_way s
receive-on_way [] s is = refl
receive-on_way (l ∷ ls) s is =
    ap (λ t. s.taken ++ t)
      (append_assoc s.display_queue (l ∷ []) ls ∙ ap (λ t. s.display_queue ++ t) (sym is))

load-on_way : (ls : List Letter) (s : Crt) → s.display_queue ≡ ls → on_way (load ls s) ≡ on_way s
load-on_way [] s is = refl
load-on_way (l ∷ ls) s is =
    append_assoc s.taken (l ∷ []) (ls ++ s.mailbox) ∙ ap (λ t. s.taken ++ (t ++ s.mailbox)) (sym is)

i_move-on_way : (p : IProcess) (s : Crt) → on_way (i_move p s) ≡ on_way s
i_move-on_way exited s =
    on_test (λ r. on_way r ≡ on_way s) s.signalled
      (record s { signalled = false; i_process = acknowledging }) s (λ f. refl) (λ f. refl)
i_move-on_way acknowledging s =
    on_test (λ r. on_way r ≡ on_way s) s.i_process_wait_flag s (acknowledge s.prev_msg s)
      (λ f. refl) (λ f. acknowledge-on_way s.prev_msg s)
i_move-on_way receiving s = receive-on_way s.mailbox s refl
i_move-on_way testing s =
    on_test (λ r. on_way r ≡ on_way s) s.i_process_wait_flag (record s { i_process = exited })
      (load s.display_queue s) (λ f. refl) (λ f. load-on_way s.display_queue s refl)
i_move-on_way (copying l (c ∷ rest)) s = refl
i_move-on_way (copying l []) s = refl
i_move-on_way (setting l) s = refl
i_move-on_way (storing l) s = refl

pub print_move-Inv : (s : Crt) → Inv s → Inv (print_move s.printer s)
print_move-Inv s h =
    let (box, display, taken) = printer-rest s.printer s in
    record {
      phase = Printer-Phase s.printer s refl h.phase;
      box = subst AllText (sym box) h.box;
      display = subst AllText (sym display) h.display;
    }

print_move-on_way : (s : Crt) → on_way (print_move s.printer s) ≡ on_way s
print_move-on_way s =
    let (box, display, taken) = printer-rest s.printer s in
    ap (λ t. t ++ ((print_move s.printer s).display_queue ++ (print_move s.printer s).mailbox))
      taken
    ∙ (ap (λ t. s.taken ++ (t ++ (print_move s.printer s).mailbox)) display
        ∙ ap (λ t. s.taken ++ (s.display_queue ++ t)) box)

-- Whatever comes next.
pub run-Inv : (es : List Event) (s : Crt) → AllText (sent_of es) → Inv s → Inv (run es s)
unfolding run step start_crt_i_process crt_main
run-Inv [] s ok h = h
run-Inv (sent l ∷ es) s (here, ok) h = run-Inv es (step (sent l) s) ok (record {
  phase = post-Phase s (s.mailbox ++ l ∷ []) s.signalled (s.senders + 1) h.phase;
  box = AllText-append_one s.mailbox l h.box here;
  display = h.display;
})
run-Inv (killed ∷ es) s ok h = run-Inv es (step killed s) ok (
    on_test Inv (s.senders == 0) s (record s { signalled = true; senders = s.senders - 1 }) (λ n. h)
      (λ n. record {
        phase = post-Phase s s.mailbox true (s.senders - 1) h.phase;
        box = h.box;
        display = h.display;
      }))
run-Inv (i_runs ∷ es) s ok h = run-Inv es (step i_runs s) ok (i_move-Inv s.i_process s refl h)
run-Inv (crt_runs ∷ es) s ok h = run-Inv es (step crt_runs s) ok (print_move-Inv s h)

run-on_way : (es : List Event) (s : Crt) → on_way (run es s) ≡ on_way s ++ sent_of es
unfolding run step start_crt_i_process crt_main
run-on_way [] s = sym (append_none (on_way s))
run-on_way (sent l ∷ es) s =
    run-on_way es (step (sent l) s)
    ∙ (ap (λ t. (s.taken ++ t) ++ sent_of es)
          (sym (append_assoc s.display_queue s.mailbox (l ∷ [])))
        ∙ (ap (λ t. t ++ sent_of es)
              (sym (append_assoc s.taken (s.display_queue ++ s.mailbox) (l ∷ [])))
            ∙ append_assoc (on_way s) (l ∷ []) (sent_of es)))
run-on_way (killed ∷ es) s =
    run-on_way es (step killed s)
    ∙ ap (λ t. t ++ sent_of es)
        (on_test (λ r. on_way r ≡ on_way s) (s.senders == 0) s
          (record s { signalled = true; senders = s.senders - 1 }) (λ n. refl) (λ n. refl))
run-on_way (i_runs ∷ es) s =
    run-on_way es (step i_runs s) ∙ ap (λ t. t ++ sent_of es) (i_move-on_way s.i_process s)
run-on_way (crt_runs ∷ es) s =
    run-on_way es (step crt_runs s) ∙ ap (λ t. t ++ sent_of es) (print_move-on_way s)

pub init-Inv : (memory : Body) → Inv (init memory)
init-Inv memory = record { phase = quiet refl tt tt refl; box = tt; display = tt }

-- What is printed is the beginning of the texts that have been taken.
printed_prefix : (s : Crt) → Phase s → (rest : List ℕ) × (s.printed ++ rest ≡ texts s.taken)
printed_prefix s (quiet f w d out) = ([], append_none s.printed ∙ out)
printed_prefix s (loading before l f w t out loaded) =
    (l.text, ap (λ x. x ++ l.text) out ∙ (sym (texts-append_one before l) ∙ ap texts (sym t)))
printed_prefix s (showing before l f d t shows) = go s.printer shows
  where
    whole : texts before ++ l.text ≡ texts s.taken
    whole = sym (texts-append_one before l) ∙ ap texts (sym t)

    go :
        (pr : Printer)
        → Showing pr (texts before) l s
        → (rest : List ℕ) × (s.printed ++ rest ≡ texts s.taken)
    go signalling (out, spells) = (l.text, ap (λ x. x ++ l.text) out ∙ whole)
    go waiting (out, spells) = (l.text, ap (λ x. x ++ l.text) out ∙ whole)
    go (printing i) (cs, rest, spelt, out, at, spells) = (
      rest,
      ap (λ x. x ++ rest) out
          ∙ (append_assoc (texts before) cs rest
              ∙ (ap (λ x. texts before ++ x) (sym spelt) ∙ whole)),
    )
    go freeing out = ([], append_none s.printed ∙ (out ∙ whole))

-- Where nothing is under way, all that has been taken is printed.
printed_all :
    (s : Crt)
    → Phase s
    → s.i_process_wait_flag ≡ false
    → s.i_process ≡ exited
    → s.printed ≡ texts s.taken
printed_all s (quiet f w d out) f' is = out
printed_all s (loading before l f w t out loaded) f' is = absurd (rw is at loaded)
printed_all s (showing before l f d t out) f' is = absurd (ground (arith, f, f'))

-- The console of the Unix port, from its start, with letters sent to its i-process at any time,
-- and the steps of the i-process and of the process that prints in any order: what is printed is
-- at every moment a beginning of the texts of the letters, one behind the other in the order in
-- which they were sent. The texts have no zero among their characters; the memory the two share
-- may hold anything at the start.
pub run-prints :
    (es : List Event) (memory : Body)
    → AllText (sent_of es)
    → (rest : List ℕ) × ((run es (init memory)).printed ++ rest ≡ texts (sent_of es))
run-prints es memory ok =
    let s = run es (init memory) in
    let (rest, out) = printed_prefix s (run-Inv es (init memory) ok (init-Inv memory)).phase in
    let waiting_texts = texts (s.display_queue ++ s.mailbox) in
    (
      rest ++ waiting_texts,
      sym (append_assoc s.printed rest waiting_texts)
          ∙ (ap (λ t. t ++ waiting_texts) out
              ∙ (sym (texts-append s.taken (s.display_queue ++ s.mailbox))
                  ∙ ap texts (run-on_way es (init memory)))),
    )

-- The console of the Unix port, from its start, after letters whose texts have no zero and steps
-- of the two processes in any order: where the i-process has exited, the flag is free, and no letter is in the mailbox or in the queue of texts, the output is the texts of all
-- the letters that were sent, one behind the other in the order of the sending.
pub run-prints_all :
    (es : List Event) (memory : Body)
    → AllText (sent_of es)
    → (run es (init memory)).i_process_wait_flag ≡ false
    → (run es (init memory)).i_process ≡ exited
    → (run es (init memory)).display_queue ≡ []
    → (run es (init memory)).mailbox ≡ []
    → (run es (init memory)).printed ≡ texts (sent_of es)
run-prints_all es memory ok f is none_shown none_sent =
    let s = run es (init memory) in
    let all : s.taken ≡ on_way s = sym (
      ap (λ t. s.taken ++ t) (ap (λ t. t ++ s.mailbox) none_shown ∙ none_sent)
      ∙ append_none s.taken) in
    printed_all s (run-Inv es (init memory) ok (init-Inv memory)).phase f is
    ∙ ap texts (all ∙ run-on_way es (init memory))
