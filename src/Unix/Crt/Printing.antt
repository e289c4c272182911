-- ===== src/Unix/Crt/Printing.antt =====
-- The steps of the process that prints (unix/crt/src/main.c).
use rtx.Base.{
  ℕ, ◌+◌, ◌≡◌, ◌≢◌, refl, sym, ap, ◌∙◌, true, false, ◌==◌, List, [], ◌∷◌, ◌++◌, length,
  length-append, arith, on_test,
}
use rtx.Utils.Spells.{Spells}
use rtx.Unix.Crt.{
  Letter, IProcess, exited, acknowledging, receiving, testing, copying, setting, storing, Printer,
  waiting, signalling, printing, freeing, Crt, print_move,
}
use rtx.Unix.Crt.Texts.{texts, append_assoc, append_none, texts-append_one}
use rtx.Unix.Crt.Moves.{post-Phase}
use rtx.Unix.Crt.Phases.{Done, Loading, Phase, quiet, loading, showing}

pub print_char :
    (i c : ℕ) (s : Crt)
    → s.buf i ≡ c
    → c ≢ 0
    → print_move (printing i) s
      ≡ record s { printed = s.printed ++ c ∷ []; printer = printing (i + 1) }
print_char i c s here ne =
    let goes : (s.buf i == 0) ≡ false = ground (arith, here) in rw (goes, here) refl

-- The printer begins a text.
begin-Phase :
    (s : Crt)
    → s.printer ≡ waiting
    → s.i_process_wait_flag ≡ true
    → Phase s
    → Phase (record s { printer = printing 0 })
begin-Phase s is f (quiet f' w d out) = absurd (ground (arith, f, f'))
begin-Phase s is f (loading before l f' w t out loaded) = absurd (ground (arith, f, f'))
begin-Phase s is f (showing before l f' d t shows) =
    let (out, spells) = rw is at shows in
    showing before l f' d t ([], l.text, refl, out ∙ sym (append_none (texts before)), refl, spells)

-- It prints a character, or has come to the end of the text.
print-Phase :
    (i : ℕ) (s : Crt) (before : List Letter) (l : Letter)
    → s.i_process_wait_flag ≡ true
    → Done s.i_process
    → s.taken ≡ before ++ l ∷ []
    → (cs rest : List ℕ) → l.text ≡ cs ++ rest
    → s.printed ≡ texts before ++ cs
    → i ≡ length cs
    → Spells s.buf i rest
    → Phase (print_move (printing i) s)
print-Phase i s before l f d t cs [] spelt out at spells =
    let ends : (s.buf i == 0) ≡ true = ground (arith, spells) in
    rw ends
      (showing before l f d t (out ∙ ap (λ x. texts before ++ x) (sym (spelt ∙ append_none cs))))
print-Phase i s before l f d t cs (c ∷ rest) spelt out at (here, ne, spells) =
    let goes : (s.buf i == 0) ≡ false = ground (arith, here) in
    rw (goes, here)
      (showing before l f d t (
        cs ++ c ∷ [],
        rest,
        spelt ∙ sym (append_assoc cs (c ∷ []) rest),
        ap (λ x. x ++ c ∷ []) out ∙ append_assoc (texts before) cs (c ∷ []),
        omega (arith, at, length-append cs (c ∷ [])),
        spells,
      ))

-- It has signalled.
rest-Phase : (s : Crt) → s.printer ≡ signalling → Phase s → Phase (record s { printer = waiting })
rest-Phase s is (quiet f w d out) = quiet f tt d out
rest-Phase s is (loading before l f w t out loaded) =
    loading before l f tt t out (again s.i_process loaded)
  where
    again : (p : IProcess) → Loading p l s → Loading p l (record s { printer = waiting })
    again exited h = h
    again acknowledging h = h
    again receiving h = h
    again testing h = h
    again (copying l' rest) h = h
    again (setting l') h = h
    again (storing l') h = h
rest-Phase s is (showing before l f d t shows) =
    let shown : (s.printed ≡ texts before) × Spells s.buf 0 l.text = rw is at shows in
    showing before l f d t shown

pub Printer-Phase : (pr : Printer) (s : Crt) → s.printer ≡ pr → Phase s → Phase (print_move pr s)
Printer-Phase waiting s is h =
    on_test Phase s.i_process_wait_flag (record s { printer = printing 0 }) s
      (λ f. begin-Phase s is f h) (λ f. h)
Printer-Phase (printing i) s is (quiet f w d out) = absurd (rw is at w)
Printer-Phase (printing i) s is (loading before l f w t out loaded) = absurd (rw is at w)
Printer-Phase (printing i) s is (showing before l f d t shows) =
    let (cs, rest, spelt, out, at, spells) = rw is at shows in
    print-Phase i s before l f d t cs rest spelt out at spells
Printer-Phase freeing s is (quiet f w d out) = absurd (rw is at w)
Printer-Phase freeing s is (loading before l f w t out loaded) = absurd (rw is at w)
Printer-Phase freeing s is (showing before l f d t shows) =
    let out : s.printed ≡ texts before ++ l.text = rw is at shows in
    quiet refl tt d (out ∙ (sym (texts-append_one before l) ∙ ap texts (sym t)))
Printer-Phase signalling s is h =
    post-Phase (record s { printer = waiting }) s.mailbox true s.senders (rest-Phase s is h)

pub printer-rest :
    (pr : Printer) (s : Crt)
    → ((print_move pr s).mailbox ≡ s.mailbox)
      × ((print_move pr s).display_queue ≡ s.display_queue)
      × ((print_move pr s).taken ≡ s.taken)
printer-rest waiting s = (ground arith, ground arith, ground arith)
printer-rest (printing i) s = (ground arith, ground arith, ground arith)
printer-rest freeing s = (refl, refl, refl)
printer-rest signalling s = (refl, refl, refl)
