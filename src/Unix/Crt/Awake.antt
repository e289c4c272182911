-- ===== src/Unix/Crt/Awake.antt =====
-- unix/kern/src/crt_i_process.c and unix/crt/src/main.c: signals to the i-process that are pending or
-- still to come.
use rtx.Base.{
  ℕ, ◌+◌, ◌-◌, ◌≡◌, ◌≢◌, ◌⊎◌, inl, inr, refl, sym, ap, subst, ◌∙◌, true, false, ◌==◌, List, [], ◌∷◌,
  ◌++◌, length, length-append, arith, on_test,
}
use rtx.Unix.Crt.{
  Letter, IProcess, exited, acknowledging, receiving, testing, copying, setting, storing, Printer,
  waiting, freeing, signalling, printing, Crt, receive, load, i_move, start_crt_i_process,
  print_move, crt_main, Event, sent, killed, i_runs, crt_runs, step, run,
}
use rtx.Unix.Crt.Printing.{printer-rest}

abbrev pub Empty : Crt → Type 0
Empty s = (s.display_queue ≡ []) × (s.mailbox ≡ [])

-- A signal is pending, or a sender, or the printer, will send one.
pub data Due (s : Crt) : Type 0 where
  signal : s.signalled ≡ true → Due s
  sender : s.senders ≢ 0 → Due s
  shown : s.i_process_wait_flag ≡ true → Due s
  freed : s.printer ≡ signalling → Due s

abbrev pub Awake : IProcess → Crt → Type 0
Awake exited s = Due s ⊎ Empty s
Awake testing s = Due s ⊎ ((s.display_queue ≢ []) ⊎ Empty s)
Awake (storing l) s = Due s
Awake _ s = Unit {0}

pub append_one_ne : (ls : List Letter) (l : Letter) → ls ++ l ∷ [] ≢ []
append_one_ne ls l e =
    let none : length (ls ++ l ∷ []) ≡ 0 = ap length e in
    omega (arith, none, length-append ls (l ∷ []))

-- The printer keeps what it has to do.
printer-Due : (pr : Printer) (s : Crt) → s.printer ≡ pr → Due s → Due (print_move pr s)
printer-Due waiting s is h =
    on_test Due s.i_process_wait_flag (record s { printer = printing 0 }) s (λ f. shown f) (λ f. h)
printer-Due (printing i) s is h =
    on_test Due (s.buf i == 0) (record s { printer = freeing })
      (record s { printed = s.printed ++ s.buf i ∷ []; printer = printing (i + 1) })
      (λ e. moved freeing s.printed h) (λ e. moved (printing (i + 1)) (s.printed ++ s.buf i ∷ []) h)
  where
    moved : (pr : Printer) (out : List ℕ) → Due s → Due (record s { printed = out; printer = pr })
    moved pr out (signal f) = signal f
    moved pr out (sender n) = sender n
    moved pr out (shown f) = shown f
    moved pr out (freed f) = cc
printer-Due freeing s is h = freed refl
printer-Due signalling s is h = signal refl

printer-i_process : (pr : Printer) (s : Crt) → (print_move pr s).i_process ≡ s.i_process
printer-i_process waiting s = ground arith
printer-i_process (printing i) s = ground arith
printer-i_process freeing s = refl
printer-i_process signalling s = refl

pub printer-Awake :
    (s : Crt)
    → Awake s.i_process s
    → Awake (print_move s.printer s).i_process (print_move s.printer s)
printer-Awake s h =
    let t = print_move s.printer s in
    let (box, display, taken) = printer-rest s.printer s in
    subst (λ p. Awake p t) (sym (printer-i_process s.printer s))
      (go s.i_process t (printer-Due s.printer s refl) box display h)
  where
    go :
        (p : IProcess) (t : Crt)
        → (Due s → Due t)
        → t.mailbox ≡ s.mailbox
        → t.display_queue ≡ s.display_queue
        → Awake p s
        → Awake p t
    go exited t due box display (inl d) = inl (due d)
    go exited t due box display (inr (e, e')) = inr (display ∙ e, box ∙ e')
    go testing t due box display (inl d) = inl (due d)
    go testing t due box display (inr (inl ne)) = inr (inl (λ e. ne (sym display ∙ e)))
    go testing t due box display (inr (inr (e, e'))) = inr (inr (display ∙ e, box ∙ e'))
    go (storing l) t due box display d = due d
    go acknowledging t due box display h = tt
    go receiving t due box display h = tt
    go (copying l rest) t due box display h = tt
    go (setting l) t due box display h = tt

-- The i-process has left its loop.
exited-Due : (p : IProcess) (s : Crt) → Due s → Due (record s { i_process = p })
exited-Due p s (signal f) = signal f
exited-Due p s (sender n) = sender n
exited-Due p s (shown f) = shown f
exited-Due p s (freed f) = freed f

test-Awake :
    (ls : List Letter) (s : Crt)
    → s.display_queue ≡ ls
    → Awake testing s
    → Awake (load ls s).i_process (load ls s)
test-Awake [] s is (inl d) = inl (exited-Due exited s d)
test-Awake [] s is (inr (inl ne)) = absurd (ne is)
test-Awake [] s is (inr (inr e)) = inr e
test-Awake (l ∷ ls) s is h = tt

receive-Awake :
    (ds ms : List Letter) (s : Crt)
    → s.display_queue ≡ ds
    → s.mailbox ≡ ms
    → Awake testing (record (receive ms s) { i_process = testing })
receive-Awake [] [] s none_shown none_sent = inr (inr (none_shown, none_sent))
receive-Awake (d ∷ ds) [] s is none_sent = inr (inl (λ e. cc))
receive-Awake ds (m ∷ ms) s is some_sent = inr (inl (append_one_ne s.display_queue m))

pub i_move-Awake :
    (p : IProcess) (s : Crt)
    → s.i_process ≡ p
    → Awake p s
    → Awake (i_move p s).i_process (i_move p s)
i_move-Awake exited s is h =
    on_test (λ (r : Crt). Awake r.i_process r) s.signalled
      (record s { signalled = false; i_process = acknowledging }) s (λ f. tt)
      (λ f. subst (λ p. Awake p s) (sym is) h)
i_move-Awake acknowledging s is h = tt
i_move-Awake receiving s is h = receive-Awake s.display_queue s.mailbox s refl refl
i_move-Awake testing s is h =
    on_test (λ (r : Crt). Awake r.i_process r) s.i_process_wait_flag
      (record s { i_process = exited }) (load s.display_queue s) (λ f. inl (shown f))
      (λ f. test-Awake s.display_queue s refl h)
i_move-Awake (copying l (c ∷ rest)) s is h = tt
i_move-Awake (copying l []) s is h = tt
i_move-Awake (setting l) s is h = shown refl
i_move-Awake (storing l) s is (signal f) = inl (signal f)
i_move-Awake (storing l) s is (sender n) = inl (sender n)
i_move-Awake (storing l) s is (shown f) = inl (shown f)
i_move-Awake (storing l) s is (freed f) = inl (freed f)

send-Awake :
    (p : IProcess) (s : Crt) (l : Letter)
    → Awake p (record s { mailbox = s.mailbox ++ l ∷ []; senders = s.senders + 1 })
send-Awake exited s l = inl (sender (omega arith))
send-Awake testing s l = inl (sender (omega arith))
send-Awake (storing l') s l = sender (omega arith)
send-Awake acknowledging s l = tt
send-Awake receiving s l = tt
send-Awake (copying l' rest) s l = tt
send-Awake (setting l') s l = tt

pub killed-Awake :
    (p : IProcess) (s : Crt) → Awake p (record s { signalled = true; senders = s.senders - 1 })
killed-Awake exited s = inl (signal refl)
killed-Awake testing s = inl (signal refl)
killed-Awake (storing l) s = signal refl
killed-Awake acknowledging s = tt
killed-Awake receiving s = tt
killed-Awake (copying l rest) s = tt
killed-Awake (setting l) s = tt

pub run-Awake :
    (es : List Event) (s : Crt) → Awake s.i_process s → Awake (run es s).i_process (run es s)
unfolding run step start_crt_i_process crt_main
run-Awake [] s h = h
run-Awake (sent l ∷ es) s h = run-Awake es (step (sent l) s) (send-Awake s.i_process s l)
run-Awake (killed ∷ es) s h = run-Awake es (step killed s) (
    on_test (λ (r : Crt). Awake r.i_process r) (s.senders == 0) s
      (record s { signalled = true; senders = s.senders - 1 }) (λ n. h)
      (λ n. killed-Awake s.i_process s))
run-Awake (i_runs ∷ es) s h = run-Awake es (step i_runs s) (i_move-Awake s.i_process s refl h)
run-Awake (crt_runs ∷ es) s h = run-Awake es (step crt_runs s) (printer-Awake s h)
