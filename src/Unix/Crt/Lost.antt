-- ===== src/Unix/Crt/Lost.antt =====
-- unix/kern/src/crt_i_process.c: the flag becomes free between the two tests of the i-process.
use rtx.Base.{
  ℕ, ◌+◌, ◌≡◌, refl, sym, ap, subst, ◌∙◌, true, false, ◌==◌, ◌||◌, leb, Bool, Option, none, some,
  List, [], ◌∷◌, ◌++◌, length, length-append, arith,
}
use rtx.Links.{update}
use rtx.Message.{Body}
use rtx.Utils.Spells.{Spells, NonZero}
use rtx.Unix.Crt.{
  crt_buf_size, Letter, receiving, copying, setting, signalling, printing, freeing, Crt,
  start_crt_i_process, crt_main, Event, sent, killed, i_runs, crt_runs, step, run, init,
}
use rtx.Unix.Crt.Texts.{run-append, sent_of-append, sent_of, append_assoc, append_none}
use rtx.Unix.Crt.Printing.{print_char}
use rtx.Unix.Crt.Memory.{Upto, Upto-write, Upto-end}

-- As many steps as it takes to copy a text, or to print it, and the zero at its end.
abbrev each : Event → List ℕ → List Event
each e [] = e ∷ []
each e (c ∷ cs) = e ∷ each e cs

sent_of-each_i : (cs : List ℕ) → sent_of (each i_runs cs) ≡ []
sent_of-each_i [] = refl
sent_of-each_i (c ∷ cs) = sent_of-each_i cs

sent_of-each_crt : (cs : List ℕ) → sent_of (each crt_runs cs) ≡ []
sent_of-each_crt [] = refl
sent_of-each_crt (c ∷ cs) = sent_of-each_crt cs

-- The i-process has copied the characters `cs` and goes on to the end of the text.
copies :
    (l : Letter) (rest cs : List ℕ) (s : Crt)
    → s.i ≡ length cs
    → Upto s.buf 0 cs
    → NonZero rest
    → (b : Body) × (k : ℕ) × (o : Bool) × Spells b 0 (cs ++ rest)
      × (run (each i_runs rest) (record s { i_process = copying l rest })
          ≡ record s { buf = b; outside = o; i = k; i_process = setting l })
unfolding run step start_crt_i_process
copies l [] cs s at upto ok = (
  update s.buf s.i 0,
  s.i,
  s.outside || leb crt_buf_size s.i,
  subst (Spells (update s.buf s.i 0) 0) (sym (append_none cs)) (Upto-end s.buf s.i cs at upto),
  refl,
)
copies l (c ∷ rest) cs s at upto (ne, ok) =
    let (b, k, o, spells, done) =
      copies l rest (cs ++ c ∷ [])
        (record s {
          buf = update s.buf s.i c;
          outside = s.outside || leb crt_buf_size s.i;
          i = s.i + 1;
        })
        (omega (arith, at, length-append cs (c ∷ []))) (Upto-write s.buf s.i cs c at ne upto) ok in
    (b, k, o, subst (Spells b 0) (append_assoc cs (c ∷ []) rest) spells, done)

-- The printer goes on to the end of the text.
prints :
    (rest : List ℕ) (i : ℕ) (s : Crt)
    → Spells s.buf i rest
    → run (each crt_runs rest) (record s { printer = printing i })
      ≡ record s { printed = s.printed ++ rest; printer = freeing }
unfolding run step crt_main
prints [] i s spells =
    let ends : (s.buf i == 0) ≡ true = ground (arith, spells) in
    rw (ends, append_none s.printed) refl
prints (c ∷ rest) i s (here, ne, spells) =
    ap (run (each crt_runs rest)) (print_char i c (record s { printer = printing i }) here ne)
    ∙ (prints rest (i + 1) (record s { printed = s.printed ++ c ∷ [] }) spells
        ∙ ap (λ t. record s { printed = t; printer = freeing })
            (append_assoc s.printed (c ∷ []) rest))

-- What is left of the letters: those that were sent back, the one that is kept to be sent back, those that
-- wait to be shown and those in the mailbox.
abbrev kept : Option Letter → List Letter
kept none = []
kept (some l) = l ∷ []

abbrev pub left : Crt → List Letter
left s = s.acked ++ (kept s.prev_msg ++ (s.display_queue ++ s.mailbox))

-- The printer ends between the two tests of the flag.
abbrev between : Letter → Letter → List Event
between l l' =
    (sent l ∷ killed ∷ i_runs ∷ i_runs ∷ i_runs ∷ i_runs ∷ [])
    ++ (each i_runs l.text
        ++ ((i_runs ∷ i_runs ∷ sent l' ∷ killed ∷ i_runs ∷ i_runs ∷ crt_runs ∷ [])
            ++ (each crt_runs l.text
                ++ ((i_runs ∷ crt_runs ∷ i_runs ∷ [])
                    ++ (each i_runs l'.text ++ (i_runs ∷ i_runs ∷ []))))))

sent_of-between : (l l' : Letter) → sent_of (between l l') ≡ l ∷ l' ∷ []
sent_of-between l l' =
    (ap (λ t. l ∷ t) (skip (each i_runs l.text) _ (sent_of-each_i l.text))
      ∙ ap (λ t. l ∷ l' ∷ t)
          (skip (each crt_runs l.text) _ (sent_of-each_crt l.text)
            ∙ skip (each i_runs l'.text) _ (sent_of-each_i l'.text)))
  where
    skip : (a b : List Event) → sent_of a ≡ [] → sent_of (a ++ b) ≡ sent_of b
    skip a b none_sent = sent_of-append a b ∙ ap (λ t. t ++ sent_of b) none_sent

run-between :
    (l l' : Letter) (memory : Body)
    → NonZero l.text
    → NonZero l'.text
    → left (run (between l l') (init memory)) ≡ l' ∷ []
unfolding run step start_crt_i_process crt_main
run-between l l' memory ok ok' =
    let s = record (init memory) { taken = l ∷ [] } in
    let (b, k, o, spells, done) = copies l l.text [] s refl tt ok in
    let shown = record s {
      buf = b;
      outside = o;
      i = k;
      i_process_wait_flag = true;
      prev_msg = some l;
      mailbox = l' ∷ [];
      i_process = receiving;
    } in
    let printed = prints l.text 0 shown spells in
    let s' = record shown {
      i_process_wait_flag = false;
      mailbox = [];
      taken = l ∷ l' ∷ [];
      i = 0;
      printed = l.text;
      printer = signalling;
    } in
    let (b', k', o', spells', done') = copies l' l'.text [] s' refl tt ok' in
    ap left (
      after (each i_runs l.text) _ (record s { i_process = copying l l.text }) done
      ∙ (after (each crt_runs l.text) _ (record shown { printer = printing 0 }) printed
          ∙ after (each i_runs l'.text) _ (record s' { i_process = copying l' l'.text }) done'))
  where
    after : (a b : List Event) (s : Crt) {t : Crt} → run a s ≡ t → run (a ++ b) s ≡ run b t
    after a b s reaches = run-append a b s ∙ ap (run b) reaches

-- A defect: for any two letters whose texts have no zero there is a sequence of events from the
-- start of the console, in which just these two are sent, that ends with only the second one
-- left: of the letters sent back, the one that is kept to be sent back, those in the queue of
-- texts and those in the mailbox, it is all there is. The flag becomes free between the two tests
-- of the i-process, which then forgets the first letter without an acknowledgement.
pub run-loses :
    (l l' : Letter) (memory : Body)
    → NonZero l.text
    → NonZero l'.text
    → (es : List Event) × (sent_of es ≡ l ∷ l' ∷ []) × (left (run es (init memory)) ≡ l' ∷ [])
run-loses l l' memory ok ok' = (between l l', sent_of-between l l', run-between l l' memory ok ok')
