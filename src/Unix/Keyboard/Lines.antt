-- ===== src/Unix/Keyboard/Lines.antt =====
-- unix/kern/src/kb_i_process.c and unix/keyboard/src/main.c: a line that is typed while both wait and a
-- request is in the mailbox.
use rtx.Base.{
  ℕ, ◌+◌, ◌<◌, ◌≤◌, ◌≡◌, ◌≢◌, refl, sym, ap, subst, ◌∙◌, true, false, ◌==◌, ==_of_ne, ltb, List, [],
  ◌∷◌, ◌++◌, length, length-append, arith,
}
use rtx.Links.{update}
use rtx.Message.{Body}
use rtx.Utils.Spells.{Spells}
use rtx.Unix.Crt.Texts.{append_assoc, append_none}
use rtx.Unix.Crt.Memory.{Upto, Upto-write, Upto-end}
use rtx.Unix.Keyboard.{
  Request, exited, copying, ending, reading, Keyboard, kb_i_move, start_kb_i_process, keyboard_main,
  KeyEvent, typed, i_steps, reader_steps, key_step, key_run,
}

key_run-append : (a b : List KeyEvent) (s : Keyboard) → key_run (a ++ b) s ≡ key_run b (key_run a s)
unfolding key_run
key_run-append [] b s = refl
key_run-append (e ∷ a) b s = key_run-append a b (key_step e s)

-- The characters of a line: no zero and no end of the line.
abbrev pub OneLine : List ℕ → Type 0
OneLine [] = Unit {0}
OneLine (c ∷ cs) = (c ≢ 0) × (c ≢ 10) × OneLine cs

-- Each key is read, stored and counted; each character is copied, and the end of the buffer is seen.
abbrev pub keys : List ℕ → List KeyEvent
keys [] = []
keys (c ∷ cs) = typed c ∷ reader_steps ∷ reader_steps ∷ reader_steps ∷ reader_steps ∷ keys cs

abbrev pub copying_steps : List ℕ → List KeyEvent
copying_steps [] = i_steps ∷ []
copying_steps (c ∷ cs) = i_steps ∷ copying_steps cs

-- The reader waits for a key.
abbrev at_keys : Keyboard → Keyboard
at_keys s = record s { input = []; reader = reading }

key-stored :
    (c : ℕ) (s : Keyboard)
    → c ≢ 10
    → s.length < 1024
    → key_run (typed c ∷ reader_steps ∷ reader_steps ∷ reader_steps ∷ reader_steps ∷ []) (at_keys s)
      ≡ at_keys (record s { buf = update s.buf s.length c; length = s.length + 1 })
unfolding key_run key_step keyboard_main
key-stored c s ne below =
    let inside : ltb s.length 1024 ≡ true = ground (arith, below) in
    let key : (c == 10) ≡ false = ==_of_ne ne in rw (key, inside) refl

keys-stored :
    (rest cs : List ℕ) (s : Keyboard)
    → s.length ≡ length cs
    → length cs + length rest ≤ 1024
    → Upto s.buf 0 cs
    → OneLine rest
    → (b : Body) × (k : ℕ) × Upto b 0 (cs ++ rest)
      × (k ≡ length (cs ++ rest))
      × (key_run (keys rest) (at_keys s) ≡ at_keys (record s { buf = b; length = k }))
unfolding key_run
keys-stored [] cs s at fits upto ok = (
  s.buf,
  s.length,
  subst (Upto s.buf 0) (sym (append_none cs)) upto,
  at ∙ ap length (sym (append_none cs)),
  refl,
)
keys-stored (c ∷ rest) cs s at fits upto (ne, key, ok) =
    let s' : Keyboard = record s { buf = update s.buf s.length c; length = s.length + 1 } in
    let (b, k, upto', at', done) =
      keys-stored rest (cs ++ c ∷ []) s' (omega (arith, at, length-append cs (c ∷ [])))
        (omega (arith, fits, length-append cs (c ∷ []))) (Upto-write s.buf s.length cs c at ne upto)
        ok in
    let same = append_assoc cs (c ∷ []) rest in
    (
      b,
      k,
      subst (Upto b 0) same upto',
      at' ∙ ap length same,
      ap (key_run (keys rest)) (key-stored c s key (omega (arith, at, fits))) ∙ done,
    )

char-copied :
    (r : Request) (i c : ℕ) (s : Keyboard)
    → i < s.length
    → s.buf i ≡ c
    → kb_i_move (copying r i) s ≡ record s { msg = update s.msg i c; i_process = copying r (i + 1) }
char-copied r i c s below is =
    let inside : ltb i s.length ≡ true = ground (arith, below) in rw (inside, is) refl

line-copied :
    (r : Request) (rest cs : List ℕ) (i : ℕ) (s : Keyboard)
    → i ≡ length cs
    → s.length ≡ i + length rest
    → Upto s.buf i rest
    → Upto s.msg 0 cs
    → (m : Body) × (k : ℕ) × Upto m 0 (cs ++ rest)
      × (k ≡ length (cs ++ rest))
      × (key_run (copying_steps rest) (record s { i_process = copying r i })
          ≡ record s { msg = m; i_process = ending r k })
unfolding key_run key_step start_kb_i_process
line-copied r [] cs i s at long here upto =
    let end : ltb i s.length ≡ false = ground (arith, long) in
    (
      s.msg,
      i,
      subst (Upto s.msg 0) (sym (append_none cs)) upto,
      at ∙ ap length (sym (append_none cs)),
      rw end refl,
    )
line-copied r (c ∷ rest) cs i s at long (here, ne, others) upto =
    let s' : Keyboard = record s { msg = update s.msg i c } in
    let (m, k, upto', at', done) =
      line-copied r rest (cs ++ c ∷ []) (i + 1) s' (omega (arith, at, length-append cs (c ∷ [])))
        (omega (arith, long)) others (Upto-write s.msg i cs c at ne upto) in
    let same = append_assoc cs (c ∷ []) rest in
    (
      m,
      k,
      subst (Upto m 0) same upto',
      at' ∙ ap length same,
      ap (key_run (copying_steps rest))
            (char-copied r i c (record s { i_process = copying r i }) (omega (arith, long)) here)
          ∙ done,
    )

-- Both wait, and a request is in the mailbox.
abbrev pub idle : Request → List Request → Keyboard → Keyboard
idle r rs s = record s {
  input = [];
  reader = reading;
  length = 0;
  signalled = false;
  i_process = exited;
  mailbox = r ∷ rs;
}

-- A line is typed and its end, and then the i-process copies it.
abbrev pub typed_line : List ℕ → List KeyEvent
typed_line cs =
    keys cs
    ++ ((typed 10 ∷ reader_steps ∷ reader_steps ∷ reader_steps ∷ i_steps ∷ i_steps ∷ [])
        ++ copying_steps cs)

-- It stands before the zero at the end.
typed_line-copied :
    (cs : List ℕ) (r : Request) (rs : List Request) (s : Keyboard)
    → length cs ≤ 1024
    → OneLine cs
    → (b m : Body) × Upto m 0 cs
      × (key_run (typed_line cs) (idle r rs s) ≡ record (idle r rs s) {
        kb_wait_flag = true;
        buf = b;
        length = length cs;
        mailbox = rs;
        msg = m;
        i_process = ending r (length cs);
      })
unfolding key_run key_step start_kb_i_process keyboard_main
typed_line-copied cs r rs s fits ok =
    let (b, k, upto, count, stored) =
      keys-stored cs [] (idle r rs s) refl (omega (arith, fits)) tt ok in
    let t : Keyboard = record (idle r rs s) {
      kb_wait_flag = true;
      buf = b;
      length = k;
      mailbox = rs;
    } in
    let (m, k', upto', count', copied) =
      line-copied r cs [] 0 t refl (omega (arith, count)) upto tt in
    (
      b,
      m,
      upto',
      key_run-append (keys cs) _ (idle r rs s)
          ∙ (ap
                (λ t.
                  key_run
                    ((typed 10
                        ∷ reader_steps
                        ∷ reader_steps
                        ∷ reader_steps
                        ∷ i_steps
                        ∷ i_steps
                        ∷ [])
                      ++ copying_steps cs)
                    t)
                stored
              ∙ (copied
                  ∙ (ap (λ k. record t { length = k; msg = m; i_process = ending r k' }) count
                      ∙ ap (λ k. record t { length = length cs; msg = m; i_process = ending r k })
                          count'))),
    )

-- The keyboard of the Unix port, with both processes waiting, the buffer empty, no signal pending
-- and a request in the mailbox: fewer than 1024 characters other than zero and the end of the
-- line are typed, each is stored before the next one, then the end of the line, and the i-process
-- runs to its end. The request is answered with these characters and a zero, the other requests
-- and answers stay, the buffer is empty, and both processes wait again.
pub line-answered :
    (cs : List ℕ) (r : Request) (rs : List Request) (s : Keyboard)
    → length cs < 1024
    → OneLine cs
    → (m : Body) × Spells m 0 cs
      × (let t =
            key_run (typed_line cs ++ (i_steps ∷ i_steps ∷ i_steps ∷ i_steps ∷ [])) (idle r rs s) in
          (t.answered ≡ s.answered ++ record { request = r; msg = m } ∷ [])
          × (t.mailbox ≡ rs)
          × (t.length ≡ 0)
          × (t.i_process ≡ exited)
          × (t.reader ≡ reading))
unfolding key_run key_step start_kb_i_process
line-answered cs r rs s fits ok =
    let (b, m, upto, copied) = typed_line-copied cs r rs s (omega arith) ok in
    let done =
      key_run-append (typed_line cs) (i_steps ∷ i_steps ∷ i_steps ∷ i_steps ∷ []) (idle r rs s)
      ∙ ap (λ t. key_run (i_steps ∷ i_steps ∷ i_steps ∷ i_steps ∷ []) t) copied in
    (
      update m (length cs) 0,
      Upto-end m (length cs) cs refl upto,
      (
        ap (λ t. t.answered) done,
        ap (λ t. t.mailbox) done,
        ap (λ t. t.length) done,
        ap (λ t. t.i_process) done,
        ap (λ t. t.reader) done,
      ),
    )

-- A defect: after a line of 1024 such characters, typed in the same way, the i-process is about
-- to write the zero at index 1024 of the message, which has 1024 characters.
pub line-past_end :
    (cs : List ℕ) (r : Request) (rs : List Request) (s : Keyboard)
    → length cs ≡ 1024
    → OneLine cs
    → (key_run (typed_line cs) (idle r rs s)).i_process ≡ ending r 1024
line-past_end cs r rs s long ok =
    let (b, m, upto, copied) = typed_line-copied cs r rs s (omega (arith, long)) ok in
    ap (λ t. t.i_process) copied ∙ ap (ending r) long
