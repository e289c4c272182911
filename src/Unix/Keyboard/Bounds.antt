-- ===== src/Unix/Keyboard/Bounds.antt =====
-- unix/kern/src/kb_i_process.c and unix/keyboard/src/main.c: where the two processes write.
use rtx.Base.{
  ℕ, ◌+◌, ◌<◌, ◌≤◌, ◌≡◌, refl, false, ◌==◌, if◌then◌else◌, ltb, List, [], ◌∷◌, arith, on_test,
}
use rtx.Links.{update}
use rtx.Message.{Body}
use rtx.Unix.Keyboard.{
  Request, KbIProcess, exited, receiving, resetting, copying, ending, freeing, answering, Reader,
  reading, counting, signalling, flagging, storing, adding, Keyboard, take_request, kb_i_move,
  start_kb_i_process, read_key, read_move, keyboard_main, KeyEvent, typed, asked, i_steps,
  reader_steps, key_step, key_run, key_init,
}

-- The next character goes into the buffer, which has 1024.
abbrev pub Stores : Reader → ℕ → Type 0
Stores (storing c) k = k < 1024
Stores counting k = k < 1024
Stores (adding j) k = (k ≤ j) × (j < 1024)
Stores _ k = Unit {0}

-- What is copied is in the buffer, and the zero goes no further than one behind it.
abbrev pub Copies : KbIProcess → ℕ → Type 0
Copies (copying r i) k = i ≤ k
Copies (ending r i) k = i ≤ 1024
Copies _ k = Unit {0}

pub record InBounds (s : Keyboard) : Type 0 where
  pub fits : s.length ≤ 1024
  pub stores : Stores s.reader s.length
  pub copies : Copies s.i_process s.length

Stores-zero : (r : Reader) (k : ℕ) → Stores r k → Stores r 0
Stores-zero (storing c) k h = omega arith
Stores-zero counting k h = omega arith
Stores-zero (adding j) k (le, below) = (omega arith, below)
Stores-zero reading k h = tt
Stores-zero signalling k h = tt
Stores-zero flagging k h = tt

Copies-more : (p : KbIProcess) (k k' : ℕ) → k ≤ k' → Copies p k → Copies p k'
Copies-more (copying r i) k k' more h = omega (arith, more, h)
Copies-more (ending r i) k k' more h = h
Copies-more exited k k' more h = tt
Copies-more receiving k k' more h = tt
Copies-more resetting k k' more h = tt
Copies-more (freeing r) k k' more h = tt
Copies-more (answering r) k k' more h = tt

i_move-InBounds :
    (p : KbIProcess) (s : Keyboard) → s.i_process ≡ p → InBounds s → InBounds (kb_i_move p s)
i_move-InBounds exited s is h =
    on_test InBounds s.signalled (record s { signalled = false; i_process = receiving }) s
      (λ f. record { fits = h.fits; stores = h.stores; copies = tt }) (λ f. h)
i_move-InBounds receiving s is h = go s.mailbox
  where
    go : (rs : List Request) → InBounds (take_request rs s)
    go [] = record { fits = h.fits; stores = h.stores; copies = tt }
    go (r ∷ rs) = record { fits = h.fits; stores = h.stores; copies = omega arith }
i_move-InBounds (copying r i) s is h =
    let at : i ≤ s.length = rw is at h.copies in
    let fits = h.fits in
    on_test InBounds (ltb i s.length)
      (record s { msg = update s.msg i (s.buf i); i_process = copying r (i + 1) })
      (record s { i_process = ending r i })
      (λ below. record { fits = fits; stores = h.stores; copies = ground (arith, below) })
      (λ past. record { fits = fits; stores = h.stores; copies = omega (arith, at, fits) })
i_move-InBounds (ending r i) s is h = record { fits = h.fits; stores = h.stores; copies = tt }
i_move-InBounds (freeing r) s is h = record { fits = h.fits; stores = h.stores; copies = tt }
i_move-InBounds (answering r) s is h = record { fits = h.fits; stores = h.stores; copies = tt }
i_move-InBounds resetting s is h = record {
  fits = omega arith;
  stores = Stores-zero s.reader s.length h.stores;
  copies = tt;
}

reader-InBounds : (r : Reader) (s : Keyboard) → s.reader ≡ r → InBounds s → InBounds (read_move r s)
reader-InBounds reading s is h = go s.input
  where
    go : (cs : List ℕ) → InBounds (read_key cs s)
    go [] = h
    go (c ∷ cs) =
        on_test InBounds (c == 10) (record s { input = cs; reader = signalling })
          (if ltb s.length 1024
            then record s { input = cs; reader = storing c }
            else record s { input = cs })
          (λ e. record { fits = h.fits; stores = tt; copies = h.copies })
          (λ ne.
            on_test InBounds (ltb s.length 1024) (record s { input = cs; reader = storing c })
              (record s { input = cs })
              (λ below. record { fits = h.fits; stores = ground (arith, below); copies = h.copies })
              (λ full. record { fits = h.fits; stores = h.stores; copies = h.copies }))
reader-InBounds (storing c) s is h =
    let below : s.length < 1024 = rw is at h.stores in
    record { fits = h.fits; stores = below; copies = h.copies }
reader-InBounds counting s is h =
    let below : s.length < 1024 = rw is at h.stores in
    record { fits = h.fits; stores = (omega arith, below); copies = h.copies }
reader-InBounds (adding k) s is h =
    let (le, below) : (s.length ≤ k) × (k < 1024) = rw is at h.stores in
    record {
      fits = omega (arith, below);
      stores = tt;
      copies = Copies-more s.i_process s.length (k + 1) (omega (arith, le)) h.copies;
    }
reader-InBounds signalling s is h = record { fits = h.fits; stores = tt; copies = h.copies }
reader-InBounds flagging s is h = record { fits = h.fits; stores = tt; copies = h.copies }

-- The keyboard of the Unix port, from its start, after any keys and requests and any steps of the
-- i-process and of the process that reads, in any order: the length is at most 1024, a character
-- on its way into the buffer goes to an index below 1024, a character is copied from no further
-- than the length, and the zero at the end of an answer goes to index 1024 at most.
pub run-InBounds :
    (es : List KeyEvent) (memory text : Body) → InBounds (key_run es (key_init memory text))
unfolding key_run key_step start_kb_i_process keyboard_main
run-InBounds es memory text =
    go es (key_init memory text) record { fits = omega arith; stores = tt; copies = tt }
  where
    go : (es : List KeyEvent) (s : Keyboard) → InBounds s → InBounds (key_run es s)
    go [] s h = h
    go (typed c ∷ es) s h =
        go es (key_step (typed c) s) record { fits = h.fits; stores = h.stores; copies = h.copies }
    go (asked r ∷ es) s h =
        go es (key_step (asked r) s) record { fits = h.fits; stores = h.stores; copies = h.copies }
    go (i_steps ∷ es) s h = go es (key_step i_steps s) (i_move-InBounds s.i_process s refl h)
    go (reader_steps ∷ es) s h = go es (key_step reader_steps s) (reader-InBounds s.reader s refl h)
