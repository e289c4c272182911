-- ===== src/Unix/Crt/Drains/Taken.antt =====
-- A text that has been taken, and the steps of the two processes with it.
use rtx.Base.{
  ℕ, ◌+◌, ◌≡◌, refl, sym, ap, subst, true, false, ◌==◌, if◌then◌else◌, List, [], ◌∷◌, ◌++◌, length,
  arith,
}
use rtx.Utils.Spells.{Spells}
use rtx.Unix.Crt.{
  Letter, IProcess, exited, testing, copying, setting, storing, Printer, waiting, signalling,
  printing, freeing, Crt, load, i_move, start_crt_i_process, print_move, crt_main, Event, i_runs,
  crt_runs, step, run,
}
use rtx.Unix.Crt.Texts.{texts, sent_of}
use rtx.Unix.Crt.Phases.{Showing, Phase, quiet, loading, showing, Inv}
use rtx.Unix.Crt.Awake.{Awake, i_move-Awake, printer-Awake}
use rtx.Unix.Crt.Moves.{i_move-Inv}
use rtx.Unix.Crt.Printing.{print_char}
use rtx.Unix.Crt.Prints.{print_move-Inv}

-- Nothing is under way.
abbrev pub Quiet : Crt → Type 0
Quiet s =
    (s.i_process_wait_flag ≡ false)
    × (s.i_process ≡ exited)
    × (s.display_queue ≡ [])
    × (s.mailbox ≡ [])

-- Steps of the two processes lead there.
abbrev pub Drains : Crt → Type 0
Drains s = (es : List Event) × (sent_of es ≡ []) × Quiet (run es s)

pub i_step-Drains : (p : IProcess) (s : Crt) → s.i_process ≡ p → Drains (i_move p s) → Drains s
unfolding run step start_crt_i_process
i_step-Drains p s is (es, none_sent, q) =
    (i_runs ∷ es, none_sent, subst (λ p. Quiet (run es (i_move p s))) (sym is) q)

print_step-Drains : (pr : Printer) (s : Crt) → s.printer ≡ pr → Drains (print_move pr s) → Drains s
unfolding run step crt_main
print_step-Drains pr s is (es, none_sent, q) =
    (crt_runs ∷ es, none_sent, subst (λ pr. Quiet (run es (print_move pr s))) (sym is) q)

-- Each text is where the phase says, and where letters wait, a signal will come.
pub record Going (s : Crt) : Type 0 where
  pub inv : Inv s
  pub awake : Awake s.i_process s

pub i_move-Going : (p : IProcess) (s : Crt) → s.i_process ≡ p → Going s → Going (i_move p s)
i_move-Going p s is g = record {
  inv = i_move-Inv p s is g.inv;
  awake = i_move-Awake p s is (subst (λ p. Awake p s) is g.awake);
}

pub print_next :
    (pr : Printer) (s t : Crt)
    → s.printer ≡ pr
    → print_move pr s ≡ t
    → Going s
    → (Going t → Drains t)
    → Drains s
print_next pr s t is moves g drains =
    let g' : Going (print_move s.printer s) = record {
      inv = print_move-Inv s g.inv;
      awake = printer-Awake s g.awake;
    } in
    print_step-Drains pr s is (
      subst Drains (sym moves)
        (drains (subst Going moves (subst (λ pr. Going (print_move pr s)) is g'))))

-- The letters that wait.
abbrev pub waits : Crt → ℕ
waits s = length (s.display_queue ++ s.mailbox)

-- From where no text is in memory, with `n` letters that wait.
abbrev pub Unloaded : ℕ → Type 0
Unloaded n =
    (s : Crt)
    → Going s
    → s.i_process ≡ exited
    → s.i_process_wait_flag ≡ false
    → waits s ≡ n
    → Drains s

module _ (n : ℕ) (free : Unloaded n) where
  freeing-Drains :
      (s : Crt) → Going s → s.i_process ≡ exited → waits s ≡ n → s.printer ≡ freeing → Drains s
  freeing-Drains s inv is count at =
      print_next freeing s (print_move freeing s) at refl inv
        (λ inv'. free (print_move freeing s) inv' is refl count)

  -- The printer is at the characters `rest` of the text.
  printing-Drains :
      (rest : List ℕ) (i : ℕ) (s : Crt)
      → Going s
      → s.i_process ≡ exited
      → waits s ≡ n
      → s.printer ≡ printing i
      → Spells s.buf i rest
      → Drains s
  printing-Drains [] i s inv is count at spells =
      let ends : (s.buf i == 0) ≡ true = ground (arith, spells) in
      let t = record s { printer = freeing } in
      print_next (printing i) s t at (rw ends refl) inv
        (λ inv'. freeing-Drains t inv' is count refl)
  printing-Drains (c ∷ rest) i s inv is count at (here, ne, spells) =
      let t = record s { printed = s.printed ++ c ∷ []; printer = printing (i + 1) } in
      print_next (printing i) s t at (print_char i c s here ne) inv
        (λ inv'. printing-Drains rest (i + 1) t inv' is count refl spells)

  -- The text is in memory, and the printer has not begun.
  loaded-Drains :
      (l : Letter) (s : Crt)
      → Going s
      → s.i_process ≡ exited
      → waits s ≡ n
      → s.printer ≡ waiting
      → s.i_process_wait_flag ≡ true
      → Spells s.buf 0 l.text
      → Drains s
  loaded-Drains l s inv is count at f spells =
      let t = record s { printer = printing 0 } in
      print_next waiting s t at (ap (λ b. if b then t else s) f) inv
        (λ inv'. printing-Drains l.text 0 t inv' is count refl spells)

  -- The i-process has left its loop.
  pub start-Drains : (s : Crt) → Going s → s.i_process ≡ exited → waits s ≡ n → Drains s
  start-Drains s inv is count = go inv.inv.phase
    where
      shown :
          (pr : Printer) (out : List ℕ) (l : Letter)
          → s.printer ≡ pr
          → s.i_process_wait_flag ≡ true
          → Showing pr out l s
          → Drains s
      shown waiting out l at f (printed, spells) = loaded-Drains l s inv is count at f spells
      shown signalling out l at f (printed, spells) =
          let t = record s { signalled = true; printer = waiting } in
          print_next signalling s t at refl inv
            (λ inv'. loaded-Drains l t inv' is count refl f spells)
      shown (printing i) out l at f (cs, rest, spelt, printed, place, spells) =
          printing-Drains rest i s inv is count at spells
      shown freeing out l at f printed = freeing-Drains s inv is count at

      go : Phase s → Drains s
      go (quiet f w d out) = free s inv is f count
      go (loading before l f w t out loaded) = absurd (rw is at loaded)
      go (showing before l f d t shows) = shown s.printer (texts before) l refl f shows

  pub copying-Drains :
      (l : Letter) (rest : List ℕ) (s : Crt)
      → Going s
      → s.i_process ≡ copying l rest
      → waits s ≡ n
      → Drains s
  copying-Drains l (c ∷ rest) s inv is count =
      let p = copying l (c ∷ rest) in
      i_step-Drains p s is (copying-Drains l rest (i_move p s) (i_move-Going p s is inv) refl count)
  copying-Drains l [] s inv is count =
      let s₁ = i_move (copying l []) s in
      let s₂ = i_move (setting l) s₁ in
      let inv₁ = i_move-Going (copying l []) s is inv in
      let inv₂ = i_move-Going (setting l) s₁ refl inv₁ in
      i_step-Drains (copying l []) s is (
        i_step-Drains (setting l) s₁ refl (
          i_step-Drains (storing l) s₂ refl (
            start-Drains (i_move (storing l) s₂) (i_move-Going (storing l) s₂ refl inv₂) refl
              count)))

  -- The flag is free, and a text is taken, or the i-process leaves its loop.
  pub load-Drains :
      (ls : List Letter) (s : Crt)
      → s.display_queue ≡ ls
      → Going (load ls s)
      → waits (load ls s) ≡ n
      → Drains (load ls s)
  load-Drains [] s is inv count = start-Drains (load [] s) inv refl count
  load-Drains (l ∷ ls) s is inv count = copying-Drains l l.text (load (l ∷ ls) s) inv refl count

  pub test-Drains :
      (s : Crt)
      → Going s
      → s.i_process ≡ testing
      → s.i_process_wait_flag ≡ false
      → waits (load s.display_queue s) ≡ n
      → Drains s
  test-Drains s inv is f count =
      let t = load s.display_queue s in
      let moves : i_move testing s ≡ t =
        ap (λ b. if b then record s { i_process = exited } else t) f in
      i_step-Drains testing s is (
        subst Drains (sym moves) (
          load-Drains s.display_queue s refl (subst Going moves (i_move-Going testing s is inv))
            count))
