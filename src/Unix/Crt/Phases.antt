-- ===== src/Unix/Crt/Phases.antt =====
-- The phases of a text on its way through the console of the Unix port (unix/kern/src/crt_i_process.c).
use rtx.Base.{ℕ, ◌≡◌, true, false, List, [], ◌∷◌, ◌++◌, length}
use rtx.Utils.Spells.{Spells, NonZero}
use rtx.Unix.Crt.{
  Letter, IProcess, exited, acknowledging, receiving, testing, copying, setting, storing, Printer,
  waiting, signalling, printing, freeing, Crt,
}
use rtx.Unix.Crt.Texts.{texts, AllText}
use rtx.Unix.Crt.Memory.{Upto}

-- The i-process has nothing of a text in hand that is not in memory.
abbrev pub Done : IProcess → Type 0
Done (copying l rest) = ⊥
Done (setting l) = ⊥
Done _ = Unit {0}

-- How far the i-process is with the letter `l`.
abbrev pub Loading : IProcess → Letter → Crt → Type 0
Loading (copying l' rest) l s =
    (cs : List ℕ) × (l' ≡ l)
    × (l.text ≡ cs ++ rest)
    × (s.i ≡ length cs)
    × Upto s.buf 0 cs
    × NonZero rest
Loading (setting l') l s = (l' ≡ l) × Spells s.buf 0 l.text
Loading _ l s = ⊥

-- The printer has nothing of a text in hand.
abbrev pub Rests : Printer → Type 0
Rests waiting = Unit {0}
Rests signalling = Unit {0}
Rests _ = ⊥

-- How far the printer is with the letter `l`, with `out` printed before it.
abbrev pub Showing : Printer → (out : List ℕ) → Letter → Crt → Type 0
Showing signalling out l s = (s.printed ≡ out) × Spells s.buf 0 l.text
Showing waiting out l s = (s.printed ≡ out) × Spells s.buf 0 l.text
Showing (printing i) out l s =
    (cs rest : List ℕ) × (l.text ≡ cs ++ rest)
    × (s.printed ≡ out ++ cs)
    × (i ≡ length cs)
    × Spells s.buf i rest
Showing freeing out l s = s.printed ≡ out ++ l.text

-- All that has been taken is printed; or the last letter is being put into memory, or printed.
pub data Phase (s : Crt) : Type 0 where
  quiet :
      s.i_process_wait_flag ≡ false
      → Rests s.printer
      → Done s.i_process
      → s.printed ≡ texts s.taken
      → Phase s
  loading :
      (before : List Letter) (l : Letter)
      → s.i_process_wait_flag ≡ false
      → Rests s.printer
      → s.taken ≡ before ++ l ∷ []
      → s.printed ≡ texts before
      → Loading s.i_process l s
      → Phase s
  showing :
      (before : List Letter) (l : Letter)
      → s.i_process_wait_flag ≡ true
      → Done s.i_process
      → s.taken ≡ before ++ l ∷ []
      → Showing s.printer (texts before) l s
      → Phase s

pub record Inv (s : Crt) : Type 0 where
  pub phase : Phase s
  pub box : AllText s.mailbox
  pub display : AllText s.display_queue

pub Done-not_Loading : (p : IProcess) (l : Letter) (s : Crt) → Done p → Loading p l s → ⊥
Done-not_Loading (copying l' rest) l s done h = done
Done-not_Loading (setting l') l s done h = done
Done-not_Loading exited l s done h = h
Done-not_Loading acknowledging l s done h = h
Done-not_Loading receiving l s done h = h
Done-not_Loading testing l s done h = h
Done-not_Loading (storing l') l s done h = h
