-- ===== src/Unix.antt =====
-- unix/kern/src/k_atomic.c and unix/kern/src/k_signal_handler.c: the sections in which a process of
-- the Unix port is not interrupted, and the signals that start an i-process. A signal mask says of
-- each signal whether it is blocked. The contexts of `setjmp` do not have the mask in them. The
-- assertions are compiled in, the output of DEBUG_KERN is left out, the counters are below 2^31, and
-- the code that `k_i_process_enter` returns, which `handle_signal` does not read, is left out.
use rtx.Base.{ℕ, zero, suc, Bool, true, false, not, ◌||◌, ◌==◌, if◌then◌else◌, Option, none, some}
use rtx.Links.{Ptr, null, update}
use rtx.Rtx.{ProcessState, p_ready, p_executing, p_interrupted}
pub mod Sections
pub mod Handler
pub mod Crt
pub mod Keyboard

pub data Signal : Type 0 where
  sigalrm sigint sigusr1 sigusr2 sigbus sighup sigill sigquit sigsegv sigterm sigabrt other_signal :
      Signal

abbrev pub Mask : Type 0
Mask = Signal → Bool

-- What these files read and write of a process control block.
pub record Pcb : Type 0 where
  pub status : ProcessState
  pub is_i_process : Bool
  pub atomic_count : ℕ

-- The globals of the two files, the process control blocks, and the signal mask.
pub record Machine : Type 0 where
  pub current_process : Ptr
  pub interrupted_process : Ptr
  pub flag : ℕ
  pub pcbs : Ptr → Pcb
  pub mask : Mask
  pub oldmask : Mask

-- A call returns, fails one of its assertions, or ends the system.
pub data Outcome : Type 0 where
  running : Machine → Outcome
  aborted terminated : Outcome

abbrev pub and_then : Outcome → (Machine → Outcome) → Outcome
and_then (running m) f = f m
and_then aborted f = aborted
and_then terminated f = terminated

pub data OnOff : Type 0 where
  on off : OnOff

-- The signals that `atomic` blocks.
abbrev pub blockable : Signal → Bool
blockable sigalrm = true
blockable sigint = true
blockable sigusr1 = true
blockable sigusr2 = true
blockable _ = false

abbrev pub blocked : Mask → Mask
blocked mask s = mask s || blockable s

abbrev pub open_sections : Machine → ℕ
open_sections m = (m.pcbs m.current_process).atomic_count

abbrev pub set_count : ℕ → Machine → Machine
set_count n m = record m {
  pcbs = update m.pcbs m.current_process (record (m.pcbs m.current_process) { atomic_count = n });
}

-- The first entry blocks the signals and keeps the mask.
abbrev pub enter_section : ℕ → Machine → Machine
enter_section n m = if n == 1 then record m { mask = blocked m.mask; oldmask = m.mask } else m

-- The last exit sets the mask back.
abbrev pub leave_section : ℕ → Machine → Machine
leave_section n m = if n == 0 then record m { mask = m.oldmask } else m

abbrev pub decrement : ℕ → Machine → Outcome
decrement zero m = aborted
decrement (suc n) m = running (leave_section n (set_count n m))

unfoldable pub atomic : OnOff → Machine → Outcome
atomic on m = running (enter_section (suc (open_sections m)) (set_count (suc (open_sections m)) m))
atomic off m = decrement (open_sections m) m

abbrev pub set_status : Ptr → ProcessState → (Ptr → Pcb) → Ptr → Pcb
set_status p status pcbs = update pcbs p (record (pcbs p) { status = status })

unfoldable pub k_i_process_exit : Machine → Outcome
k_i_process_exit m =
    if not (m.flag == 1)
    then aborted
    else if m.interrupted_process == null
    then aborted
    else running (record m {
      flag = 0;
      current_process = m.interrupted_process;
      interrupted_process = null;
      pcbs =
          set_status m.interrupted_process p_executing
            (set_status m.current_process p_ready m.pcbs);
    })

-- The i-process has the processor.
abbrev pub i_process_entered : (i_process : Ptr) → Machine → Machine
i_process_entered i_process m = record m {
  flag = 1;
  interrupted_process = m.current_process;
  current_process = i_process;
  pcbs = set_status i_process p_executing (set_status m.current_process p_interrupted m.pcbs);
}

-- The context switch continues the i-process, whose code is `code`, up to its `k_i_process_exit`,
-- which switches back.
unfoldable pub k_i_process_enter :
    (code : (Ptr → Pcb) → Ptr → Pcb) → (i_process : Ptr) → Machine → Outcome
k_i_process_enter code i_process m =
    let m₁ = i_process_entered i_process m in
    if not (m.flag == 0)
    then aborted
    else if i_process == null
    then aborted
    else if not (m.pcbs i_process).is_i_process
    then aborted
    else if m.current_process == null
    then aborted
    else k_i_process_exit (record m₁ { pcbs = code m₁.pcbs })

-- The i-process that a signal starts; every other signal ends the system.
abbrev pub i_process_pid : Signal → Option ℕ
i_process_pid sigalrm = some 2
i_process_pid sigusr1 = some 0
i_process_pid sigusr2 = some 1
i_process_pid _ = none

-- The processes by their pid: where the table has them, and their code.
unfoldable pub handle_signal :
    (p_table : ℕ → Ptr) → (code : ℕ → (Ptr → Pcb) → Ptr → Pcb) → Signal → Machine → Outcome
handle_signal p_table code sig_num m = and_then (atomic on m) (λ m₁.
    and_then
      (elim (i_process_pid sig_num) [
        | none ↦ terminated
        | some pid ↦ k_i_process_enter (code pid) (p_table pid) m₁
      ])
      (atomic off))
