-- ===== src/Main.antt =====
-- coldfire/kern/src/main.c: the processes of the system, and the system from its start. The linker
-- gives the addresses of their code and of the heap.
use rtx.Base.{
  ℕ, ◌+◌, ◌*◌, ◌≤◌, ◌≡◌, ◌≢◌, ◌⊎◌, inl, inr, ◌<◌, refl, Bool, true, false, some, List, [], ◌∷◌,
  arith,
}
use Prim.Native.String.{String}
use rtx.Base.Int.{ℤ, pos}
use rtx.Rtx.{p_executing}
use rtx.Links.{Ptr, null}
use rtx.Links.Contents.{Holds}
use rtx.Mem.{memory_end}
use rtx.Message.{Body}
use rtx.ProcPq
use rtx.Kernel.{Kernel}
use rtx.Kernel.Primitives.{timer_i_process_pid, uart_i_process_pid, null_pid}
use rtx.Kernel.Uart.{Uart, cci_pid, pong_pid}
use rtx.Kernel.Live.{view, Live}
use rtx.Kernel.Live.Steps.{Reach, Reach-Live, Reach-next}
use rtx.Kernel.Boot.{PcbInit, Start, k_init}
use rtx.Kernel.Boot.Memory.{empty}
use rtx.Kernel.Boot.Processes.{Rows, IsRow}
use rtx.Kernel.Boot.Begin.{table_at, k_init-Live}
use rtx.User.Cci.{wallclock_pid}
use rtx.User.Abc.{proc_b_pid, proc_c_pid}

abbrev proc_a_pid : ℤ
proc_a_pid = pos 2

-- Where the code of the processes is.
pub record Code : Type 0 where
  pub timer_i_process : ℕ
  pub uart_i_process : ℕ
  pub start_cci : ℕ
  pub null_process : ℕ
  pub start_wallclock : ℕ
  pub process_A : ℕ
  pub process_B : ℕ
  pub process_C : ℕ
  pub update_board : ℕ

abbrev row : (pid : ℤ) → String → (level : ℕ) → (start : ℕ) → (is_i_process : Bool) → PcbInit
row pid name level start is_i_process = record {
  pid = pid;
  name = name;
  priority = pos level;
  start = start;
  stack_size = 4096;
  is_i_process = is_i_process;
}

unfoldable pub itable : Code → List PcbInit
itable code =
    row timer_i_process_pid "timer_i_process" 0 code.timer_i_process true
    ∷ row uart_i_process_pid "uart_i_process" 0 code.uart_i_process true
    ∷ row cci_pid "cci" 0 code.start_cci false
    ∷ row null_pid "null" 3 code.null_process false
    ∷ row wallclock_pid "wallclock" 1 code.start_wallclock false
    ∷ row proc_a_pid "process a" 2 code.process_A false
    ∷ row proc_b_pid "process b" 1 code.process_B false
    ∷ row proc_c_pid "process c" 0 code.process_C false
    ∷ row pong_pid "PONG" 0 code.update_board false
    ∷ []

-- `main`, up to the switch to the first process.
unfoldable pub main : (heap_start : ℕ) (memory : Ptr → Body) → Code → Start → Uart → Start × Uart
main heap_start memory code t u = k_init heap_start memory (itable code) true true t u

-- The null process of the table, which is its row 3.
abbrev pub null_process_at : (heap_start : ℕ) → Ptr
null_process_at heap_start = table_at heap_start + 3 * 52

-- A row of another process.
plain : (i level : ℕ) (row : PcbInit) → row.priority ≡ pos level → level < 3 → i ≢ 3 → IsRow 3 i row
plain i level row at below other = record {
  level = level;
  at = at;
  below = omega arith;
  low = λ d. below;
  process = λ e. absurd (other e);
}

itable-Rows : (code : Code) → Rows 3 0 (itable code)
unfolding itable
itable-Rows code =
    let null_row : IsRow 3 3 (row null_pid "null" 3 code.null_process false) = record {
      level = 3;
      at = refl;
      below = omega arith;
      low = λ d. absurd (d refl);
      process = λ e. refl;
    } in
    (
      plain 0 0 _ refl (omega arith) (omega arith),
      (
        plain 1 0 _ refl (omega arith) (omega arith),
        (
          plain 2 0 _ refl (omega arith) (omega arith),
          (
            null_row,
            (
              plain 4 1 _ refl (omega arith) (omega arith),
              (
                plain 5 2 _ refl (omega arith) (omega arith),
                (
                  plain 6 1 _ refl (omega arith) (omega arith),
                  (
                    plain 7 0 _ refl (omega arith) (omega arith),
                    (plain 8 0 _ refl (omega arith) (omega arith), tt),
                  ),
                ),
              ),
            ),
          ),
        ),
      ),
    )

module _ (heap_start : ℕ) (memory : Ptr → Body) (code : Code) (t : Start) (u : Uart)
    (ne : heap_start ≢ 0) (fits : table_at heap_start + 9 * 52 ≤ memory_end)
    (none_queued : Holds t.kernel.procs empty) (free : t.kernel.interrupted_process ≡ null) where
  abbrev z : Ptr
  z = null_process_at heap_start

  start-Live : Live z (view (main heap_start memory code t u).0.kernel)
  unfolding main itable
  start-Live =
      k_init-Live heap_start memory (itable code) true true t u 3 ne fits none_queued free
        (omega arith) (itable-Rows code)

  -- From the end of `main`, started with no process queued, none recorded as interrupted, the
  -- heap not at 0 and room in it for the table of processes, and then after any sequence of the
  -- five primitives, interrupts and their ends, in which the null process neither receives nor
  -- requests, no i-process gives up the processor, an interrupt comes only while none is handled
  -- and runs an i-process, and whatever else happens leaves the processes and their queues as
  -- they are: every queue of processes is well formed, and each process in it is of the table and
  -- has the state and the priority that the queue stands for; each process of the table has a
  -- priority with a ready queue and, but for the null process, a queue to wait for an envelope; a
  -- process of the table executes, and has the processor or was interrupted by an i-process that
  -- has it; and it is the null process, or that stands in a ready queue.
  pub main-Live :
      (s : Kernel) → Reach z (main heap_start memory code t u).0.kernel s → Live z (view s)
  main-Live s r = Reach-Live start-Live r

  -- From the end of `main`, started with no process queued, none recorded as interrupted, the
  -- heap not at 0 and room in it for the table of processes, and then after any sequence of the
  -- five primitives, interrupts and their ends, in which the null process neither receives nor
  -- requests, no i-process gives up the processor, an interrupt comes only while none is handled
  -- and runs an i-process, and whatever else happens leaves the processes and their queues as
  -- they are: some process is in the state of a process that executes; it has the processor, or
  -- it is recorded as interrupted; and it is the null process, or `proc_pq_dequeue` of the ready
  -- queues returns a process, so that a switch never goes to NULL.
  pub main-next :
      (s : Kernel)
      → Reach z (main heap_start memory code t u).0.kernel s
      → (who : Ptr) × ((s.pcbs who).state ≡ p_executing)
        × (((s.interrupted_process ≡ null) × (s.current_process ≡ who))
            ⊎ (s.interrupted_process ≡ who))
        × ((who ≡ z) ⊎ ((ProcPq.dequeue (some s.ready_pq) s.procs).0 ≢ null))
  main-next s r =
      let l = Reach-Live start-Live r in
      (
        l.who,
        l.executing,
        elim l.turn [ inl h ↦ inl h | inr h ↦ inr (h.0) ],
        Reach-next start-Live r,
      )
