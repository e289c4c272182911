-- ===== src/Kernel/Boot/Begin.antt =====
-- `k_init` from one end to the other.
use rtx.Base.{
  ℕ, ◌+◌, ◌*◌, ◌<◌, ◌≤◌, ◌≡◌, ◌≢◌, refl, ap, sym, subst, ◌∙◌, Bool, true, false, List, length,
  arith, if◌then◌else◌,
}
use rtx.Links.{Ptr, null}
use rtx.Links.Contents.{Holds}
use rtx.Mem.{Mem, memory_end, init_mem, k_malloc}
use rtx.Message.{Body}
use rtx.ProcPq
use rtx.ProcPq.{ProcPq}
use rtx.ProcPq.Refines.{queue}
use rtx.Kernel.{Kernel}
use rtx.Kernel.Uart.{Uart}
use rtx.Kernel.Sched.{Sched, IsSched}
use rtx.Kernel.Live.{view, Live}
use rtx.Kernel.Boot.{
  PcbInit, Start, init_ipc, init_uart, init_timer, create_pqs, or_else, init_processes, init_loop,
  start_first, k_init,
}
use rtx.Kernel.Boot.Memory.{past, empty, k_malloc-fits, create-Fresh, Fresh-IsPq}
use rtx.Kernel.Boot.Ipc.{ipc_size, init_ipc-Took}
use rtx.Kernel.Boot.Processes.{Rows, Loaded, init_loop-Loaded}
use rtx.Kernel.Boot.First.{start_first-Live}

-- The bytes of the two priority queues.
abbrev pub pqs_size : ℕ
pqs_size = 56 + 44

-- Before the processes: the priority queues are there, and empty.
record Made (m : Mem) (r : Mem × Kernel) (s : Kernel) : Type 0 where
  mem : r.0 ≡ past pqs_size m
  sched : Sched r.1 empty
  num_ready : r.1.ready_pq.num_priorities ≡ 4
  num_blocked : r.1.blocked_request_env_pq.num_priorities ≡ 3
  interrupted : r.1.interrupted_process ≡ s.interrupted_process

create_pqs_lem :
    (m : Mem) (s : Kernel)
    → m.origin ≢ 0
    → m.origin + pqs_size ≤ memory_end
    → Holds s.procs empty
    → Made m (create_pqs m s) s
unfolding create_pqs
create_pqs_lem m s ne fits h =
    let f = create-Fresh 4 m s.procs (omega arith) h (omega arith) in
    let (ready, m₁, procs₁) = ProcPq.create 4 m s.procs in
    let at₁ : m₁.origin ≡ m.origin + 56 = ap (λ k. k.origin) f.mem in
    let g = create-Fresh 3 m₁ procs₁ (omega arith) f.held (omega (arith, at₁)) in
    let is_ready : (create_pqs m s).1.ready_pq ≡ f.ppq = ap (λ p. or_else p s.ready_pq) f.made in
    let is_blocked : (create_pqs m s).1.blocked_request_env_pq ≡ g.ppq =
      ap (λ p. or_else p s.blocked_request_env_pq) g.made in
    let far : (i j : ℕ)
        → i < f.ppq.num_priorities
        → j < g.ppq.num_priorities
        → queue f.ppq i ≢ queue g.ppq j =
      λ i j below below' e. omega (
        arith,
        at₁,
        f.num,
        g.num,
        f.queues i (omega (arith, f.num)),
        g.queues j (omega (arith, g.num)),
      ) in
    let made : IsSched (create_pqs m s).1.procs s.pcbs f.ppq g.ppq empty = record {
      holds = g.held;
      ready = Fresh-IsPq ne f;
      blocked = Fresh-IsPq (λ e. omega (arith, at₁)) g;
      apart = far;
      waits = λ q p i. absurd (ground arith);
    } in
    record {
      mem = g.mem ∙ (ap (past 44) f.mem ∙ ap (λ o. record m { origin = o }) (omega arith));
      sched =
          subst (λ b. IsSched (create_pqs m s).1.procs s.pcbs (create_pqs m s).1.ready_pq b empty)
            (sym is_blocked)
            (subst (λ r. IsSched (create_pqs m s).1.procs s.pcbs r g.ppq empty) (sym is_ready)
              made);
      num_ready = ap (λ p. p.num_priorities) is_ready ∙ f.num;
      num_blocked = ap (λ p. p.num_priorities) is_blocked ∙ g.num;
      interrupted = refl;
    }

-- The table takes the memory that is next.
init_processes-Loaded :
    (z : ℕ) (rows : List PcbInit) (t : Start)
    → Sched t.kernel empty
    → t.kernel.ready_pq.num_priorities ≡ 4
    → t.kernel.blocked_request_env_pq.num_priorities ≡ 3
    → t.kernel.interrupted_process ≡ null
    → t.mem.origin ≢ 0
    → z < length rows
    → Rows z 0 rows
    → t.mem.origin + 52 * length rows ≤ memory_end
    → Loaded t.mem.origin (length rows) z (length rows) (init_processes rows t).kernel
unfolding init_processes
init_processes-Loaded z rows t sched r4 b3 free ne last ok fits =
    let n = length rows in
    let table = (k_malloc (52 * n) t.mem).0 in
    let m₁ = (k_malloc (52 * n) t.mem).1 in
    let at : table ≡ t.mem.origin =
      ap (λ r. r.0) (k_malloc-fits (52 * n) t.mem (omega arith) (omega arith) fits) in
    let t₀ : Start = record t {
      mem = (k_malloc (4 * n) m₁).1;
      kernel = record t.kernel { p_table = table; num_processes = n };
    } in
    let first : Loaded table n z 0 t₀.kernel = record {
      p_table = refl;
      num_processes = refl;
      interrupted = free;
      queues = empty;
      sched = sched;
      num_ready = r4;
      num_blocked = b3;
      members = λ q p i. absurd (ground arith);
      ranked = λ p k. absurd (omega (arith, k.within));
      idle = λ below. absurd (omega arith);
    } in
    let all = init_loop-Loaded table n z 0 rows t₀ (omega (arith, at)) first ok in
    let here : table + 0 * 52 ≡ table = omega arith in
    let count : 0 + n ≡ n = omega arith in
    subst (λ a. Loaded a n z n (init_loop 0 table rows t₀).kernel) at
      (subst (λ k. Loaded table n z k (init_loop 0 table rows t₀).kernel) count
        (subst (λ a. Loaded table n z (0 + n) (init_loop 0 a rows t₀).kernel) here all))

-- The devices leave the processes alone.
devices-view :
    (enable_uart enable_timer : Bool) (u : Uart) (s : Kernel)
    → let s₁ = (if enable_uart then init_uart u s else (u, s)).1 in
      view (if enable_timer then init_timer s₁ else s₁) ≡ view s
unfolding init_uart init_timer
devices-view true true u s = refl
devices-view true false u s = refl
devices-view false true u s = refl
devices-view false false u s = refl

-- The address of the table of processes.
abbrev pub table_at : (heap_start : ℕ) → Ptr
table_at heap_start = heap_start + (ipc_size + pqs_size)

-- After `k_init`, where no process is queued or recorded as interrupted and the heap has room: the
-- scheduler's view holds, the process that was started executes, and it is the one of row `z`, which
-- alone may have the lowest priority, or that one is ready.
pub k_init-Live :
    (heap_start : ℕ) (memory : Ptr → Body) (rows : List PcbInit) (enable_uart enable_timer : Bool)
    (t : Start) (u : Uart) (z : ℕ)
    → heap_start ≢ 0
    → table_at heap_start + 52 * length rows ≤ memory_end
    → Holds t.kernel.procs empty
    → t.kernel.interrupted_process ≡ null
    → z < length rows
    → Rows z 0 rows
    → Live
        (table_at heap_start + z * 52)
        (view (k_init heap_start memory rows enable_uart enable_timer t u).0.kernel)
unfolding k_init init_mem
k_init-Live heap_start memory rows enable_uart enable_timer t u z ne fits h free last ok =
    let m₀ : Mem = record t.mem { origin = heap_start } in
    let s₁ = (if enable_uart then init_uart u t.kernel else (u, t.kernel)).1 in
    let s₂ : Kernel = if enable_timer then init_timer s₁ else s₁ in
    let same : view s₂ ≡ view t.kernel = devices-view enable_uart enable_timer u t.kernel in
    let (mem₁, same₁) = init_ipc-Took memory m₀ s₂ (omega arith) in
    let (m₁, s₃) = init_ipc memory m₀ s₂ in
    let at₁ : m₁.origin ≡ heap_start + ipc_size = ap (λ k. k.origin) mem₁ in
    let h₃ : Holds s₃.procs empty = subst (λ v. Holds v.procs empty) (sym (same₁ ∙ same)) h in
    let made = create_pqs_lem m₁ s₃ (omega (arith, at₁)) (omega (arith, at₁)) h₃ in
    let (m₂, s₄) = create_pqs m₁ s₃ in
    let at₂ : m₂.origin ≡ table_at heap_start = ap (λ k. k.origin) made.mem ∙ omega (arith, at₁) in
    let t' : Start = record t { mem = m₂; kernel = s₄ } in
    let free' : s₄.interrupted_process ≡ null =
      made.interrupted ∙ (ap (λ v. v.interrupted_process) (same₁ ∙ same) ∙ free) in
    let loaded =
      init_processes-Loaded z rows t' made.sched made.num_ready made.num_blocked free'
        (omega (arith, at₂)) last ok (omega (arith, at₂)) in
    let live =
      start_first-Live m₂.origin (length rows) z (init_processes rows t').kernel loaded
        (omega (arith, at₂)) last in
    subst (λ a. Live (a + z * 52) (view (start_first (init_processes rows t').kernel))) at₂ live
