-- ===== src/Kernel/Boot.antt =====
-- coldfire/kern/src/k_init.c, with `init_ipc` of k_ipc.c and `init_processes` of k_process.c: how the
-- kernel starts. What memory holds before, and the address where the heap starts, are arguments. The
-- vectors and the registers that only configure a device are not modelled.
pub mod Pool
pub mod Memory
pub mod Ipc
pub mod Processes
pub mod First
pub mod Begin
use rtx.Base.{
  ℕ, zero, suc, ◌+◌, ◌-◌, ◌*◌, ◌==◌, not, if◌then◌else◌, Bool, true, false, Option, none, some,
  List, [], ◌∷◌, length,
}
use rtx.Base.Int.{ℤ, pos}
use rtx.Rtx.{p_ready, p_executing}
use rtx.Links.{Ptr, null, Queues, update, set_next}
use rtx.Mem.{Mem, init_mem, k_malloc}
use rtx.Process.{Pcb}
use rtx.Message.{Body, MsgEnv}
use rtx.Trace.{init_buf}
use rtx.MsgEnvQueue
use rtx.ProcPq
use rtx.Kernel.{Kernel, set_pcb, with_state}
use rtx.Kernel.Switch.{k_context_switch}
use rtx.Kernel.Uart.{Uart}
use Prim.Native.String.{String}

-- `msg_env_queue_create`, with the memory that it takes.
abbrev pub new_queue : Mem → Queues → Ptr × Mem × Queues
new_queue m mail =
    let (address, m') = k_malloc 8 m in
    let (queue, mail') = MsgEnvQueue.create address mail in (queue, m', mail')

-- `… .msg = k_malloc(IPC_MSG_ENV_MSG_SIZE); … .msg[0] = '\0';`, over what memory held.
abbrev pub empty_msg : (address : Ptr) (memory : Ptr → Body) → Option Body
empty_msg a memory = if a == null then none else some (update (memory a) 0 0)

-- The loop of `init_ipc` that fills a pool, with `left` envelopes to go, the first of them at `env`.
unfoldable pub fill_pool :
    (left : ℕ) (env queue : Ptr) (memory : Ptr → Body) → Mem → Kernel → Mem × Kernel
fill_pool zero env queue memory m s = (m, s)
fill_pool (suc left) env queue memory m s =
    let (a, m') = k_malloc 1024 m in
    let fresh = record (s.envs env) { msg_type = pos 0; msg = empty_msg a memory } in
    fill_pool left (env + 20) queue memory m' (record s {
      envs = update s.envs env fresh;
      mail = (MsgEnvQueue.enqueue queue env (set_next env null s.mail)).1;
    })

-- `init_ipc`: the queues, the pools of 32 and of 2 envelopes, and the rings of traces.
unfoldable pub init_ipc : (memory : Ptr → Body) → Mem → Kernel → Mem × Kernel
init_ipc memory m s =
    let (free, m₁, mail₁) = new_queue m s.mail in
    let (sys_free, m₂, mail₂) = new_queue m₁ mail₁ in
    let (pool, m₃) = k_malloc (20 * 32) m₂ in
    let (sys_pool, m₄) = k_malloc (20 * 2) m₃ in
    let s₁ = record s {
      mail = mail₂;
      free_env_q = free;
      sys_free_env_q = sys_free;
      env_pool = pool;
      sys_env_pool = sys_pool;
    } in
    let (m₅, s₂) = fill_pool 32 pool free memory m₄ s₁ in
    let (m₆, s₃) = fill_pool 2 sys_pool sys_free memory m₅ s₂ in
    let (send_buf, m₇) = k_malloc (16 * 16) m₆ in
    let (recv_buf, m₈) = k_malloc (16 * 16) m₇ in
    (
      m₈,
      record s₃ {
        send_trace_buf = init_buf s₃.send_trace_buf;
        recv_trace_buf = init_buf s₃.recv_trace_buf;
      },
    )

-- A row of the process table of the configuration. `is_sys_process` makes no difference and is left out.
pub record PcbInit : Type 0 where
  pub pid : ℤ
  pub name : String
  pub priority : ℤ
  pub start : ℕ
  pub stack_size : ℕ
  pub is_i_process : Bool

-- The words of the stacks.
abbrev pub Words : Type 0
Words = Ptr → ℕ

-- `*(--fake_stack_ptr) = 0;`, `left` times.
unfoldable pub push_zeros : (left : ℕ) (stack_ptr : Ptr) → Words → Ptr × Words
push_zeros zero p w = (p, w)
push_zeros (suc left) p w = push_zeros left (p - 4) (update w (p - 4) 0)

-- `init_fake_stack_frame`: the entry point, the status word, and 15 registers.
unfoldable pub init_fake_stack_frame : Pcb → Words → Pcb × Words
init_fake_stack_frame p w =
    let w₁ = update w p.stack_bottom p.start in
    let top = p.stack_bottom - 4 in
    let w₂ = update w₁ top (if p.is_i_process then 0x45672700 else 0x45672000) in
    let (stack_ptr, w₃) = push_zeros 15 top w₂ in (record p { stack_ptr = stack_ptr }, w₃)

-- `while (ptr < stack_boundary) { *ptr++ = 0; }`: the 16 bytes at the bottom, as words.
abbrev pub clear_bottom : (bottom : Ptr) → Words → Words
clear_bottom b w = update (update (update (update w b 0) (b + 4) 0) (b + 8) 0) (b + 12) 0

-- The state of the start: the memory that is left, the words of the stacks, and the kernel.
pub record Start : Type 0 where
  pub mem : Mem
  pub words : Words
  pub kernel : Kernel

-- One round of the loop of `init_processes`, for the process number `i` at `process`.
unfoldable pub init_process : (i : ℕ) (process : Ptr) → PcbInit → Start → Start
init_process i process init t =
    let s = t.kernel in
    let (recv_msgs, m₁, mail) = new_queue t.mem s.mail in
    let (stack_begin, m₂) = k_malloc init.stack_size m₁ in
    let bottom = stack_begin + init.stack_size - 16 in
    let pcb : Pcb = record {
      pid = init.pid;
      name = init.name;
      priority = init.priority;
      state = p_ready;
      stack_ptr = (s.pcbs process).stack_ptr;
      is_i_process = init.is_i_process;
      recv_msgs = recv_msgs;
      start = init.start;
      stack_begin = stack_begin;
      stack_bottom = bottom;
      first_time = true;
      env_owned = pos 0;
    } in
    let (pcb', words) = init_fake_stack_frame pcb (clear_bottom bottom t.words) in
    let procs = set_next process null s.procs in
    let pcbs = update s.pcbs process pcb' in
    record {
      mem = m₂;
      words = words;
      kernel = record s {
        pid_table = update s.pid_table i init.pid;
        pcbs = pcbs;
        procs =
            if init.is_i_process
            then procs
            else (ProcPq.enqueue (some s.ready_pq) process pcbs procs).1;
        mail = mail;
      };
    }

unfoldable pub init_loop : (i : ℕ) (process : Ptr) → List PcbInit → Start → Start
init_loop i process [] t = t
init_loop i process (init ∷ inits) t =
    init_loop (i + 1) (process + 52) inits (init_process i process init t)

unfoldable pub init_processes : List PcbInit → Start → Start
init_processes inits t =
    let n = length inits in
    let (p_table, m₁) = k_malloc (52 * n) t.mem in
    let (pid_table, m₂) = k_malloc (4 * n) m₁ in
    init_loop 0 p_table inits
      (record t { mem = m₂; kernel = record t.kernel { p_table = p_table; num_processes = n } })

-- What `init_uart` leaves in the globals, and the mask that it sets for interrupts.
unfoldable pub init_uart : Uart → Kernel → Uart × Kernel
init_uart u s = (
  record u { input_index = 0; output_index = 0; output_print_char = false },
  record s { serial1_imr = 2 },
)

-- The end of `init_timer`.
unfoldable pub init_timer : Kernel → Kernel
init_timer s = record s { timeout_queue = null }

-- `ready_pq = proc_pq_create(…)` and `blocked_request_env_pq = proc_pq_create(…)`
abbrev pub or_else : Option ProcPq.ProcPq → ProcPq.ProcPq → ProcPq.ProcPq
or_else none old = old
or_else (some ppq) old = ppq

unfoldable pub create_pqs : Mem → Kernel → Mem × Kernel
create_pqs m s =
    let (ready, m₁, procs₁) = ProcPq.create 4 m s.procs in
    let (blocked, m₂, procs₂) = ProcPq.create 3 m₁ procs₁ in
    (
      m₂,
      record s {
        procs = procs₂;
        ready_pq = or_else ready s.ready_pq;
        blocked_request_env_pq = or_else blocked s.blocked_request_env_pq;
      },
    )

-- `current_process = proc_pq_dequeue(ready_pq); …; k_context_switch(…);`
unfoldable pub start_first : Kernel → Kernel
start_first s =
    let (first, procs) = ProcPq.dequeue (some s.ready_pq) s.procs in
    k_context_switch
      (set_pcb first (with_state p_executing) (record s { procs = procs; current_process = first }))

-- `k_init`, up to the switch to the first process.
unfoldable pub k_init :
    (heap_start : ℕ) (memory : Ptr → Body)
    → List PcbInit
    → (enable_uart enable_timer : Bool) → Start
    → Uart
    → Start × Uart
k_init heap_start memory inits enable_uart enable_timer t u =
    let m₀ = init_mem heap_start t.mem in
    let (u₁, s₁) = if enable_uart then init_uart u t.kernel else (u, t.kernel) in
    let s₂ = if enable_timer then init_timer s₁ else s₁ in
    let (m₁, s₃) = init_ipc memory m₀ s₂ in
    let (m₂, s₄) = create_pqs m₁ s₃ in
    let t' = init_processes inits (record t { mem = m₂; kernel = s₄ }) in
    (record t' { kernel = start_first t'.kernel }, record u₁ { pong_mode = false })
