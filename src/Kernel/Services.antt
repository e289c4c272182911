-- ===== src/Kernel/Services.antt =====
-- coldfire/kern/src/k_primitives.c: process status, priorities, delays, console output and traces.
pub mod Status
pub mod Priority
use rtx.Base.{ℕ, zero, suc, ◌+◌, ◌*◌, Bool, ◌||◌, not, ◌==◌, if◌then◌else◌, Option, none, some}
use rtx.Base.Int.{ℤ, eqb_ℤ, is_negative}
use rtx.Rtx.{
  code_success, error_null_arg, error_illegal_arg, console_output, console_output_request_ack,
  ProcessState, p_ready, p_executing, p_blocked_on_env_request, p_blocked_on_receive, p_interrupted,
}
use rtx.Links.{Ptr, null}
use rtx.Process.{Pcb}
use rtx.Message.{Body, on_body, set_word, to_word}
use rtx.Trace.{TraceCircleBuf, IpcTrace, circle_index, find_trace_buf_head}
use rtx.ProcPq
use rtx.ProcPq.{in_range, ProcPq}
use rtx.Kernel.{Kernel, set_pcb, set_env}
use rtx.Kernel.Table.{k_get_process}
use rtx.Kernel.Primitives.{
  no_envelope, k_send_message, timer_i_process_pid, uart_i_process_pid, null_pid, num_priorities,
}

-- The values of `enum process_state`.
abbrev pub state_code : ProcessState → ℕ
state_code p_ready = 0
state_code p_executing = 1
state_code p_blocked_on_env_request = 2
state_code p_blocked_on_receive = 3
state_code p_interrupted = 4

-- `*data++ = process->pid; *data++ = process->state; *data++ = process->priority;`
abbrev pub write_status : (i : ℕ) → Pcb → Body → Body
write_status i p b =
    set_word (3 * i + 3) (to_word p.priority)
      (set_word (3 * i + 2) (state_code p.state) (set_word (3 * i + 1) (to_word p.pid) b))

-- `for (pid = 0; pid < k_get_num_processes(); pid++)`, with `left` rounds to go.
unfoldable pub status_loop : (left i : ℕ) → Kernel → Body → Body
status_loop zero i s b = b
status_loop (suc left) i s b =
    status_loop left (i + 1) s (write_status i (s.pcbs (k_get_process (s.pid_table i) s)) b)

unfoldable pub k_request_process_status : Ptr → Kernel → ℤ × Kernel
k_request_process_status msg_env s = if no_envelope msg_env s then (error_null_arg, s) else (
  code_success,
  set_env msg_env (on_body λ b. status_loop s.num_processes 0 s (set_word 0 s.num_processes b)) s,
)

-- `proc_pq_remove(q, pcb); pcb->priority = new_priority; proc_pq_enqueue(q, pcb);`
unfoldable pub requeue : (fuel : ℕ) → ProcPq → Ptr → (new_priority : ℤ) → Kernel → Option Kernel
requeue fuel q pcb new_priority s = elim (ProcPq.remove fuel (some q) pcb s.pcbs s.procs) [
  | none ↦ none
  | some (_, procs) ↦
      let s₁ =
        set_pcb pcb (λ p. record p { priority = new_priority }) (record s { procs = procs }) in
      some (record s₁ { procs = (ProcPq.enqueue (some q) pcb s₁.pcbs s₁.procs).1 })
]

abbrev pub with_code : ℤ → Option Kernel → Option (ℤ × Kernel)
with_code code none = none
with_code code (some s) = some (code, s)

-- `fuel` is for the walk of `proc_queue_remove`.
unfoldable pub k_change_priority :
    (fuel : ℕ) → (new_priority target_process_id : ℤ) → Kernel → Option (ℤ × Kernel)
unfolding requeue
k_change_priority fuel new_priority target_process_id s =
    if not (in_range new_priority num_priorities)
    then some (error_illegal_arg, s)
    else let pcb = k_get_process target_process_id s in
      let p = s.pcbs pcb in
      if p.is_i_process || (is_negative p.pid || eqb_ℤ p.pid null_pid)
      then some (error_illegal_arg, s)
      else if eqb_ℤ p.priority new_priority
      then some (code_success, s)
      else with_code code_success (elim p.state [
        | p_ready ↦ requeue fuel s.ready_pq pcb new_priority s
        | p_blocked_on_env_request ↦ requeue fuel s.blocked_request_env_pq pcb new_priority s
        | _ ↦ some (set_pcb pcb (λ p. record p { priority = new_priority }) s)
      ])

unfoldable pub k_request_delay : (time_delay wakeup_code : ℤ) → Ptr → Kernel → ℤ × Kernel
k_request_delay time_delay wakeup_code msg_env s =
    let s₁ = set_env msg_env (λ e. record e { msg_type = wakeup_code }) s in
    let s₂ = set_env msg_env (on_body (set_word 0 (to_word time_delay))) s₁ in
    k_send_message timer_i_process_pid msg_env s₂

unfoldable pub k_send_console_chars : Ptr → (request_ack : Bool) → Kernel → ℤ × Kernel
k_send_console_chars msg_env request_ack s =
    if msg_env == null
    then (error_null_arg, s)
    else let kind = if request_ack then console_output_request_ack else console_output in
      let s₁ = set_env msg_env (λ e. record e { msg_type = kind }) s in
      let (ret, s₂) = k_send_message uart_i_process_pid msg_env s₁ in
      (ret, record s₂ { serial1_imr = 3 })

-- One `ipc_trace_t` at index `i` of an array that starts at word `base`.
abbrev pub write_trace : (base i : ℕ) → IpcTrace → Body → Body
write_trace base i t b = set_word (base + 4 * i + 3) t.time_stamp (
    set_word (base + 4 * i + 2) (to_word t.msg_type) (
      set_word (base + 4 * i + 1) (to_word t.send_pid)
        (set_word (base + 4 * i) (to_word t.dest_pid) b)))

-- `for (i = 0; i < IPC_MESSAGE_TRACE_HISTORY_SIZE; i++)`, with `left` rounds to go. The array of
-- received messages starts sixteen entries, 64 words, behind that of sent ones.
unfoldable pub dump_loop :
    (left i send_head recv_head : ℕ) (send recv : TraceCircleBuf) → Body → Body
dump_loop zero i send_head recv_head send recv b = b
dump_loop (suc left) i send_head recv_head send recv b =
    dump_loop left (i + 1) send_head recv_head send recv (
      write_trace 64 i (recv.buf (circle_index (recv_head + i)))
        (write_trace 0 i (send.buf (circle_index (send_head + i))) b))

-- `fuel` is for the walks of `find_trace_buf_head`.
unfoldable pub k_get_trace_buffers : (fuel : ℕ) → Ptr → Kernel → Option (ℤ × Kernel)
k_get_trace_buffers fuel msg_env s =
    if no_envelope msg_env s
    then some (error_null_arg, s)
    else elim (find_trace_buf_head fuel s.send_trace_buf) [
      | none ↦ none
      | some send_head ↦ elim (find_trace_buf_head fuel s.recv_trace_buf) [
        | none ↦ none
        | some recv_head ↦ some (
          code_success,
          set_env msg_env
              (on_body (dump_loop 16 0 send_head recv_head s.send_trace_buf s.recv_trace_buf)) s,
        )
      ]
    ]
