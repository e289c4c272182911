-- ===== src/Kernel/Primitives.antt =====
-- coldfire/kern/src/k_primitives.c: the primitives that the trap handler calls. A primitive that
-- can give up the processor returns a `Reply`.
use rtx.Base.{ℕ, ◌+◌, ◌*◌, ◌-◌, ◌%◌, Bool, ◌||◌, ◌&&◌, not, ◌==◌, ltb, leb, if◌then◌else◌, some}
use rtx.Base.Int.{ℤ, pos, negsuc, incr, decr}
use rtx.Rtx.{
  code_success, error_null_arg, error_illegal_arg, ProcessState, p_ready, p_blocked_on_env_request,
  p_blocked_on_receive,
}
use rtx.Links.{Ptr, null, truthy}
use rtx.Process.{Pcb}
use rtx.Message.{has_msg}
use rtx.Trace.{log_msg_event}
use rtx.MsgEnvQueue
use rtx.ProcPq
use rtx.Kernel.{Kernel, current, set_pcb, set_env, with_state, Reply, now, later, again}
use rtx.Kernel.Table.{k_get_process}
use rtx.Kernel.Switch.{k_process_switch}

abbrev pub timer_i_process_pid : ℤ
timer_i_process_pid = negsuc 2

abbrev pub uart_i_process_pid : ℤ
uart_i_process_pid = negsuc 1

abbrev pub null_pid : ℤ
null_pid = pos 0

abbrev pub num_priorities : ℕ
num_priorities = 3

abbrev pub owns_more : Pcb → Pcb
owns_more p = record p { env_owned = incr p.env_owned }

abbrev pub owns_less : Pcb → Pcb
owns_less p = record p { env_owned = decr p.env_owned }

-- `msg_env == NULL || msg_env->msg == NULL`
abbrev pub no_envelope : Ptr → Kernel → Bool
no_envelope e s = (e == null) || not (has_msg (s.envs e))

-- `pcb->state = P_READY; proc_pq_enqueue(ready_pq, pcb);`
unfoldable pub make_ready : Ptr → Kernel → Kernel
make_ready p s =
    let s₁ = set_pcb p (with_state p_ready) s in
    record s₁ { procs = (ProcPq.enqueue (some s₁.ready_pq) p s₁.pcbs s₁.procs).1 }

-- `if (dest_pcb->state == P_BLOCKED_ON_RECEIVE) { … }`
unfoldable pub wake_if_blocked : ProcessState → Ptr → Kernel → Kernel
wake_if_blocked p_blocked_on_receive dest s = make_ready dest s
wake_if_blocked _ dest s = s

unfoldable pub wake_receiver : Ptr → Kernel → Kernel
wake_receiver dest s = wake_if_blocked (s.pcbs dest).state dest s

unfoldable pub k_send_message : (dest_pid : ℤ) → Ptr → Kernel → ℤ × Kernel
k_send_message dest_pid msg_env s =
    if no_envelope msg_env s
    then (error_null_arg, s)
    else let dest = k_get_process dest_pid s in
      if dest == null
      then (error_illegal_arg, s)
      else let s₁ =
          set_env msg_env (λ e. record e { send_pid = (current s).pid; dest_pid = dest_pid }) s in
        let s₂ = record s₁ {
          mail = (MsgEnvQueue.enqueue (s₁.pcbs dest).recv_msgs msg_env s₁.mail).1;
        } in
        let s₃ = set_pcb dest owns_more s₂ in
        let s₄ = set_pcb s₃.current_process owns_less s₃ in
        let s₅ = wake_receiver dest s₄ in
        (
          code_success,
          record s₅ { send_trace_buf = log_msg_event s₅.send_trace_buf (s₅.envs msg_env) s₅.clock },
        )

unfoldable pub k_receive_message : Kernel → Reply Ptr × Kernel
k_receive_message s =
    if truthy (MsgEnvQueue.is_empty (current s).recv_msgs s.mail)
    then (if (current s).is_i_process
        then (now null, s)
        else (again, k_process_switch p_blocked_on_receive s))
    else let (msg_env, mail) = MsgEnvQueue.dequeue (current s).recv_msgs s.mail in
      (
        now msg_env,
        record s {
          mail = mail;
          recv_trace_buf = log_msg_event s.recv_trace_buf (s.envs msg_env) s.clock;
        },
      )

-- `current_process->env_owned++; return msg_env_queue_dequeue(q);`
unfoldable pub take_envelope : Ptr → Kernel → Reply Ptr × Kernel
take_envelope q s =
    let s₁ = set_pcb s.current_process owns_more s in
    let (msg_env, mail) = MsgEnvQueue.dequeue q s₁.mail in (now msg_env, record s₁ { mail = mail })

unfoldable pub k_request_msg_env : Kernel → Reply Ptr × Kernel
k_request_msg_env s =
    if truthy (MsgEnvQueue.is_empty s.free_env_q s.mail)
    then (if (current s).is_i_process && not (truthy (MsgEnvQueue.is_empty s.sys_free_env_q s.mail))
        then take_envelope s.sys_free_env_q s
        else if (current s).is_i_process
        then (now null, s)
        else let s₁ = record s {
          procs =
              (ProcPq.enqueue (some s.blocked_request_env_pq) s.current_process s.pcbs s.procs).1;
        } in
          (again, k_process_switch p_blocked_on_env_request s₁))
    else take_envelope s.free_env_q s

-- coldfire/kern/src/k_ipc.c: whether an envelope is one of the two that are kept for i-processes.
unfoldable pub k_is_msg_env_sys_env : Ptr → Kernel → Bool
k_is_msg_env_sys_env env s =
    leb s.sys_env_pool env
    && ltb env (s.sys_env_pool + 2 * 20)
    && ((env - s.sys_env_pool) % 20 == 0)

-- `if (blocked_process) { blocked_process->state = P_READY; proc_pq_enqueue(…); }`
unfoldable pub wake_requester : Kernel → Kernel
unfolding make_ready
wake_requester s =
    let (blocked, procs) = ProcPq.dequeue (some s.blocked_request_env_pq) s.procs in
    let s₁ = record s { procs = procs } in
    if not (blocked == null) then make_ready blocked s₁ else s₁

unfoldable pub k_release_msg_env : Ptr → Kernel → ℤ × Kernel
k_release_msg_env msg_env s =
    if no_envelope msg_env s
    then (error_null_arg, s)
    else let s₁ =
        if k_is_msg_env_sys_env msg_env s
        then record s { mail = (MsgEnvQueue.enqueue s.sys_free_env_q msg_env s.mail).1 }
        else wake_requester
            (record s { mail = (MsgEnvQueue.enqueue s.free_env_q msg_env s.mail).1 }) in
      (code_success, set_pcb s₁.current_process owns_less s₁)

unfoldable pub k_release_processor : Kernel → Reply ℤ × Kernel
k_release_processor s =
    let s₁ = record s {
      procs = (ProcPq.enqueue (some s.ready_pq) s.current_process s.pcbs s.procs).1;
    } in
    (later code_success, k_process_switch p_ready s₁)
