-- ===== src/Kernel/Timer.antt =====
-- coldfire/kern/src/timeout_queue.c, timer_i_process.c, k_clock.c and isr_handler.c: the envelopes
-- that wait for their time, linked by `next` from `timeout_queue`, the tick of the timer, and the
-- handler that runs an i-process. The first word of an envelope's body is a delay in ticks, which
-- is replaced by the time at which the envelope is due.
pub mod Place
pub mod Insert
pub mod Timed
pub mod Filing
pub mod Drain
pub mod Due
pub mod Tick
use rtx.Base.{ℕ, zero, suc, Bool, ◌==◌, ◌&&◌, not, if◌then◌else◌, Option, none, some}
use rtx.Base.Word.{add32, signed_lt, signed_le}
use rtx.Links.{Ptr, null, set_next}
use rtx.Message.{first_word, on_body, set_word}
use rtx.Kernel.{Kernel, set_env, now, Reply, current}
use rtx.Kernel.Table.{k_get_process}
use rtx.Kernel.Primitives.{
  k_send_message, k_receive_message, timer_i_process_pid, uart_i_process_pid,
}

-- `*((int *) node->msg)`
abbrev pub time_at : Kernel → Ptr → ℕ
time_at s node = first_word (s.envs node)

unfoldable pub k_clock_incr_system_time : Kernel → Kernel
k_clock_incr_system_time s = record s { clock = add32 s.clock 1 }

-- `k_clock_get_system_time() + *((int *) new_msg_env->msg)`
abbrev pub deadline : Ptr → Kernel → ℕ
deadline e s = add32 s.clock (time_at s e)

-- The time at which it is due is written into the envelope.
abbrev pub armed : Ptr → Kernel → Kernel
armed e s = set_env e (on_body (set_word 0 (deadline e s))) s

-- `while (timeout_so_far < timeout && node != NULL) { … }`. The time of `node` is what
-- `timeout_so_far` holds.
unfoldable pub insert_loop : (fuel timeout : ℕ) (prev_node node : Ptr) → Kernel → Option (Ptr × Ptr)
insert_loop zero timeout prev_node node s = none
insert_loop (suc fuel) timeout prev_node node s =
    let rest = insert_loop fuel timeout node (s.mail.next node) s in
    if signed_lt (time_at s node) timeout && not (node == null)
    then rest
    else some (prev_node, node)

-- `prev_node->next = new_msg_env; new_msg_env->next = node;`
abbrev pub link_between : Ptr → Option (Ptr × Ptr) → Kernel → Option Kernel
link_between e none s = none
link_between e (some (prev_node, node)) s =
    some (record s { mail = set_next e node (set_next prev_node e s.mail) })

-- `fuel` is for the walk along the queue.
unfoldable pub timeout_queue_insert : (fuel : ℕ) → Ptr → Kernel → Option Kernel
timeout_queue_insert fuel e s =
    let timeout = deadline e s in
    let s₁ = armed e s in
    let head = s₁.timeout_queue in
    if head == null
    then some (record s₁ { timeout_queue = e })
    else if signed_le timeout (time_at s₁ head)
    then some (record s₁ { mail = set_next e head s₁.mail; timeout_queue = e })
    else let node = s₁.mail.next head in
      link_between e
        (if node == null then some (head, node) else insert_loop fuel timeout head node s₁) s₁

unfoldable pub check_timeout_queue : Kernel → Ptr × Kernel
check_timeout_queue s =
    if not (s.timeout_queue == null) && signed_le (time_at s s.timeout_queue) s.clock
    then (s.timeout_queue, record s { timeout_queue = s.mail.next s.timeout_queue })
    else (null, s)

-- `msg_env = k_receive_message(); while (msg_env != NULL) { … }`, with fuel for its rounds. The
-- timer process is an i-process, so `k_receive_message` comes back at once; `none` stands for any
-- other reply too.
unfoldable pub drain_loop : (fuel : ℕ) → Kernel → Option Kernel
drain_loop zero s = none
drain_loop (suc fuel) s =
    let (reply, s₁) = k_receive_message s in
    elim reply [
      | now msg_env ↦
          if msg_env == null then some s₁ else elim (timeout_queue_insert fuel msg_env s₁) [
            | none ↦ none
            | some s₂ ↦ drain_loop fuel s₂
          ]
      | _ ↦ none
    ]

-- `if (msg_env != NULL) k_send_message(msg_env->send_pid, msg_env);`
unfoldable pub send_back : Ptr → Kernel → Kernel
send_back e s = if not (e == null) then (k_send_message (s.envs e).send_pid e s).1 else s

unfoldable pub deliver_due : Kernel → Kernel
deliver_due s = let (msg_env, s₁) = check_timeout_queue s in send_back msg_env s₁

-- The device is told that its interrupt is being handled, which changes nothing here.
unfoldable pub timer_i_process : (fuel : ℕ) → Kernel → Option Kernel
timer_i_process fuel s = elim (drain_loop fuel (k_clock_incr_system_time s)) [
  | none ↦ none
  | some s₁ ↦ some (deliver_due s₁)
]

-- The process that an interrupt runs. Any other source runs none.
abbrev pub handler : (int_source : ℕ) → Kernel → Ptr
handler int_source s =
    if int_source == 1
    then k_get_process uart_i_process_pid s
    else if int_source == 2
    then k_get_process timer_i_process_pid s
    else null

-- `interrupted_process = current_process`, and the choice of the process to run.
abbrev pub entered : (int_source : ℕ) → Kernel → Kernel
entered int_source s = record s {
  interrupted_process = s.current_process;
  current_process = handler int_source s;
}

abbrev pub left : Option Kernel → Option Kernel
left none = none
left (some s) =
    some (record s { current_process = s.interrupted_process; interrupted_process = null })

-- `start` runs the code of the process that was chosen; it may fail to end.
unfoldable pub isr_handler :
    (start : Ptr → Kernel → Option Kernel) (int_source : ℕ) → Kernel → Option Kernel
isr_handler start int_source s =
    let s₁ = entered int_source s in
    left (if not (s₁.current_process == null) then start (s₁.current_process) s₁ else some s₁)
