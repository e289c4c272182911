-- ===== src/ProcQueue.antt =====
-- coldfire/kern/src/proc_queue.c: FIFO queues of processes, linked through the field `next` of the
-- process control blocks. The parameter `queue` is the address of a `struct proc_queue`.
-- The walk of `proc_queue_remove` takes fuel, and `none` means that it ran out.
pub mod Refines
pub mod Remove
pub mod Tail
use rtx.Base.{ℕ, zero, suc, Bool, true, false, ◌||◌, not, ◌==◌, if◌then◌else◌, Option, none, some}
use rtx.Base.Int.{ℤ, pos, negsuc}
use rtx.Rtx.{code_success, error_null_arg}
use rtx.Links.{Ptr, null, Queues, set_next, set_head, set_tail, truthy}

-- `queue` is the address that `k_malloc` returned.
unfoldable pub create : Ptr → Queues → Ptr × Queues
create queue s =
    if not (queue == null) then (queue, set_head queue null (set_tail queue null s)) else (queue, s)

unfoldable pub is_empty : Ptr → Queues → ℤ
is_empty queue s = if queue == null then negsuc 0 else if s.head queue == null then pos 1 else pos 0

unfoldable pub dequeue : Ptr → Queues → Ptr × Queues
unfolding is_empty
dequeue queue s =
    if (queue == null) || truthy (is_empty queue s)
    then (null, s)
    else let pcb = s.head queue in
      let s₁ =
        if s.head queue == null
        then set_tail queue null s
        else set_head queue (s.next (s.head queue)) s in
      (pcb, set_next pcb null s₁)

unfoldable pub enqueue : Ptr → Ptr → Queues → ℤ × Queues
unfolding is_empty
enqueue queue pcb s =
    if (queue == null) || (pcb == null)
    then (error_null_arg, s)
    else let s₁ =
        if truthy (is_empty queue s) then set_head queue pcb s else set_next (s.tail queue) pcb s in
      let s₂ = set_tail queue pcb s₁ in (code_success, set_next (s₂.tail queue) null s₂)

-- `while (curr_node) { … }`
unfoldable pub remove_loop : ℕ → (prev_node curr_node pcb : Ptr) → Queues → Option (Ptr × Queues)
remove_loop zero prev_node curr_node pcb s = none
remove_loop (suc fuel) prev_node curr_node pcb s =
    let rest = remove_loop fuel curr_node (s.next curr_node) pcb s in
    if curr_node == null
    then some (null, s)
    else if curr_node == pcb
    then some (curr_node, set_next curr_node null (set_next prev_node (s.next curr_node) s))
    else rest

unfoldable pub remove : ℕ → Ptr → Ptr → Queues → Option (Ptr × Queues)
unfolding is_empty dequeue remove_loop
remove fuel queue pcb s =
    if (queue == null) || ((pcb == null) || truthy (is_empty queue s))
    then some (null, s)
    else if s.head queue == pcb
    then some (dequeue queue s)
    else remove_loop fuel (s.head queue) (s.next (s.head queue)) pcb s
