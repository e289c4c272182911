-- ===== src/MsgEnvQueue.antt =====
-- coldfire/kern/src/msg_env_queue.c: FIFO queues of message envelopes, linked through the field
-- `next` of the envelopes. The parameter `queue` is the address of a `struct msg_env_queue`.
-- The walks of `msg_env_queue_size` and `msg_env_queue_has` take fuel; `none` means that it ran out.
pub mod Refines
pub mod Walks
use rtx.Base.{
  ℕ, zero, suc, ◌+◌, Bool, true, false, ◌||◌, not, ◌==◌, if◌then◌else◌, Option, none, some,
}
use rtx.Base.Int.{ℤ, pos, negsuc}
use rtx.Rtx.{code_success, error_null_arg}
use rtx.Links.{Ptr, null, Queues, set_next, set_head, set_tail}

-- `queue` is the address that `k_malloc` returned.
unfoldable pub create : Ptr → Queues → Ptr × Queues
create queue s =
    if not (queue == null) then (queue, set_tail queue null (set_head queue null s)) else (queue, s)

unfoldable pub is_empty : Ptr → Queues → ℤ
is_empty queue s =
    if not (queue == null) then (if s.head queue == null then pos 1 else pos 0) else negsuc 0

unfoldable pub dequeue : Ptr → Queues → Ptr × Queues
dequeue queue s =
    if queue == null
    then (null, s)
    else let return_env = s.head queue in
      let s₁ = if s.head queue == s.tail queue then set_tail queue null s else s in
      let s₂ =
        if not (s₁.head queue == null)
        then set_next return_env null (set_head queue (s₁.next (s₁.head queue)) s₁)
        else s₁ in
      (return_env, s₂)

unfoldable pub enqueue : Ptr → Ptr → Queues → ℤ × Queues
enqueue queue env s =
    if (queue == null) || (env == null)
    then (error_null_arg, s)
    else let s₁ =
        if s.head queue == null then set_head queue env s else set_next (s.tail queue) env s in
      let s₂ = set_tail queue env s₁ in (code_success, set_next (s₂.tail queue) null s₂)

-- `while (env != NULL) { env = env->next; size++; }`
unfoldable pub size_loop : ℕ → (env : Ptr) (size : ℕ) → Queues → Option ℕ
size_loop zero env size s = none
size_loop (suc fuel) env size s =
    let rest = size_loop fuel (s.next env) (size + 1) s in
    if not (env == null) then rest else some size

unfoldable pub size : ℕ → Ptr → Queues → Option ℤ
unfolding size_loop
size fuel queue s =
    if queue == null
    then some (negsuc 0)
    else elim (size_loop fuel (s.head queue) 0 s) [ none ↦ none | some n ↦ some (pos n) ]

unfoldable pub has_loop : ℕ → (env target : Ptr) → Queues → Option Bool
has_loop zero env target s = none
has_loop (suc fuel) env target s =
    let rest = has_loop fuel (s.next env) target s in
    if not (env == null) then if env == target then some true else rest else some false

unfoldable pub has : ℕ → Ptr → Ptr → Queues → Option Bool
unfolding has_loop
has fuel queue target s =
    if queue == null then some false else has_loop fuel (s.head queue) target s
