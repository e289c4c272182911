-- ===== src/ProcPq.antt =====
-- coldfire/kern/src/proc_pq.c: one queue of processes for each priority; 0 is the most urgent.
-- A pointer to a `struct proc_pq` is `none` for NULL. Priorities are signed, as the port has them.
pub mod Refines
use rtx.Base.{
  ℕ, zero, suc, ◌+◌, ◌*◌, Bool, true, false, ◌||◌, ◌&&◌, not, ◌==◌, ltb, leb, if◌then◌else◌, Option,
  none, some,
}
use rtx.Base.Int.{ℤ, pos, negsuc, is_negative, abs}
use rtx.Rtx.{error_null_arg, error_illegal_arg}
use rtx.Links.{Ptr, null, Queues, update, truthy}
use rtx.Process.{Pcbs}
use rtx.Mem.{Mem, k_malloc}
use rtx.ProcQueue

pub record ProcPq : Type 0 where
  pub num_priorities : ℕ
  pub priority_queues : ℕ → Ptr

-- `for (i = 0; i < num_priorities; i++)`, with `left` rounds to go.
unfoldable pub create_loop :
    (left i : ℕ) (priority_queues : ℕ → Ptr) → Mem → Queues → (ℕ → Ptr) × Mem × Queues
create_loop zero i priority_queues m s = (priority_queues, m, s)
create_loop (suc left) i priority_queues m s =
    let (address, m') = k_malloc 8 m in
    let (queue, s') = ProcQueue.create address s in
    create_loop left (i + 1) (update priority_queues i queue) m' s'

-- The struct has two words, and so has each queue.
unfoldable pub create : (num_priorities : ℕ) → Mem → Queues → Option ProcPq × Mem × Queues
unfolding create_loop
create num_priorities m s =
    if num_priorities == 0
    then (none, m, s)
    else let (ppq, m₁) = k_malloc 8 m in
      let (array, m₂) = k_malloc (4 * num_priorities) m₁ in
      let (priority_queues, m₃, s') = create_loop num_priorities 0 (λ _. null) m₂ s in
      (some (record { num_priorities = num_priorities; priority_queues = priority_queues }), m₃, s')

-- `for (priority = 0; priority < ppq->num_priorities; priority++)`, with `left` rounds to go.
dequeue_loop : (left priority : ℕ) → ProcPq → Queues → Ptr × Queues
dequeue_loop zero priority ppq s = (null, s)
dequeue_loop (suc left) priority ppq s =
    let queue = ppq.priority_queues priority in
    let rest = dequeue_loop left (priority + 1) ppq s in
    if not (truthy (ProcQueue.is_empty queue s)) then ProcQueue.dequeue queue s else rest

unfoldable pub dequeue : Option ProcPq → Queues → Ptr × Queues
unfolding dequeue_loop
dequeue none s = (null, s)
dequeue (some ppq) s = dequeue_loop ppq.num_priorities 0 ppq s

-- `priority >= 0 && priority < num_priorities`
abbrev pub in_range : ℤ → ℕ → Bool
in_range priority num = not (is_negative priority) && ltb (abs priority) num

unfoldable pub enqueue : Option ProcPq → Ptr → Pcbs → Queues → ℤ × Queues
enqueue none pcb pcbs s = (error_null_arg, s)
enqueue (some ppq) pcb pcbs s =
    if pcb == null
    then (error_null_arg, s)
    else if not (in_range (pcbs pcb).priority ppq.num_priorities)
    then (error_illegal_arg, s)
    else ProcQueue.enqueue (ppq.priority_queues (abs (pcbs pcb).priority)) pcb s

unfoldable pub get_num_priorities : Option ProcPq → ℤ
get_num_priorities none = negsuc 0
get_num_priorities (some ppq) = pos ppq.num_priorities

-- `fuel` is for the walk of `proc_queue_remove`.
unfoldable pub remove : (fuel : ℕ) → Option ProcPq → Ptr → Pcbs → Queues → Option (Ptr × Queues)
remove fuel none pcb pcbs s = some (null, s)
remove fuel (some ppq) pcb pcbs s =
    if not (pcb == null) && in_range (pcbs pcb).priority ppq.num_priorities
    then ProcQueue.remove fuel (ppq.priority_queues (abs (pcbs pcb).priority)) pcb s
    else some (null, s)
