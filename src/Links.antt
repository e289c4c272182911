-- ===== src/Links.antt =====
-- The memory of the intrusive queues: the field `next` of each node, and the fields `head` and
-- `tail` of each `struct proc_queue` or `struct msg_env_queue`
-- (coldfire/kern/src/proc_queue.c, coldfire/kern/src/msg_env_queue.c), each as a map from addresses.
-- A pointer is a number and NULL is 0. The board has no memory protection, so cell 0 is a cell like
-- any other; the theorems' hypotheses keep the code away from it.
pub mod Chain
pub mod Contents
pub mod Moves
use rtx.Base.{ℕ, Bool, ◌==◌, if◌then◌else◌, not}
use rtx.Base.Int.{ℤ, pos, eqb_ℤ}

abbrev pub Ptr : Type 0
Ptr = ℕ

abbrev pub null : Ptr
null = 0

pub record Queues : Type 0 where
  pub next : Ptr → Ptr
  pub head : Ptr → Ptr
  pub tail : Ptr → Ptr

-- A write to one cell.
abbrev pub update {ℓ} : {A : Type ℓ} → (Ptr → A) → Ptr → A → Ptr → A
update f p v a = if a == p then v else f a

abbrev pub set_next : Ptr → Ptr → Queues → Queues
set_next p v s = record s { next = update s.next p v }

abbrev pub set_head : Ptr → Ptr → Queues → Queues
set_head q v s = record s { head = update s.head q v }

abbrev pub set_tail : Ptr → Ptr → Queues → Queues
set_tail q v s = record s { tail = update s.tail q v }

-- An `int` as the condition of an `if` or a `while`.
abbrev pub truthy : ℤ → Bool
truthy n = not (eqb_ℤ n (pos 0))

-- Memory before any queue is created.
abbrev pub blank : Queues
blank = record { next = λ _. null; head = λ _. null; tail = λ _. null }
