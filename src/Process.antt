-- ===== src/Process.antt =====
-- coldfire/kern/inc/k_structs.h: process control blocks, all but the link `next`, which is part of
-- the memory of the queues. An entry point `start` and a stack pointer are addresses.
use rtx.Base.{ℕ, Bool}
use rtx.Base.Int.{ℤ}
use rtx.Rtx.{ProcessState}
use rtx.Links.{Ptr}
use Prim.Native.String.{String}

pub record Pcb : Type 0 where
  pub pid : ℤ
  pub name : String
  pub priority : ℤ
  pub state : ProcessState
  pub stack_ptr : ℕ
  pub is_i_process : Bool
  pub recv_msgs : Ptr
  pub start : ℕ
  pub stack_begin : ℕ
  pub stack_bottom : ℕ
  pub first_time : Bool
  pub env_owned : ℤ

-- The process control blocks by their addresses.
abbrev pub Pcbs : Type 0
Pcbs = Ptr → Pcb
