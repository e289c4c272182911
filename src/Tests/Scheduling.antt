-- ===== src/Tests/Scheduling.antt =====
-- The scheduler's theorems at the small system.
use rtx.Base.{ℕ, ◌≡◌, ◌≢◌, refl, [], ◌∷◌, inr, arith, some, List, ◌⊎◌}
use rtx.Base.Int.{pos}
use rtx.Rtx.{code_success, p_ready, p_blocked_on_receive, p_blocked_on_env_request}
use rtx.Links.{Ptr, blank, update, null}
use rtx.Links.Contents.{Contents, put, blank-Holds}
use rtx.Links.Moves.{IsFree}
use rtx.Process.{Pcbs}
use rtx.ProcPq
use rtx.ProcPq.Refines.{queue}
use rtx.Kernel.{Kernel, later, again}
use rtx.Kernel.Table.{k_get_process}
use rtx.Kernel.Primitives.{
  k_send_message, k_receive_message, k_request_msg_env, k_release_msg_env, k_release_processor,
  k_is_msg_env_sys_env,
}
use rtx.Kernel.Sched.{Sched, IsNext}
use rtx.Kernel.Sched.Moves.{change-IsSched, enqueue-IsSched}
use rtx.Kernel.Sched.Run.{Runs}
use rtx.Kernel.Sched.Wake.{send-Sched}
use rtx.Kernel.Sched.Yield.{release_processor-Runs, request_msg_env-Runs, receive_message-Runs}
use rtx.Kernel.Sched.Release.{woken, release-wakes}
use rtx.Tests.System.{process, pcbs, queued, posted, system, mail-Holds, system-Sched}

pub second : k_get_process (pos 2) system ≡ 1104
unfolding k_get_process
second = refl

pub second_known : k_get_process (pos 2) system ≢ null
unfolding k_get_process
second_known = omega arith

running-IsFree : IsFree 1052 queued
running-IsFree q = ground arith

null-IsNext : IsNext system.ready_pq queued 3 1000 []
null-IsNext = record { within = omega arith; before = λ j a. ground arith; full = refl }

send-Sched_example :
    let s' = (k_send_message (pos 2) 600 system).1 in
    (((system.pcbs 1104).state ≡ p_blocked_on_receive)
      × Sched s' (put queued 201 (1104 ∷ []))
      × ((s'.pcbs 1104).state ≡ p_ready))
    ⊎ (((system.pcbs 1104).state ≢ p_blocked_on_receive)
        × Sched s' queued
        × ((s'.pcbs 1104).state ≡ (system.pcbs 1104).state))
unfolding k_get_process
send-Sched_example =
    send-Sched (pos 2) 600 system queued 1 refl second_known system-Sched refl (omega arith)

release_processor-Runs_example :
    (j : ℕ) × (x : Ptr) × (xs : List Ptr) × IsNext system.ready_pq
      (put queued 201 (1052 ∷ []))
      j
      x
      xs
    × ((k_release_processor system).0 ≡ later code_success)
    × Runs
        (k_release_processor system).1
        (put (put queued 201 (1052 ∷ [])) (queue system.ready_pq j) xs)
        x
release_processor-Runs_example =
    release_processor-Runs system queued system-Sched running-IsFree (omega arith) 1 refl
      (omega arith)

receive_message-Runs_example :
    ((k_receive_message system).0 ≡ again)
    × Runs (k_receive_message system).1 (put queued 203 []) 1000
    × (((k_receive_message system).1.pcbs 1052).state ≡ p_blocked_on_receive)
receive_message-Runs_example =
    receive_message-Runs system queued system-Sched running-IsFree posted mail-Holds refl refl 3
      1000 [] null-IsNext

abbrev drained : Kernel
drained = record system { mail = blank }

request_msg_env-Runs_example :
    ((k_request_msg_env drained).0 ≡ again)
    × Runs (k_request_msg_env drained).1 (put (put queued 211 (1052 ∷ [])) 203 []) 1000
request_msg_env-Runs_example =
    request_msg_env-Runs drained queued system-Sched running-IsFree (omega arith) 1 refl (λ _. [])
      blank-Holds refl refl (omega arith) 3 1000 [] null-IsNext

-- A fourth process waits for an envelope.
abbrev waiting_pcbs : Pcbs
waiting_pcbs = update pcbs 1156 (process 3 1 p_blocked_on_env_request 233)

abbrev waiting : Kernel
waiting = record system {
  pcbs = waiting_pcbs;
  procs = (ProcPq.enqueue (some system.blocked_request_env_pq) 1156 waiting_pcbs system.procs).1;
}

abbrev crowded : Contents
crowded = put queued 211 (1156 ∷ [])

waiting-IsFree : IsFree 1156 queued
waiting-IsFree q = ground arith

waiting-Sched : Sched waiting crowded
waiting-Sched =
    enqueue-IsSched
      (change-IsSched system-Sched waiting_pcbs 1156 waiting-IsFree λ a d. ground arith)
      system.blocked_request_env_pq waiting_pcbs 1156 1 system-Sched.blocked (omega arith)
      waiting-IsFree refl (omega arith) (λ a d. refl)
      (inr (record { level = 1; within = omega arith; here = refl; state = refl; priority = refl }))

waiting-IsNext : IsNext waiting.blocked_request_env_pq crowded 1 1156 []
waiting-IsNext = record { within = omega arith; before = λ j a. ground arith; full = refl }

release-wakes_example :
    Sched (k_release_msg_env 600 waiting).1 (woken waiting crowded 1 1156 [])
    × (((k_release_msg_env 600 waiting).1.pcbs 1156).state ≡ p_ready)
unfolding k_is_msg_env_sys_env
release-wakes_example =
    release-wakes 600 waiting crowded 1 1156 [] waiting-Sched refl refl (omega arith) waiting-IsNext
