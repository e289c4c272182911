-- ===== src/Tests/Services.antt =====
-- The theorems about status requests and priorities at the small system.
use rtx.Base.{ℕ, ◌<◌, ◌≡◌, refl, [], ◌∷◌, inl, arith, some}
use rtx.Base.Int.{pos}
use rtx.Rtx.{code_success}
use rtx.Links.Contents.{Contents, put}
use rtx.Message.{Body, get_word}
use rtx.Kernel.{Kernel}
use rtx.Kernel.Table.{k_get_process}
use rtx.Kernel.Primitives.{make_ready}
use rtx.Kernel.Services.{k_request_process_status, k_change_priority}
use rtx.Kernel.Services.Status.{Reports, status-Reports}
use rtx.Kernel.Services.Priority.{change_priority-ready}
use rtx.Kernel.Sched.{Sched}
use rtx.Kernel.Sched.Wake.{make_ready-Sched}
use rtx.Tests.System.{system, queued, system-Sched}

status-Reports_example :
    ((k_request_process_status 600 system).0 ≡ code_success)
    × (b : Body) × (((k_request_process_status 600 system).1.envs 600).msg ≡ some b)
    × (get_word 0 b ≡ 3)
    × ((k : ℕ) → k < 3 → Reports k (system.pcbs (k_get_process (pos k) system)) b)
status-Reports_example = status-Reports 600 system (λ _. 0) refl refl (omega arith)

-- Process 2 has been woken.
abbrev awake : Kernel
awake = make_ready 1104 system

abbrev lined : Contents
lined = put queued 201 (1104 ∷ [])

awake-Sched : Sched awake lined
unfolding make_ready
awake-Sched =
    (make_ready-Sched system queued 1104 1 system-Sched (omega arith) (λ q. ground arith) refl
      (omega arith)).0

change_priority-ready_example :
    (s' : Kernel) × (k_change_priority 1 (pos 0) (pos 2) awake ≡ some (code_success, s'))
    × Sched s' (put (put lined 201 []) 200 (1104 ∷ []))
unfolding k_get_process make_ready
change_priority-ready_example =
    change_priority-ready 1 (pos 2) awake lined 1 0 awake-Sched
      (record { no_interrupt = refl; positive = refl }) refl (omega arith) (omega arith) 1104 []
      refl (omega arith) (omega arith) refl refl (inl refl) (omega arith)
