-- ===== src/Tests/Start.antt =====
-- The system of main.c on a board whose memory is zero, with the heap at 0x10010000, after a first call.
use rtx.Base.{◌≡◌, ◌≢◌, ◌⊎◌, refl, some, arith}
use rtx.Base.Int.{pos}
use rtx.Rtx.{p_executing}
use rtx.Links.{Ptr, null, blank}
use rtx.Links.Contents.{blank-Holds}
use rtx.ProcPq
use rtx.Kernel.{Kernel}
use rtx.Kernel.Primitives.{k_send_message}
use rtx.Kernel.Live.{view, Live}
use rtx.Kernel.Live.Steps.{Reach, here, next, send}
use rtx.Kernel.Boot.{Start}
use rtx.Main.{Code, main, null_process_at, main-Live, main-next}
use rtx.Tests.System.{system}
use rtx.Tests.Devices.{uart}

abbrev zeroed : Start
zeroed = record {
  mem = record { origin = 0 };
  words = λ _. 0;
  kernel = record system { procs = blank };
}

abbrev code : Code
code = record {
  timer_i_process = 0x10000100;
  uart_i_process = 0x10000200;
  start_cci = 0x10000300;
  null_process = 0x10000400;
  start_wallclock = 0x10000500;
  process_A = 0x10000600;
  process_B = 0x10000700;
  process_C = 0x10000800;
  update_board = 0x10000900;
}

abbrev started : Kernel
started = (main 0x10010000 (λ _ _. 0) code zeroed uart).0.kernel

abbrev z : Ptr
z = null_process_at 0x10010000

-- The first process sends an envelope to process 1.
abbrev after : Kernel
after = (k_send_message (pos 1) 600 started).1

after-Reach : Reach z started after
after-Reach = next here (send (pos 1) 600 started)

main-Live_example : Live z (view after)
main-Live_example =
    main-Live 0x10010000 (λ _ _. 0) code zeroed uart (omega arith) (omega arith) blank-Holds refl
      after after-Reach

main-next_example :
    (who : Ptr) × ((after.pcbs who).state ≡ p_executing)
    × (((after.interrupted_process ≡ null) × (after.current_process ≡ who))
        ⊎ (after.interrupted_process ≡ who))
    × ((who ≡ z) ⊎ ((ProcPq.dequeue (some after.ready_pq) after.procs).0 ≢ null))
main-next_example =
    main-next 0x10010000 (λ _ _. 0) code zeroed uart (omega arith) (omega arith) blank-Holds refl
      after after-Reach
