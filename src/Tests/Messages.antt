-- ===== src/Tests/Messages.antt =====
-- The theorems about messages and envelopes at the small system.
use rtx.Base.{◌≡◌, refl, true, [], ◌∷◌, arith}
use rtx.Base.Int.{pos}
use rtx.Rtx.{code_success}
use rtx.Links.{blank, update}
use rtx.Links.Contents.{put, Holds, blank-Holds}
use rtx.Trace.{log_msg_event}
use rtx.MsgEnvQueue
use rtx.MsgEnvQueue.Refines.{enqueue_env-Holds}
use rtx.Kernel.{Kernel, now}
use rtx.Kernel.Table.{k_get_process}
use rtx.Kernel.Primitives.{k_send_message, k_receive_message}
use rtx.Kernel.Send.{stamped, send-delivers}
use rtx.Kernel.Receive.{receive-send}
use rtx.Tests.System.{pcbs, posted, system, mail-Holds, mail}
use rtx.Tests.Scheduling.{second_known}

send-delivers_example :
    ((k_send_message (pos 2) 600 system).0 ≡ code_success)
    × ((k_send_message (pos 2) 600 system).1.envs
        ≡ update system.envs 600 (stamped (pos 2) 600 system))
    × Holds (k_send_message (pos 2) 600 system).1.mail (put posted 232 (600 ∷ []))
    × ((k_send_message (pos 2) 600 system).1.send_trace_buf
        ≡ log_msg_event system.send_trace_buf (stamped (pos 2) 600 system) 42)
unfolding k_get_process
send-delivers_example =
    send-delivers (pos 2) 600 system refl second_known posted mail-Holds (omega arith) (omega arith)
      (λ q. ground arith)

receive-send_example :
    (k_receive_message
      (record ((k_send_message (pos 2) 600 system).1) { current_process = 1104 })).0
    ≡ now 600
unfolding k_get_process
receive-send_example =
    receive-send (pos 2) 600 system posted refl second_known mail-Holds (omega arith) (omega arith)
      (λ q. ground arith) refl

-- A letter lies in the mailbox of the running process.
abbrev filled : Kernel
filled = record system { mail = (MsgEnvQueue.enqueue 231 600 mail).1 }

filled-Holds : Holds filled.mail (put posted 231 (600 ∷ []))
filled-Holds =
    enqueue_env-Holds mail-Holds 231 600 (omega arith) (omega arith) (λ q. ground arith) [] refl

-- An i-process runs, and the pool is empty.
abbrev interrupted : Kernel
interrupted = record system {
  pcbs = update pcbs 1052 (record (pcbs 1052) { is_i_process = true });
  mail = (MsgEnvQueue.enqueue 221 540 blank).1;
}

reserve-Holds : Holds interrupted.mail (put (λ _. []) 221 (540 ∷ []))
reserve-Holds =
    enqueue_env-Holds blank-Holds 221 540 (omega arith) (omega arith) (λ q. refl) [] refl
