-- ===== src/Tests/Timing.antt =====
-- The theorems about the timer at a small system: the timer process runs, with one envelope in its
-- mailbox, while another one waits for its time.
use rtx.Base.{refl, true, [], ◌∷◌, arith}
use rtx.Base.Int.{negsuc}
use rtx.Links.{update}
use rtx.Links.Contents.{Contents, put}
use rtx.MsgEnvQueue
use rtx.MsgEnvQueue.Refines.{enqueue_env-Holds}
use rtx.Kernel.{Kernel}
use rtx.Kernel.Timer.{check_timeout_queue}
use rtx.Kernel.Timer.Timed.{IsTimed}
use rtx.Kernel.Timer.Due.{Checked, check-Checked}
use rtx.Tests.System.{pcbs, posted, system, mail, mail-Holds}

abbrev ticking : Kernel
ticking = record system {
  pcbs = update pcbs 1052 (record (pcbs 1052) { pid = negsuc 2; is_i_process = true });
  mail = (MsgEnvQueue.enqueue 231 600 mail).1;
  timeout_queue = 700;
}

abbrev mailed : Contents
mailed = put posted 231 (600 ∷ [])

ticking-IsTimed : IsTimed ticking mailed (700 ∷ [])
unfolding MsgEnvQueue.enqueue MsgEnvQueue.is_empty
ticking-IsTimed = record {
  mail =
      enqueue_env-Holds mail-Holds 231 600 (omega arith) (omega arith) (λ q. ground arith) [] refl;
  chain = (refl, omega arith, refl, refl);
  ordered = (λ y i. absurd (ground arith), tt);
  apart = λ x q i. ground arith;
}

check-Checked_example : Checked ticking mailed (700 ∷ []) (check_timeout_queue ticking)
check-Checked_example = check-Checked ticking mailed (700 ∷ []) ticking-IsTimed
