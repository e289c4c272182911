-- ===== src/Kernel/Send.antt =====
-- `k_send_message`: what the sender gets, and what happens to the envelope, to the mailbox and to
-- the receiver.
use rtx.Base.{◌≡◌, ◌≢◌, refl, true, false, [], ◌∷◌, ◌++◌, ==_of_ne, ==_refl}
use rtx.Base.Int.{ℤ}
use rtx.Rtx.{code_success, error_null_arg, error_illegal_arg, ProcessState, p_blocked_on_receive}
use rtx.Links.{Ptr, null, update}
use rtx.Links.Contents.{Contents, put, Holds}
use rtx.Links.Moves.{IsFree}
use rtx.Message.{MsgEnv}
use rtx.Trace.{log_msg_event}
use rtx.MsgEnvQueue
use rtx.MsgEnvQueue.Refines.{enqueue_env-Holds}
use rtx.Kernel.{Kernel, current, set_pcb}
use rtx.Kernel.Table.{k_get_process}
use rtx.Kernel.Primitives.{
  owns_more, owns_less, no_envelope, make_ready, wake_if_blocked, wake_receiver, k_send_message,
}

-- Without an envelope, or without a message in it, the call is refused and changes nothing.
pub send_null :
    (pid : ℤ) (e : Ptr) (s : Kernel)
    → no_envelope e s ≡ true
    → k_send_message pid e s ≡ (error_null_arg, s)
unfolding k_send_message
send_null pid e s missing = rw missing

-- To a pid that no process has, the call is refused and changes nothing.
pub send_unknown :
    (pid : ℤ) (e : Ptr) (s : Kernel)
    → no_envelope e s ≡ false
    → k_get_process pid s ≡ null
    → k_send_message pid e s ≡ (error_illegal_arg, s)
unfolding k_send_message
send_unknown pid e s there unknown = rw (there, unknown)

-- Waking a process touches neither envelopes, nor mailboxes, nor traces.
wake-keeps :
    (st : ProcessState) (d : Ptr) (s : Kernel)
    → ((wake_if_blocked st d s).envs ≡ s.envs)
      × ((wake_if_blocked st d s).mail ≡ s.mail)
      × ((wake_if_blocked st d s).send_trace_buf ≡ s.send_trace_buf)
      × ((wake_if_blocked st d s).clock ≡ s.clock)
unfolding wake_if_blocked make_ready
wake-keeps p_blocked_on_receive d s = (refl, refl, refl, refl)
wake-keeps _ d s = (refl, refl, refl, refl)

abbrev pub stamped : ℤ → Ptr → Kernel → MsgEnv
stamped pid e s = record (s.envs e) { send_pid = (current s).pid; dest_pid = pid }

-- The envelope is in the mailbox, and the counters of envelopes are changed; the receiver sleeps yet.
abbrev pub posted : ℤ → Ptr → Kernel → Kernel
posted pid e s = set_pcb s.current_process owns_less (
    set_pcb (k_get_process pid s) owns_more (record s {
      envs = update s.envs e (stamped pid e s);
      mail = (MsgEnvQueue.enqueue (s.pcbs (k_get_process pid s)).recv_msgs e s.mail).1;
    }))

module _ (pid : ℤ) (e : Ptr) (s : Kernel) (there : no_envelope e s ≡ false)
    (known : k_get_process pid s ≢ null) where
  pub send_posted : k_send_message pid e s ≡ (
      let s' = wake_receiver (k_get_process pid s) (posted pid e s) in
      (
        code_success,
        record s' { send_trace_buf = log_msg_event s'.send_trace_buf (s'.envs e) s'.clock },
      ))
  unfolding k_send_message
  send_posted = rw (there, ==_of_ne known)

  -- `k_send_message` of an envelope that has a message and stands in no mailbox and no pool, to a
  -- pid that a process with a mailbox has, succeeds: the envelope is stamped with the sender's
  -- and the receiver's pid, goes to the end of the receiver's mailbox, every other queue of
  -- envelopes stays as it is, and the message is logged with the time.
  pub send-delivers :
      (m : Contents)
      → Holds s.mail m
      → e ≢ null
      → (s.pcbs (k_get_process pid s)).recv_msgs ≢ null
      → IsFree e m
      → ((k_send_message pid e s).0 ≡ code_success)
        × ((k_send_message pid e s).1.envs ≡ update s.envs e (stamped pid e s))
        × Holds (k_send_message pid e s).1.mail (
            put m
              (s.pcbs (k_get_process pid s)).recv_msgs
              (m (s.pcbs (k_get_process pid s)).recv_msgs ++ e ∷ []))
        × ((k_send_message pid e s).1.send_trace_buf
            ≡ log_msg_event s.send_trace_buf (stamped pid e s) s.clock)
  unfolding wake_receiver
  send-delivers m h ne box free =
      let (envs, mail, trace, clock) =
        wake-keeps ((posted pid e s).pcbs (k_get_process pid s)).state (k_get_process pid s)
          (posted pid e s) in
      rw send_posted (
        refl,
        envs,
        rw mail (enqueue_env-Holds h (s.pcbs (k_get_process pid s)).recv_msgs e box ne free _ refl),
        rw (envs, trace, clock) (rw (==_refl e)),
      )
