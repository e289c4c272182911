-- ===== src/Kernel/Receive.antt =====
-- `k_receive_message`: mailboxes are first in, first out.
use rtx.Base.{◌≡◌, ◌≢◌, refl, ◌∙◌, true, false, List, [], ◌∷◌, arith, ==_refl}
use rtx.Base.Int.{ℤ}
use rtx.Rtx.{ProcessState, p_blocked_on_receive}
use rtx.Links.{Ptr, null}
use rtx.Links.Contents.{Contents, put, Holds}
use rtx.Links.Moves.{IsFree}
use rtx.MsgEnvQueue
use rtx.MsgEnvQueue.Refines.{is_empty_of_empty, is_empty_of_cons, dequeue_env-Holds}
use rtx.Trace.{log_msg_event}
use rtx.Kernel.{Kernel, current, now}
use rtx.Kernel.Table.{k_get_process}
use rtx.Kernel.Primitives.{
  no_envelope, make_ready, wake_if_blocked, wake_receiver, k_send_message, k_receive_message,
}
use rtx.Kernel.Send.{posted, send_posted, send-delivers}

-- The kernel after the process that runs has received `e`.
abbrev pub received : Ptr → Kernel → Kernel
received e s = record s {
  mail = (MsgEnvQueue.dequeue (current s).recv_msgs s.mail).1;
  recv_trace_buf = log_msg_event s.recv_trace_buf (s.envs e) s.clock;
}

module _ (s : Kernel) (m : Contents) (h : Holds s.mail m) where
  pub receive_lem :
      (e : Ptr) (es : List Ptr)
      → (current s).recv_msgs ≢ null
      → m (current s).recv_msgs ≡ e ∷ es
      → k_receive_message s ≡ (now e, received e s)
  unfolding k_receive_message
  receive_lem e es box full =
      let (first, holds) = dequeue_env-Holds h (current s).recv_msgs e es box full in
      rw (is_empty_of_cons h (current s).recv_msgs e es box full) (rw first refl)

  -- `k_receive_message`, called by a process whose mailbox is not empty, returns the oldest
  -- envelope at once, takes it out of the mailbox, logs it with the time, and changes no
  -- envelope.
  pub receive-front :
      (e : Ptr) (es : List Ptr)
      → (current s).recv_msgs ≢ null
      → m (current s).recv_msgs ≡ e ∷ es
      → ((k_receive_message s).0 ≡ now e)
        × Holds (k_receive_message s).1.mail (put m (current s).recv_msgs es)
        × ((k_receive_message s).1.recv_trace_buf
            ≡ log_msg_event s.recv_trace_buf (s.envs e) s.clock)
        × ((k_receive_message s).1.envs ≡ s.envs)
  unfolding k_receive_message
  receive-front e es box full =
      let (first, holds) = dequeue_env-Holds h (current s).recv_msgs e es box full in
      rw (is_empty_of_cons h (current s).recv_msgs e es box full)
        (rw first refl, holds, rw first refl, refl)

  -- An i-process that finds its mailbox empty gets NULL, and nothing changes.
  pub receive_i_process :
      m (current s).recv_msgs ≡ []
      → (current s).is_i_process ≡ true
      → k_receive_message s ≡ (now null, s)
  unfolding k_receive_message
  receive_i_process empty interrupt =
      rw (is_empty_of_empty h (current s).recv_msgs empty, interrupt)

-- A process keeps its mailbox when another is woken.
wake-recv_msgs :
    (st : ProcessState) (d : Ptr) (s : Kernel) (a : Ptr)
    → ((wake_if_blocked st d s).pcbs a).recv_msgs ≡ (s.pcbs a).recv_msgs
unfolding wake_if_blocked make_ready
wake-recv_msgs p_blocked_on_receive d s a = ground arith
wake-recv_msgs _ d s a = refl

send-recv_msgs :
    (pid : ℤ) (e : Ptr) (s : Kernel) (a : Ptr)
    → no_envelope e s ≡ false
    → k_get_process pid s ≢ null
    → ((k_send_message pid e s).1.pcbs a).recv_msgs ≡ (s.pcbs a).recv_msgs
unfolding wake_receiver
send-recv_msgs pid e s a there known =
    let s₁ = posted pid e s in
    let d = k_get_process pid s in
    rw (send_posted pid e s there known) (wake-recv_msgs (s₁.pcbs d).state d s₁ a ∙ ground arith)

-- An envelope that has a message and stands in no queue, sent to a process whose mailbox is
-- empty, is what `k_receive_message` of this process gives at once when the process runs next.
pub receive-send :
    (pid : ℤ) (e : Ptr) (s : Kernel) (m : Contents)
    → no_envelope e s ≡ false
    → k_get_process pid s ≢ null
    → Holds s.mail m
    → e ≢ null
    → (s.pcbs (k_get_process pid s)).recv_msgs ≢ null
    → IsFree e m
    → m (s.pcbs (k_get_process pid s)).recv_msgs ≡ []
    → let s' = (k_send_message pid e s).1 in
      (k_receive_message (record s' { current_process = k_get_process pid s })).0 ≡ now e
receive-send pid e s m there known h ne box free empty =
    let d = k_get_process pid s in
    let (code, envs, holds, trace) = send-delivers pid e s there known m h ne box free in
    let s' = (k_send_message pid e s).1 in
    let same : (s'.pcbs d).recv_msgs ≡ (s.pcbs d).recv_msgs =
      send-recv_msgs pid e s d there known in
    (receive-front (record s' { current_process = d }) _ holds e [] (rw same box)
      (rw same (rw (==_refl (s.pcbs d).recv_msgs, empty)))).0
