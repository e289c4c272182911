-- ===== src/Trace.antt =====
-- coldfire/kern/src/k_ipc.c: the rings that hold the last sixteen messages sent and received.
-- A time stamp of -1 marks an entry that was never written.
pub mod Ring
pub mod Head
use rtx.Base.{
  ℕ, zero, suc, ◌+◌, ◌-◌, ◌%◌, Bool, ◌&&◌, not, ◌==◌, ltb, if◌then◌else◌, Option, none, some,
}
use rtx.Base.Int.{ℤ, pos, negsuc, decr, eqb_ℤ}
use rtx.Base.Word.{max_uint32}
use rtx.Links.{update}
use rtx.Message.{MsgEnv}

abbrev pub ipc_message_trace_history_size : ℕ
ipc_message_trace_history_size = 16

pub record IpcTrace : Type 0 where
  pub dest_pid : ℤ
  pub send_pid : ℤ
  pub msg_type : ℤ
  pub time_stamp : ℕ

pub record TraceCircleBuf : Type 0 where
  pub tail : ℕ
  pub buf : ℕ → IpcTrace

abbrev pub circle_index : ℕ → ℕ
circle_index i = i % ipc_message_trace_history_size

-- The same macro at a signed number: `%` takes the sign of its left operand.
abbrev pub signed_circle_index : ℤ → ℤ
signed_circle_index (pos i) = pos (i % ipc_message_trace_history_size)
signed_circle_index (negsuc i) =
    let r = suc i % ipc_message_trace_history_size in if r == 0 then pos 0 else negsuc (r - 1)

-- The part of `init_ipc` that clears a ring: every time stamp is set, the other fields are not.
unfoldable pub init_buf : TraceCircleBuf → TraceCircleBuf
init_buf t = record {
  tail = 0;
  buf = λ i. if ltb i 16 then record (t.buf i) { time_stamp = max_uint32 } else t.buf i;
}

-- The entry for an envelope at a time.
abbrev pub entry : MsgEnv → ℕ → IpcTrace
entry e now = record {
  dest_pid = e.dest_pid;
  send_pid = e.send_pid;
  msg_type = e.msg_type;
  time_stamp = now;
}

unfoldable pub log_msg_event : TraceCircleBuf → MsgEnv → (now : ℕ) → TraceCircleBuf
log_msg_event t e now = record {
  tail = circle_index (t.tail + 1);
  buf = update t.buf t.tail (entry e now);
}

-- `while (… time_stamp == MAX_UINT32 && head != circle_index(tail-1)) head = circle_index(head + 1);`
-- with fuel; `none` means that it ran out. The index `tail-1` is negative while `tail` is 0.
unfoldable pub find_head_loop : (fuel head : ℕ) → TraceCircleBuf → Option ℕ
find_head_loop zero head t = none
find_head_loop (suc fuel) head t =
    let rest = find_head_loop fuel (circle_index (head + 1)) t in
    if ((t.buf head).time_stamp == max_uint32)
      && not (eqb_ℤ (pos head) (signed_circle_index (decr (pos t.tail))))
    then rest
    else some head

unfoldable pub find_trace_buf_head : (fuel : ℕ) → TraceCircleBuf → Option ℕ
unfolding find_head_loop
find_trace_buf_head fuel t = find_head_loop fuel (circle_index t.tail) t
