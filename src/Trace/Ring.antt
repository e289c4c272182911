-- ===== src/Trace/Ring.antt =====
-- A ring keeps the last sixteen of the messages that were logged to it.
use rtx.Base.{
  ℕ, zero, suc, ◌+◌, ◌%◌, ◌≤◌, ◌<◌, ◌≡◌, ◌≢◌, refl, arith, ==_cases, ==_refl, ==_of_ne, inl, inr,
}
use rtx.Base.Word.{max_uint32}
use rtx.Message.{MsgEnv}
use rtx.Trace.{TraceCircleBuf, entry, init_buf, log_msg_event}

-- A history: which envelope was logged as number k, and when.
pub record History : Type 0 where
  pub env : ℕ → MsgEnv
  pub time : ℕ → ℕ

-- The ring after the first `n` messages of a history.
unfoldable pub logged : TraceCircleBuf → History → ℕ → TraceCircleBuf
unfolding init_buf
logged t h zero = init_buf t
logged t h (suc n) = log_msg_event (logged t h n) (h.env n) (h.time n)

module _ (t : TraceCircleBuf) (h : History) where
  -- The next entry to be written.
  pub tail-logged : (n : ℕ) → (logged t h n).tail ≡ n % 16
  unfolding logged log_msg_event
  tail-logged zero = refl
  tail-logged (suc n) = omega (arith, tail-logged n)

  -- Of `n` messages logged to a ring, message `k` stands at index `k % 16` as it was logged, as
  -- long as fewer than sixteen messages have been logged after it.
  pub buf-logged :
      (n k : ℕ) → k < n → n ≤ k + 16 → (logged t h n).buf (k % 16) ≡ entry (h.env k) (h.time k)
  unfolding logged log_msg_event
  buf-logged zero k late recent = absurd (omega arith)
  buf-logged (suc n) k late recent = elim (==_cases k n) [
    | inl (e, eq) ↦ rw (eq, tail-logged n, ==_refl (n % 16))
    | inr (e, d) ↦
        let away : k % 16 ≢ n % 16 = omega arith in
        rw (tail-logged n, ==_of_ne away) (buf-logged n k (omega arith) (omega arith))
  ]

  -- After `n` messages the entries from index `n` on still carry the mark of an unwritten entry.
  pub buf-unwritten : (n i : ℕ) → n ≤ i → i < 16 → ((logged t h n).buf i).time_stamp ≡ max_uint32
  unfolding logged init_buf log_msg_event
  buf-unwritten zero i room small = ground arith
  buf-unwritten (suc n) i room small =
      let away : i ≢ n % 16 = omega arith in
      rw (tail-logged n, ==_of_ne away) (buf-unwritten n i (omega arith) small)
