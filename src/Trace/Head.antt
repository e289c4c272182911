-- ===== src/Trace/Head.antt =====
-- Where `find_trace_buf_head` starts the dump: at the oldest message that the ring still holds.
use rtx.Base.{
  ℕ, zero, suc, ◌+◌, ◌-◌, ◌%◌, ◌≤◌, ◌<◌, ◌≡◌, ◌≢◌, refl, sym, ap, ◌∙◌, arith, ltb, if◌then◌else◌,
  ==_cases, ==_of_ne, inl, inr, none, some, false, Bool-cases,
}
use rtx.Base.Int.{pos, eqb_ℤ, decr}
use rtx.Base.Word.{max_uint32}
use rtx.Trace.{
  IpcTrace, TraceCircleBuf, init_buf, circle_index, signed_circle_index, find_head_loop,
  find_trace_buf_head,
}
use rtx.Trace.Ring.{History, logged, tail-logged, buf-logged, buf-unwritten}

-- The number of the oldest message that the ring holds after `n` messages.
abbrev pub oldest : ℕ → ℕ
oldest n = if ltb n 16 then 0 else n - 16

-- The walk stops at an entry that was written, and passes over others that do not close the circle.
stop_at :
    (t : TraceCircleBuf) (fuel i : ℕ)
    → (t.buf i).time_stamp ≢ max_uint32
    → find_head_loop (suc fuel) i t ≡ some i
unfolding find_head_loop
stop_at t fuel i stamped = rw (==_of_ne stamped)

pass_over :
    (t : TraceCircleBuf) (fuel i : ℕ)
    → (t.buf i).time_stamp ≡ max_uint32
    → eqb_ℤ (pos i) (signed_circle_index (decr (pos t.tail))) ≡ false
    → find_head_loop (suc fuel) i t ≡ find_head_loop fuel (circle_index (i + 1)) t
unfolding find_head_loop
pass_over t fuel i unwritten open_circle = rw (unwritten, open_circle)

module _ (t : TraceCircleBuf) (h : History) (n : ℕ) where
  not_closed :
      (i : ℕ)
      → 0 < n
      → n ≤ i
      → i < 16
      → eqb_ℤ (pos i) (signed_circle_index (decr (pos (logged t h n).tail))) ≡ false
  not_closed i some_sent above small =
      let at : (logged t h n).tail ≡ n = omega (arith, tail-logged t h n) in
      rw (at, ==_of_ne {a = n} {b = 0} (omega arith)) (ground arith)

  -- Before the ring is full the walk goes over the unwritten entries to index 0.
  walk_to_start :
      (fuel i : ℕ)
      → 0 < n
      → n ≤ i
      → i < 16
      → 16 - i < fuel
      → h.time 0 ≢ max_uint32
      → find_head_loop fuel i (logged t h n) ≡ some 0
  walk_to_start zero i some_sent above small enough stamped = absurd (omega arith)
  walk_to_start (suc zero) i some_sent above small enough stamped = absurd (omega arith)
  walk_to_start (suc (suc fuel)) i some_sent above small enough stamped =
      pass_over (logged t h n) (suc fuel) i (buf-unwritten t h n i above small)
        (not_closed i some_sent above small)
      ∙ elim (==_cases i 15) [
        | inl (e, eq) ↦
            let start : circle_index (i + 1) ≡ 0 = omega arith in
            rw start (stop_at (logged t h n) fuel 0 (written some_sent stamped))
        | inr (e, d) ↦
            let on : circle_index (i + 1) ≡ i + 1 = omega arith in
            rw on (
              walk_to_start (suc fuel) (i + 1) some_sent (omega arith) (omega arith) (omega arith)
                stamped)
      ]
    where
      written : 0 < n → h.time 0 ≢ max_uint32 → ((logged t h n).buf 0).time_stamp ≢ max_uint32
      written sent ok e = ok (
          sym (ap (λ (entry : IpcTrace). entry.time_stamp) (buf-logged t h n 0 sent (omega arith)))
          ∙ e)

  -- `find_trace_buf_head` on a ring with at least one message ends within seventeen steps at the
  -- index of the oldest message that the ring still holds, if the time stamp of that message is
  -- not the mark of an unwritten entry.
  pub find_trace_buf_head-oldest :
      (fuel : ℕ)
      → 16 < fuel
      → 0 < n
      → h.time (oldest n) ≢ max_uint32
      → find_trace_buf_head fuel (logged t h n) ≡ some (oldest n % 16)
  unfolding find_trace_buf_head
  find_trace_buf_head-oldest zero enough sent stamped = absurd (omega arith)
  find_trace_buf_head-oldest (suc fuel) enough sent stamped = elim (Bool-cases (ltb n 16)) [
    | inl part ↦
        let from : circle_index (logged t h n).tail ≡ n = ground (arith, tail-logged t h n) in
        rw (from, part)
          (walk_to_start (suc fuel) n sent (omega arith) (ground arith) (ground arith)
            (rw part at stamped))
    | inr full ↦
        let old : (n - 16) % 16 ≡ n % 16 = ground arith in
        let from : circle_index (logged t h n).tail ≡ (n - 16) % 16 =
          omega (arith, tail-logged t h n) in
        rw (from, full)
          (stop_at (logged t h n) fuel ((n - 16) % 16)
            (held (ground arith) (ground arith) (rw full at stamped)))
  ]
    where
      held :
          n - 16 < n
          → n ≤ n - 16 + 16
          → h.time (n - 16) ≢ max_uint32
          → ((logged t h n).buf ((n - 16) % 16)).time_stamp ≢ max_uint32
      held late recent ok e = ok (
          sym (ap (λ (entry : IpcTrace). entry.time_stamp) (buf-logged t h n (n - 16) late recent))
          ∙ e)

-- A defect: on a ring that no message was logged to, the walk of `find_trace_buf_head` does not
-- end on any fuel: `tail` is 0, and `circle_index(tail-1)` is -1 in the signed arithmetic of the
-- port, which no index equals.
pub find_trace_buf_head-none :
    (fuel : ℕ) (t : TraceCircleBuf) → find_trace_buf_head fuel (init_buf t) ≡ none
unfolding find_trace_buf_head init_buf
find_trace_buf_head-none fuel t = circles fuel 0 (omega arith)
  where
    circles : (fuel i : ℕ) → i < 16 → find_head_loop fuel i (init_buf t) ≡ none
    circles zero i small = refl
    circles (suc fuel) i small = ground (arith, circles fuel (circle_index (i + 1)))
