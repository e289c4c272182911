-- ===== src/Kernel/Timer/Tick.antt =====
-- One run of the timer process, and of the handler that runs it.
use rtx.Base.{
  ℕ, ◌+◌, ◌<◌, ◌≤◌, ◌⊎◌, ◌≡◌, ◌≢◌, refl, ap, ◌%◌, ◌^◌, ◌||◌, if◌then◌else◌, false, true, ==_cases,
  inl, inr, List, [], ◌∷◌, has, Option, some,
}
use rtx.Base.Word.{rank}
use rtx.Links.{Ptr, null}
use rtx.Links.Contents.{Contents, put}
use rtx.Message.{first_word}
use rtx.Kernel.{Kernel, current}
use rtx.Kernel.Primitives.{k_send_message}
use rtx.Kernel.Timer.{entered, left, handler, isr_handler}
use rtx.Kernel.Timer.Timed.{IsTimed}

-- The next tick, and the clock after it.
abbrev pub next_tick : Kernel → ℕ
next_tick s = (s.clock + 1) % 2 ^ 32

-- One tick, before anything is sent: the mailbox with the envelopes `es` is empty, and they wait with
-- the others, each for its delay from now. Of an envelope only the message may differ, and of the rest
-- only the clock, the mailboxes, the queue and the trace of what is received.
pub record Ticked (s s₁ : Kernel) (m : Contents) (es xs ys : List Ptr) : Type 0 where
  pub clock : s₁.clock ≡ next_tick s
  pub timed : IsTimed s₁ (put m (current s).recv_msgs []) ys
  pub nodes : (a : Ptr) → has a ys ≡ (has a xs || has a es)
  pub times :
      (a : Ptr)
      → first_word (s₁.envs a) ≡ (
          if has a es
          then (next_tick s + first_word (s.envs a)) % 2 ^ 32
          else first_word (s.envs a))
  pub envelopes : (a : Ptr) → has a es ≡ false → s₁.envs a ≡ s.envs a
  pub kept : (a : Ptr) → s₁.envs a ≡ record (s.envs a) { msg = (s₁.envs a).msg }
  pub rest : s₁ ≡ record s {
    clock = next_tick s;
    envs = s₁.envs;
    mail = s₁.mail;
    timeout_queue = s₁.timeout_queue;
    recv_trace_buf = s₁.recv_trace_buf;
  }

-- From `s₁`, in which `ys` wait, nothing is sent, as nothing is due; or the envelope that is due first
-- leaves the queue, which changes nothing else, and is sent to the process that sent it, and the rest
-- still waits.
abbrev pub Delivered : (s s₁ : Kernel) → Contents → List Ptr → Kernel → Type 0
Delivered s s₁ m ys s' =
    ((s' ≡ s₁) × ((a : Ptr) → has a ys ≡ true → rank (next_tick s) < rank (first_word (s₁.envs a))))
    ⊎ ((e : Ptr) × (rest : List Ptr) × (head : Ptr) × (ys ≡ e ∷ rest)
        × (rank (first_word (s₁.envs e)) ≤ rank (next_tick s))
        × IsTimed (record s₁ { timeout_queue = head }) m rest
        × (s' ≡ (k_send_message (s.envs e).send_pid e (record s₁ { timeout_queue = head })).1))

-- `isr_handler`, if the code of the process that the interrupt runs, where there is one, ends and
-- leaves `interrupted_process` alone, ends with the process current that was interrupted, and
-- none recorded as interrupted; a source that no process handles does the same.
pub isr_handler-restores :
    (start : Ptr → Kernel → Option Kernel) (int_source : ℕ) (s : Kernel)
    → (handler int_source s ≢ null
        → (s' : Kernel) × (start (handler int_source s) (entered int_source s) ≡ some s')
          × (s'.interrupted_process ≡ s.current_process))
    → (s' : Kernel) × (isr_handler start int_source s ≡ some s')
      × (s'.current_process ≡ s.current_process)
      × (s'.interrupted_process ≡ null)
unfolding isr_handler
isr_handler-restores start int_source s ends = elim (==_cases (handler int_source s) null) [
  | inl (b, eq) ↦ (
    record (entered int_source s) {
      current_process = s.current_process;
      interrupted_process = null;
    },
    rw b refl,
    refl,
    refl,
  )
  | inr (b, ne) ↦
      let (s', runs, kept) = ends ne in
      (
        record s' { current_process = s'.interrupted_process; interrupted_process = null },
        rw b (ap left runs),
        kept,
        refl,
      )
]
