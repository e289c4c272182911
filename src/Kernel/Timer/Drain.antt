-- ===== src/Kernel/Timer/Drain.antt =====
-- The timer process files every envelope that was sent to it.
use rtx.Base.{
  ℕ, suc, zero, ◌+◌, ◌*◌, ◌<◌, ◌==◌, if◌then◌else◌, ◌≡◌, ◌≢◌, refl, sym, ap, subst, ◌∙◌, true,
  false, ◌||◌, ==_cases, ==_of_ne, ==_refl, inl, inr, List, [], ◌∷◌, arith, has, length, some,
}
use rtx.Links.{Ptr, null}
use rtx.Links.Chain.{IsChain, IsChain-frame}
use rtx.Links.Contents.{Contents, put}
use rtx.Message.{MsgEnv, has_msg}
use rtx.MsgEnvQueue.Refines.{dequeue_env-Holds, dequeue_env-next}
use rtx.Kernel.{Kernel, now, current}
use rtx.Kernel.Primitives.{k_receive_message}
use rtx.Kernel.Receive.{received, receive_lem, receive_i_process}
use rtx.Kernel.Timer.{time_at, deadline, armed, timeout_queue_insert, drain_loop}
use rtx.Kernel.Timer.Place.{place, has-place, length-place}
use rtx.Kernel.Timer.Insert.{Linked}
use rtx.Kernel.Timer.Timed.{IsTimed, time_at-armed, put_same, put-put, insert-IsTimed}

-- One round: envelope `e` of the mailbox is received and filed among `ys`.
record Filed (fuel : ℕ) (e : Ptr) (es xs ys : List Ptr) (s s' : Kernel) (m : Contents)
    : Type 0 where
  runs : drain_loop (suc fuel) s ≡ drain_loop fuel s'
  timed : IsTimed s' (put m (current s).recv_msgs es) ys
  nodes : (a : Ptr) → has a ys ≡ ((a == e) || has a xs)
  size : length ys ≡ suc (length xs)
  time : (a : Ptr) → time_at s' a ≡ (if a == e then deadline e s else time_at s a)
  messages : (a : Ptr) → a ≢ e → has_msg (s'.envs a) ≡ has_msg (s.envs a)
  process : current s' ≡ current s
  clock : s'.clock ≡ s.clock
  envelopes : (a : Ptr) → a ≢ e → s'.envs a ≡ s.envs a
  kept : (a : Ptr) → s'.envs a ≡ record (s.envs a) { msg = (s'.envs a).msg }
  rest : s' ≡ record s {
    envs = s'.envs;
    mail = s'.mail;
    timeout_queue = s'.timeout_queue;
    recv_trace_buf = s'.recv_trace_buf;
  }

-- What was filed, from what was received.
Linked-Filed :
    (fuel : ℕ) (e : Ptr) (es xs : List Ptr) (s s' : Kernel) (m : Contents)
    → e ≢ null
    → has_msg (s.envs e) ≡ true
    → k_receive_message s ≡ (now e, received e s)
    → timeout_queue_insert fuel e (received e s) ≡ some s'
    → Linked e xs (received e s) s'
    → IsTimed s' (put m (current s).recv_msgs es) (place (time_at (armed e s)) (deadline e s) e xs)
    → Filed fuel e es xs (place (time_at (armed e s)) (deadline e s) e xs) s s' m
unfolding drain_loop
Linked-Filed fuel e es xs s s' m ne there reply runs i timed = record {
  runs = rw (drain_loop, ap (λ r. r.0) reply, ap (λ r. r.1) reply, ==_of_ne ne, runs) refl;
  timed = timed;
  nodes = has-place (time_at (armed e s)) (deadline e s) e xs;
  size = length-place (time_at (armed e s)) (deadline e s) e xs;
  time = λ a. ap (λ k. time_at k a) i.rest ∙ elim (==_cases a e) [
    | inl (b, eq) ↦ rw eq (time_at-armed e s there ∙ rw (==_refl e) refl)
    | inr (b, d) ↦ rw b refl
  ];
  messages = λ a d. ap (λ k. has_msg (k.envs a)) i.rest ∙ rw (==_of_ne d) refl;
  process = ap current i.rest;
  clock = ap (λ k. k.clock) i.rest;
  envelopes = λ a d. ap (λ k. k.envs a) i.rest ∙ rw (==_of_ne d) refl;
  kept = λ a.
      subst (λ v. v ≡ record (s.envs a) { msg = v.msg }) (sym (ap (λ k. k.envs a) i.rest))
        (elim (==_cases a e) [ inl (b, eq) ↦ rw (b, eq) refl | inr (b, d) ↦ rw b refl ]);
  rest =
      subst
        (λ k. k ≡ record s {
          envs = k.envs;
          mail = k.mail;
          timeout_queue = k.timeout_queue;
          recv_trace_buf = k.recv_trace_buf;
        })
        (sym i.rest) refl;
}

drain_loop-Filed :
    (fuel : ℕ) (e : Ptr) (es xs : List Ptr) (s : Kernel) (m : Contents)
    → (current s).recv_msgs ≢ null
    → m (current s).recv_msgs ≡ e ∷ es
    → IsTimed s m xs
    → has_msg (s.envs e) ≡ true
    → length xs < fuel
    → (s' : Kernel) × (ys : List Ptr) × Filed fuel e es xs ys s s' m
drain_loop-Filed fuel e es xs s m box full h there enough =
    let q = (current s).recv_msgs in
    let (first, holds) = dequeue_env-Holds h.mail q e es box full in
    let nodes : IsChain s.mail.next (s.mail.head q) (e ∷ es) = rw full at (h.mail.chain q) in
    let next = dequeue_env-next h.mail q e es box full in
    let timed : IsTimed (received e s) (put m q es) xs = record {
      mail = holds;
      chain = rw next (IsChain-frame s.timeout_queue xs h.chain λ a i. ground (arith, h.apart e q));
      ordered = h.ordered;
      apart = λ x r i. ground (arith, h.apart x r, h.apart x q);
    } in
    let (s', runs, i, timed') =
      insert-IsTimed fuel e xs (received e s) (put m q es) nodes.1 (rw next (rw (==_refl e) refl))
        there (λ r. ground (arith, h.mail.apart q r e)) timed (ground (arith, h.apart e q))
        enough in
    (
      s',
      place (time_at (armed e s)) (deadline e s) e xs,
      Linked-Filed fuel e es xs s s' m nodes.1 there (receive_lem s m h.mail e es box full) runs i
          timed',
    )

-- What draining the mailbox `es` into the queue `xs` leaves: the mailbox is empty, the queue holds
-- both, in order, and each envelope of the mailbox is due at its delay from now.
pub record Drained (s s' : Kernel) (m : Contents) (es xs ys : List Ptr) : Type 0 where
  pub timed : IsTimed s' (put m (current s).recv_msgs []) ys
  pub nodes : (a : Ptr) → has a ys ≡ (has a xs || has a es)
  pub times : (a : Ptr) → time_at s' a ≡ (if has a es then deadline a s else time_at s a)
  pub clock : s'.clock ≡ s.clock
  pub envelopes : (a : Ptr) → has a es ≡ false → s'.envs a ≡ s.envs a
  pub kept : (a : Ptr) → s'.envs a ≡ record (s.envs a) { msg = (s'.envs a).msg }
  pub rest : s' ≡ record s {
    envs = s'.envs;
    mail = s'.mail;
    timeout_queue = s'.timeout_queue;
    recv_trace_buf = s'.recv_trace_buf;
  }

-- The loop of `timer_i_process`, with the envelopes `es`, all with a message, in the mailbox of
-- the i-process that runs, and `xs` waiting in order, ends on fuel of more than twice the length
-- of `es` plus that of `xs`: the mailbox is empty, the envelopes that wait are those of `xs` and
-- of `es`, in order of their times, each of `es` is due at its delay from now, and every other
-- time is what it was.
pub drain_loop-Drained :
    (fuel : ℕ) (es xs : List Ptr) (s : Kernel) (m : Contents)
    → (current s).recv_msgs ≢ null
    → (current s).is_i_process ≡ true
    → m (current s).recv_msgs ≡ es
    → IsTimed s m xs
    → ((a : Ptr) → has a es ≡ true → has_msg (s.envs a) ≡ true)
    → 2 * length es + length xs < fuel
    → (s' : Kernel) × (ys : List Ptr) × (drain_loop fuel s ≡ some s') × Drained s s' m es xs ys
unfolding drain_loop
drain_loop-Drained zero es xs s m box interrupt full h there enough = absurd (omega arith)
drain_loop-Drained (suc fuel) [] xs s m box interrupt full h there enough = (
  s,
  xs,
  let reply = receive_i_process s m h.mail full interrupt in
      rw (drain_loop, ap (λ r. r.0) reply, ap (λ r. r.1) reply) refl,
  record {
    timed = rw (put_same m (current s).recv_msgs [] full) h;
    nodes = λ a. ground arith;
    times = λ a. refl;
    clock = refl;
    envelopes = λ a none. refl;
    kept = λ a. refl;
    rest = refl;
  },
)
drain_loop-Drained (suc fuel) (e ∷ es) xs s m box interrupt full h there enough =
    let new : has e es ≡ false = (rw full at (h.mail.chain (current s).recv_msgs)).2 in
    let (s₂, ys₂, f) =
      drain_loop-Filed fuel e es xs s m box full h (there e (ground arith)) (ground arith) in
    let (s₃, ys, runs, d) =
      drain_loop-Drained fuel es ys₂ s₂ (put m (current s).recv_msgs es) (rw f.process box)
        (rw f.process interrupt) (rw f.process (rw (==_refl (current s).recv_msgs) refl)) f.timed
        (λ a j. f.messages a (ground arith) ∙ there a (ground arith)) (ground (arith, f.size)) in
    (
      s₃,
      ys,
      f.runs ∙ runs,
      record {
        timed = rw (← put-put m (current s).recv_msgs es []) (rw f.process at d.timed);
        nodes = λ a. ground (arith, d.nodes a, f.nodes a);
        times = λ a. d.times a ∙ elim (==_cases a e) [
          | inl (b, eq) ↦ rw (eq, new, ==_refl e) (f.time e ∙ rw (==_refl e) refl)
          | inr (b, ne) ↦ rw (b, f.time a, b, f.clock) refl
        ];
        clock = d.clock ∙ f.clock;
        envelopes =
            λ a none. d.envelopes a (ground (arith, none)) ∙ f.envelopes a (ground (arith, none));
        kept = λ a. d.kept a ∙ ap (λ (v : MsgEnv). record v { msg = (s₃.envs a).msg }) (f.kept a);
        rest =
            d.rest
            ∙ ap
                (λ (k : Kernel). record k {
                  envs = s₃.envs;
                  mail = s₃.mail;
                  timeout_queue = s₃.timeout_queue;
                  recv_trace_buf = s₃.recv_trace_buf;
                })
                f.rest;
      },
    )
