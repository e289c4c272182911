-- ===== src/Kernel/Live/Steps.antt =====
-- The primitives of k_primitives.c and the interrupts of isr_handler.c, in any order.
use rtx.Base.{ℕ, ◌≡◌, ◌≢◌, ◌⊎◌, inl, inr, refl, sym, subst, ◌∙◌, true, false, some}
use rtx.Base.Int.{ℤ}
use rtx.Links.{Ptr, null}
use rtx.ProcPq
use rtx.Kernel.{Kernel, current}
use rtx.Kernel.Primitives.{
  k_send_message, k_receive_message, k_request_msg_env, k_release_msg_env, k_release_processor,
}
use rtx.Kernel.Timer.{handler, entered}
use rtx.Kernel.Sched.Moves.{dequeue_next, next_ne}
use rtx.Kernel.Sched.Yield.{IsNext-of_has}
use rtx.Kernel.Live.{view, Live}
use rtx.Kernel.Live.Moves.{turn-Live}
use rtx.Kernel.Live.Stays.{send-Live}
use rtx.Kernel.Live.Release.{release-Live}
use rtx.Kernel.Live.Blocks.{yield-Live, receive-Live, request-Live}

-- The end of `isr_handler`.
abbrev pub resumed : Kernel → Kernel
resumed s = record s { current_process = s.interrupted_process; interrupted_process = null }

-- A call, made by the process that has the processor, or by the i-process that an interrupt runs.
-- The null process `z` waits for nothing; an i-process does not give up the processor. Whatever
-- leaves the processes and their queues alone is a step: a write to an envelope, to the queue of
-- timeouts or to the clock, a trace. Delays and output are such writes and a message that is sent.
pub data Step (z : Ptr) : Kernel → Kernel → Type 0 where
  send : (pid : ℤ) (e : Ptr) (s : Kernel) → Step z s (k_send_message pid e s).1
  receive : (s : Kernel) → s.current_process ≢ z → Step z s (k_receive_message s).1
  request : (s : Kernel) → s.current_process ≢ z → Step z s (k_request_msg_env s).1
  release : (e : Ptr) (s : Kernel) → Step z s (k_release_msg_env e s).1
  yield : (s : Kernel) → (current s).is_i_process ≡ false → Step z s (k_release_processor s).1
  interrupt :
      (int_source : ℕ) (s : Kernel)
      → s.interrupted_process ≡ null
      → (s.pcbs (handler int_source s)).is_i_process ≡ true
      → Step z s (entered int_source s)
  resume : (s : Kernel) → s.interrupted_process ≢ null → Step z s (resumed s)
  elsewhere : (s t : Kernel) → view t ≡ view s → Step z s t

pub data Reach (z : Ptr) (s : Kernel) : Kernel → Type 0 where
  here : Reach z s s
  next : {t u : Kernel} → Reach z s t → Step z t u → Reach z s u

interrupt-Live :
    {z : Ptr} (int_source : ℕ) (s : Kernel)
    → Live z (view s)
    → s.interrupted_process ≡ null
    → (s.pcbs (handler int_source s)).is_i_process ≡ true
    → Live z (view (entered int_source s))
interrupt-Live int_source s l free i_process =
    turn-Live l (handler int_source s) s.current_process (elim l.turn [
      | inl (n, is) ↦ inr (is, i_process)
      | inr (is, p) ↦ absurd (l.calm.placed l.who l.known (sym is ∙ free))
    ])

resume-Live :
    {z : Ptr} (s : Kernel)
    → Live z (view s)
    → s.interrupted_process ≢ null
    → Live z (view (resumed s))
resume-Live s l busy =
    turn-Live l s.interrupted_process null
      (elim l.turn [ inl (n, is) ↦ absurd (busy n) | inr (is, p) ↦ inl (refl, is) ])

Step-Live : {z : Ptr} {s t : Kernel} → Step z s t → Live z (view s) → Live z (view t)
Step-Live (send pid e s) l = send-Live pid e s l
Step-Live (receive s other) l = receive-Live s l other
Step-Live (request s other) l = request-Live s l other
Step-Live (release e s) l = release-Live e s l
Step-Live (yield s process) l = yield-Live s l process
Step-Live (interrupt int_source s free i_process) l = interrupt-Live int_source s l free i_process
Step-Live (resume s busy) l = resume-Live s l busy
Step-Live {z} (elsewhere s t same) l = subst (Live z) (sym same) l

-- What holds between two traps holds after every sequence of such steps.
pub Reach-Live : {z : Ptr} {s t : Kernel} → Live z (view s) → Reach z s t → Live z (view t)
Reach-Live l here = l
Reach-Live l (next r step) = Step-Live step (Reach-Live l r)

-- After every such sequence, the process that runs is the null process, or `proc_pq_dequeue` of the
-- ready queues returns a process.
pub Reach-next :
    {z : Ptr} {s t : Kernel} (l : Live z (view s)) (r : Reach z s t)
    → ((Reach-Live l r).who ≡ z) ⊎ ((ProcPq.dequeue (some t.ready_pq) t.procs).0 ≢ null)
Reach-next {z} {t} l r =
    let l' = Reach-Live l r in
    elim l'.idle [
      | inl e ↦ inl e
      | inr ready ↦
          let h = l'.calm.sched in
          let (k, x, xs, n) = IsNext-of_has t l'.queues z ready.level ready.below ready.queued in
          let (first, sched) = dequeue_next h t.ready_pq h.ready k x xs n t.pcbs λ a d. refl in
          inr (λ e. next_ne h t.ready_pq h.ready k x xs n (sym first ∙ e))
    ]
