-- ===== src/Kernel/Live/Blocks.antt =====
-- The primitives of k_primitives.c that may give up the processor.
use rtx.Base.{
  ◌≡◌, ◌≢◌, inl, inr, sym, ◌∙◌, true, false, has, arith, ==_refl, Bool-cases, has-append_one,
}
use rtx.Rtx.{ProcessState, p_ready, p_executing, p_blocked_on_env_request, p_blocked_on_receive}
use rtx.Links.{Ptr, null, Queues, update, truthy}
use rtx.Links.Contents.{Contents}
use rtx.Links.Moves.{IsFree}
use rtx.Process.{Pcbs}
use rtx.MsgEnvQueue
use rtx.ProcPq.Refines.{queue}
use rtx.Kernel.{Kernel, current, set_pcb, with_state}
use rtx.Kernel.Switch.{k_process_switch, k_context_switch}
use rtx.Kernel.Primitives.{
  owns_more, take_envelope, k_receive_message, k_request_msg_env, k_release_processor,
}
use rtx.Kernel.Sched.{IsSched}
use rtx.Kernel.Sched.Moves.{
  IsFree-of_state, relabel-IsSched, change-IsSched, enqueue-IsSched, with_state-Waits,
}
use rtx.Kernel.Sched.Run.{switch-Runs}
use rtx.Kernel.Sched.Yield.{IsNext-of_has}
use rtx.Kernel.Live.{View, view, Known, Calm, Ready, Live}
use rtx.Kernel.Live.Moves.{switch-Same, stay-Live, next-Live, behind, has-behind, Ready-behind}

-- Another process than an i-process that makes a call is the one that executes.
record Caller (z : Ptr) (v : View) (l : Live z v) : Type 0 where
  free_to_switch : v.interrupted_process ≡ null
  is_who : v.current_process ≡ l.who
  known : Known v v.current_process
  queued : IsFree v.current_process l.queues

caller :
    {z : Ptr} {v : View} (l : Live z v)
    → (v.pcbs v.current_process).is_i_process ≡ false
    → Caller z v l
caller {z} {v} l process = elim l.turn [
  | inr (i, p) ↦ absurd (ground arith)
  | inl (none_interrupted, is) ↦ record {
    free_to_switch = none_interrupted;
    is_who = is;
    known = record { index = l.known.index; within = l.known.within; at = is ∙ l.known.at };
    queued =
        let runs : (v.pcbs v.current_process).state ≡ p_executing = rw is l.executing in
        IsFree-of_state l.calm.sched v.current_process (λ e. ground arith) (λ e. ground arith);
  }
]

-- The caller gives up the processor in the state `t`, where it stands in the queues `c` or in none.
switch-Live :
    {z : Ptr} (t : ProcessState) (s : Kernel) (procs : Queues) {c₀ : Contents} (c : Contents)
    → Calm z (view s) c₀
    → s.interrupted_process ≡ null
    → IsSched procs
        (update s.pcbs s.current_process (with_state t (current s)))
        s.ready_pq
        s.blocked_request_env_pq
        c
    → ((q p : Ptr) → has p (c q) ≡ true → Known (view s) p)
    → Ready z (view s) c
    → Live z (view (k_process_switch t (record s { procs = procs })))
unfolding k_process_switch k_context_switch
switch-Live {z} t s procs c h free sched members ready =
    let s₁ : Kernel = record s { procs = procs } in
    let (j, x, xs, n) = IsNext-of_has s c z ready.level ready.below ready.queued in
    let runs = switch-Runs s₁ c t sched j x xs n in
    let s₂ = k_process_switch t s₁ in
    next-Live h c s₂.procs s₂.pcbs j x s₂.current_process xs n members ready runs.sched
      (switch-Same t s₁) runs.is_current runs.executing free

pub yield-Live :
    {z : Ptr} (s : Kernel)
    → Live z (view s)
    → (current s).is_i_process ≡ false
    → Live z (view (k_release_processor s).1)
unfolding k_release_processor
yield-Live {z} s l process =
    let me = caller l process in
    let rank = l.calm.ranked s.current_process me.known in
    let q = queue s.ready_pq rank.level in
    let pcbs : Pcbs = update s.pcbs s.current_process (with_state p_ready (current s)) in
    let sched =
      enqueue-IsSched l.calm.sched s.ready_pq pcbs s.current_process rank.level l.calm.sched.ready
        (l.calm.placed s.current_process me.known) me.queued rank.at rank.below
        (λ a d. ground arith)
        (inl (
          rw (==_refl s.current_process)
            (with_state-Waits s.ready_pq p_ready rank.level (current s) rank.below rank.at))) in
    switch-Live p_ready s _ (behind l.queues q s.current_process) l.calm me.free_to_switch sched
      (has-behind (Known (view s)) l.queues q s.current_process l.calm.members me.known)
      (elim l.idle [
        | inr r ↦ Ready-behind l.queues q s.current_process r
        | inl e ↦ record {
          level = rank.level;
          below = rank.below;
          queued =
              let is : z ≡ s.current_process = sym (me.is_who ∙ e) in
              rw (==_refl q) (ground (arith, is, has-append_one z s.current_process (l.queues q)));
        }
      ])

-- The null process is ready while another one runs.
ready_of_other : {z : Ptr} {v : View} (l : Live z v) → l.who ≢ z → Ready z v l.queues
ready_of_other l d = elim l.idle [ inl e ↦ absurd (d e) | inr r ↦ r ]

pub receive-Live :
    {z : Ptr} (s : Kernel)
    → Live z (view s)
    → s.current_process ≢ z
    → Live z (view (k_receive_message s).1)
unfolding k_receive_message
receive-Live {z} s l other =
    elim (Bool-cases (truthy (MsgEnvQueue.is_empty (current s).recv_msgs s.mail))) [
      | inr full ↦ rw full l
      | inl empty ↦ elim (Bool-cases (current s).is_i_process) [
        | inl i_process ↦ rw (empty, i_process) l
        | inr process ↦
            let me = caller l process in
            let pcbs : Pcbs =
              update s.pcbs s.current_process (with_state p_blocked_on_receive (current s)) in
            rw (empty, process)
              (switch-Live p_blocked_on_receive s s.procs l.queues l.calm me.free_to_switch
                (change-IsSched l.calm.sched pcbs s.current_process me.queued λ a d. ground arith)
                l.calm.members (ready_of_other l (λ e. other (me.is_who ∙ e))))
      ]
    ]

take-Live : {z : Ptr} (q : Ptr) (s : Kernel) → Live z (view s) → Live z (view (take_envelope q s).1)
unfolding take_envelope
take-Live {z} q s l =
    let s' = set_pcb s.current_process owns_more s in
    stay-Live l s.procs s'.pcbs l.queues
      (relabel-IsSched l.calm.sched s'.pcbs (λ a. ground arith) (λ a. ground arith))
      (record { priority = λ a. ground arith; i_process = λ a. ground arith }) (ground arith)
      l.calm.members (λ r. r)

pub request-Live :
    {z : Ptr} (s : Kernel)
    → Live z (view s)
    → s.current_process ≢ z
    → Live z (view (k_request_msg_env s).1)
unfolding k_request_msg_env
request-Live {z} s l other = elim (Bool-cases (truthy (MsgEnvQueue.is_empty s.free_env_q s.mail))) [
  | inr full ↦ rw full (take-Live s.free_env_q s l)
  | inl empty ↦ elim (Bool-cases (current s).is_i_process) [
    | inl i_process ↦ elim (Bool-cases (truthy (MsgEnvQueue.is_empty s.sys_free_env_q s.mail))) [
      | inl sys ↦ rw (empty, i_process, sys) l
      | inr sys ↦ rw (empty, i_process, sys) (take-Live s.sys_free_env_q s l)
    ]
    | inr process ↦
        let me = caller l process in
        let h = l.calm.sched in
        let b = s.blocked_request_env_pq in
        let rank = l.calm.ranked s.current_process me.known in
        let low = rank.low other in
        let q = queue b rank.level in
        let pcbs : Pcbs =
          update s.pcbs s.current_process (with_state p_blocked_on_env_request (current s)) in
        let sched =
          enqueue-IsSched h b pcbs s.current_process rank.level h.blocked
            (l.calm.placed s.current_process me.known) me.queued rank.at low (λ a d. ground arith)
            (inr (
              rw (==_refl s.current_process) (
                with_state-Waits b p_blocked_on_env_request rank.level (current s) low rank.at))) in
        rw (empty, process)
          (switch-Live p_blocked_on_env_request s _ (behind l.queues q s.current_process) l.calm
            me.free_to_switch sched
            (has-behind (Known (view s)) l.queues q s.current_process l.calm.members me.known)
            (Ready-behind l.queues q s.current_process
              (ready_of_other l (λ e. other (me.is_who ∙ e)))))
  ]
]
