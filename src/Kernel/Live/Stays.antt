-- ===== src/Kernel/Live/Stays.antt =====
-- Primitives after which the same process runs on; `k_send_message` is one of them.
use rtx.Base.{
  ℕ, zero, suc, ◌+◌, ◌≤◌, ◌≡◌, ◌≢◌, inl, inr, refl, sym, ap, subst, ◌∙◌, true, has, arith, ==_cases,
  Bool-cases,
}
use rtx.Base.Int.{ℤ, pos, eqb_ℤ}
use rtx.Rtx.{ProcessState, p_executing, p_blocked_on_receive}
use rtx.Links.{Ptr, null}
use rtx.Links.Contents.{Contents}
use rtx.Process.{Pcbs}
use rtx.ProcPq.Refines.{queue}
use rtx.Kernel.{Kernel}
use rtx.Kernel.Table.{entry, get_process_loop, k_get_process}
use rtx.Kernel.Primitives.{no_envelope, make_ready, wake_if_blocked, wake_receiver, k_send_message}
use rtx.Kernel.Send.{posted, send_null, send_unknown, send_posted}
use rtx.Kernel.Sched.{Sched, IsSched}
use rtx.Kernel.Sched.Moves.{relabel-IsSched}
use rtx.Kernel.Sched.Wake.{wake-Sched}
use rtx.Kernel.Live.{view, Known, Ready, Live}
use rtx.Kernel.Live.Moves.{Same, stay-Live, behind, has-behind, Ready-behind}

-- The rest of what is about processes is as it was.
pub record Stays (s s' : Kernel) : Type 0 where
  pub rest : view s' ≡ record (view s) { procs = s'.procs; pcbs = s'.pcbs }
  pub same : Same s'.pcbs s.pcbs

get_process_loop-Known :
    (left i : ℕ) (pid : ℤ) (s : Kernel)
    → i + left ≤ s.num_processes
    → get_process_loop left i pid s ≢ null
    → Known (view s) (get_process_loop left i pid s)
unfolding get_process_loop
get_process_loop-Known zero i pid s fits found = absurd (found refl)
get_process_loop-Known (suc left) i pid s fits found =
    elim (Bool-cases (eqb_ℤ (s.pcbs (entry s i)).pid pid)) [
      | inl e ↦ rw e (record { index = i; within = omega arith; at = refl })
      | inr e ↦
          let found' : get_process_loop left (i + 1) pid s ≢ null = rw e at found in
          rw e (get_process_loop-Known left (i + 1) pid s (omega arith) found')
    ]

pub k_get_process-Known :
    (pid : ℤ) (s : Kernel) → k_get_process pid s ≢ null → Known (view s) (k_get_process pid s)
unfolding k_get_process
k_get_process-Known pid s found = get_process_loop-Known s.num_processes 0 pid s (omega arith) found

wake-Stays : (st : ProcessState) (p : Ptr) (s : Kernel) → Stays s (wake_if_blocked st p s)
unfolding wake_if_blocked make_ready
wake-Stays p_blocked_on_receive p s = record {
  rest = refl;
  same = record { priority = λ a. ground arith; i_process = λ a. ground arith };
}
wake-Stays _ p s = record {
  rest = refl;
  same = record { priority = λ a. refl; i_process = λ a. refl };
}

-- A process that executes is not woken.
wake-executing :
    (st : ProcessState) (p a : Ptr) (s : Kernel)
    → (s.pcbs p).state ≡ st
    → (s.pcbs a).state ≡ p_executing
    → ((wake_if_blocked st p s).pcbs a).state ≡ p_executing
unfolding wake_if_blocked make_ready
wake-executing p_blocked_on_receive p a s is runs = elim (==_cases a p) [
  | inl (e, eq) ↦ absurd (ground (arith, eq))
  | inr (e, d) ↦ rw e runs
]
wake-executing _ p a s is runs = runs

module _ {z : Ptr} {s s' : Kernel} (l : Live z (view s)) (t : Stays s s') where
  -- `stay-Live`, for the kernel after the call.
  pub stays-Live :
      (c' : Contents)
      → Sched s' c'
      → (s'.pcbs l.who).state ≡ p_executing
      → ((q p : Ptr) → has p (c' q) ≡ true → Known (view s) p)
      → (Ready z (view s) l.queues → Ready z (view s) c')
      → Live z (view s')
  stays-Live c' sched runs members idle =
      let same_ready : s'.ready_pq ≡ s.ready_pq = ap (λ v. v.ready_pq) t.rest in
      let same_blocked : s'.blocked_request_env_pq ≡ s.blocked_request_env_pq =
        ap (λ v. v.blocked_pq) t.rest in
      let sched' : IsSched s'.procs s'.pcbs s.ready_pq s.blocked_request_env_pq c' =
        subst (λ r. IsSched s'.procs s'.pcbs r s.blocked_request_env_pq c') same_ready
          (subst (λ b. IsSched s'.procs s'.pcbs s'.ready_pq b c') same_blocked sched) in
      subst (Live z) (sym t.rest)
        (stay-Live l s'.procs s'.pcbs c' sched' t.same (runs ∙ sym l.executing) members idle)

Same-trans : {p q r : Pcbs} → Same p q → Same q r → Same p r
Same-trans h k = record {
  priority = λ a. h.priority a ∙ k.priority a;
  i_process = λ a. h.i_process a ∙ k.i_process a;
}

pub send-Live :
    {z : Ptr} (pid : ℤ) (e : Ptr) (s : Kernel)
    → Live z (view s)
    → Live z (view (k_send_message pid e s).1)
unfolding wake_receiver
send-Live {z} pid e s l = elim (Bool-cases (no_envelope e s)) [
  | inl missing ↦ subst (λ r. Live z (view r.1)) (sym (send_null pid e s missing)) l
  | inr there ↦ elim (==_cases (k_get_process pid s) null) [
    | inl (b, unknown) ↦ subst (λ r. Live z (view r.1)) (sym (send_unknown pid e s there unknown)) l
    | inr (b, found) ↦
        let p = k_get_process pid s in
        let s₁ = posted pid e s in
        let st = (s₁.pcbs p).state in
        let s₂ = wake_if_blocked st p s₁ in
        let known = k_get_process-Known pid s found in
        let rank = l.calm.ranked p known in
        let w = wake-Stays st p s₁ in
        let same : Same s₁.pcbs s.pcbs = record {
          priority = λ a. ground arith;
          i_process = λ a. ground arith;
        } in
        let runs₁ : (s₁.pcbs l.who).state ≡ p_executing = ground (arith, l.executing) in
        let runs : (s₂.pcbs l.who).state ≡ p_executing = wake-executing st p l.who s₁ refl runs₁ in
        let stays : Stays s s₂ = record { rest = w.rest; same = Same-trans w.same same } in
        let relabelled =
          relabel-IsSched l.calm.sched s₁.pcbs (λ a. ground arith) (λ a. ground arith) in
        let at : (s₁.pcbs p).priority ≡ pos rank.level = same.priority p ∙ rank.at in
        subst (λ r. Live z (view r.1)) (sym (send_posted pid e s there found))
          (elim (wake-Sched st s₁ l.queues p rank.level refl relabelled found at rank.below) [
            | inl (blocked, sched, ready) ↦
                let q = queue s.ready_pq rank.level in
                stays-Live l stays (behind l.queues q p) sched runs
                  (has-behind (Known (view s)) l.queues q p l.calm.members known)
                  (Ready-behind l.queues q p)
            | inr (other, sched, kept) ↦
                stays-Live l stays l.queues sched runs l.calm.members (λ r. r)
          ])
  ]
]
