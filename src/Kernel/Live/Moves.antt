-- ===== src/Kernel/Live/Moves.antt =====
-- What a primitive of k_primitives.c may do to the processes: change the queues while the same process
-- runs, or give the processor to the next ready process.
use rtx.Base.{
  ℕ, ◌<◌, ◌≡◌, ◌≢◌, ◌⊎◌, inl, inr, refl, ◌∙◌, true, List, [], ◌∷◌, ◌++◌, has, arith, ==_cases,
  ==_of_ne, has-append_one,
}
use rtx.Rtx.{ProcessState, p_executing}
use rtx.Links.{Ptr, null, Queues}
use rtx.Links.Contents.{Contents, put}
use rtx.Process.{Pcbs}
use rtx.ProcPq.Refines.{queue}
use rtx.Kernel.{Kernel}
use rtx.Kernel.Switch.{k_process_switch, k_context_switch}
use rtx.Kernel.Sched.{IsSched, IsNext}
use rtx.Kernel.Live.{View, Known, Calm, Ready, Live}

-- A process at the end of a queue.
abbrev pub behind : Contents → Ptr → Ptr → Contents
behind c q p = put c q (c q ++ p ∷ [])

-- What holds of every process in a queue.
pub has-put :
    (P : Ptr → Type 0) (c : Contents) (q : Ptr) (ys : List Ptr)
    → ((r a : Ptr) → has a (c r) ≡ true → P a)
    → ((a : Ptr) → has a ys ≡ true → P a)
    → (r a : Ptr) → has a (put c q ys r) ≡ true
    → P a
has-put P c q ys old new r a i = elim (==_cases r q) [
  | inr (e, d) ↦ old r a (rw e at i)
  | inl (e, eq) ↦ new a (rw e at i)
]

pub has-behind :
    (P : Ptr → Type 0) (c : Contents) (q p : Ptr)
    → ((r a : Ptr) → has a (c r) ≡ true → P a)
    → P p
    → (r a : Ptr) → has a (behind c q p r) ≡ true
    → P a
has-behind P c q p old new = has-put P c q (c q ++ p ∷ []) old λ a i. elim (==_cases a p) [
  | inl (e, eq) ↦ rw eq new
  | inr (e, d) ↦ old q a (ground (arith, has-append_one a p (c q)))
]

-- The null process stays ready.
module _ {z : Ptr} {v : View} (c : Contents) where
  pub Ready-behind : (q p : Ptr) → Ready z v c → Ready z v (behind c q p)
  Ready-behind q p r = record {
    level = r.level;
    below = r.below;
    queued = elim (==_cases (queue v.ready_pq r.level) q) [
      | inr (e, d) ↦ rw e r.queued
      | inl (e, eq) ↦
          let i : has z (c q) ≡ true = rw eq at r.queued in
          rw e (ground (arith, has-append_one z p (c q)))
    ];
  }

  pub Ready-away :
      (q : Ptr) (ys : List Ptr)
      → ((i : ℕ) → i < v.ready_pq.num_priorities → queue v.ready_pq i ≢ q)
      → Ready z v c
      → Ready z v (put c q ys)
  Ready-away q ys away r = record {
    level = r.level;
    below = r.below;
    queued = rw (==_of_ne (away r.level r.below)) r.queued;
  }

-- Priorities, and which processes are i-processes, stay as they are.
pub record Same (pcbs' pcbs : Pcbs) : Type 0 where
  pub priority : (a : Ptr) → (pcbs' a).priority ≡ (pcbs a).priority
  pub i_process : (a : Ptr) → (pcbs' a).is_i_process ≡ (pcbs a).is_i_process

module _ {z : Ptr} {v : View} {c : Contents} (h : Calm z v c) where
  pub move-Calm :
      (procs' : Queues) (pcbs' : Pcbs) (c' : Contents) (current interrupted : Ptr)
      → IsSched procs' pcbs' v.ready_pq v.blocked_pq c'
      → Same pcbs' v.pcbs
      → ((q p : Ptr) → has p (c' q) ≡ true → Known v p)
      → Calm z
          (record v {
            procs = procs';
            pcbs = pcbs';
            current_process = current;
            interrupted_process = interrupted;
          })
          c'
  move-Calm procs' pcbs' c' current interrupted sched same members = record {
    sched = sched;
    members =
        λ q p i. let k = members q p i in record { index = k.index; within = k.within; at = k.at };
    ranked = λ p k.
        let r = h.ranked p (record { index = k.index; within = k.within; at = k.at }) in
        record { level = r.level; at = same.priority p ∙ r.at; below = r.below; low = r.low };
    placed = λ p k. h.placed p (record { index = k.index; within = k.within; at = k.at });
    fits = h.fits;
  }

-- The same process runs on.
pub stay-Live :
    {z : Ptr} {v : View} (l : Live z v) (procs' : Queues) (pcbs' : Pcbs) (c' : Contents)
    → IsSched procs' pcbs' v.ready_pq v.blocked_pq c'
    → Same pcbs' v.pcbs
    → (pcbs' l.who).state ≡ (v.pcbs l.who).state
    → ((q p : Ptr) → has p (c' q) ≡ true → Known v p)
    → (Ready z v l.queues → Ready z v c')
    → Live z (record v { procs = procs'; pcbs = pcbs' })
stay-Live {z} {v} l procs' pcbs' c' sched same still members idle = record {
  queues = c';
  calm =
      move-Calm l.calm procs' pcbs' c' v.current_process v.interrupted_process sched same members;
  who = l.who;
  known = record { index = l.known.index; within = l.known.within; at = l.known.at };
  executing = still ∙ l.executing;
  turn = elim l.turn [ inl t ↦ inl t | inr (i, p) ↦ inr (i, same.i_process v.current_process ∙ p) ];
  idle = elim l.idle [
    | inl e ↦ inl e
    | inr r ↦
        let r' = idle r in inr (record { level = r'.level; below = r'.below; queued = r'.queued })
  ];
}

-- An i-process takes the processor, or gives it back.
pub turn-Live :
    {z : Ptr} {v : View} (l : Live z v) (current interrupted : Ptr)
    → ((interrupted ≡ null) × (current ≡ l.who))
      ⊎ ((interrupted ≡ l.who) × ((v.pcbs current).is_i_process ≡ true))
    → Live z (record v { current_process = current; interrupted_process = interrupted })
turn-Live {z} {v} l current interrupted turn = record {
  queues = l.queues;
  calm =
      move-Calm l.calm v.procs v.pcbs l.queues current interrupted l.calm.sched
        (record { priority = λ a. refl; i_process = λ a. refl }) l.calm.members;
  who = l.who;
  known = record { index = l.known.index; within = l.known.within; at = l.known.at };
  executing = l.executing;
  turn = turn;
  idle = elim l.idle [
    | inl e ↦ inl e
    | inr r ↦ inr (record { level = r.level; below = r.below; queued = r.queued })
  ];
}

-- The next ready process `x` runs, where the null process is among those that are ready.
pub next-Live :
    {z : Ptr} {v : View} {c₀ : Contents} (h : Calm z v c₀) (c : Contents) (procs' : Queues)
    (pcbs' : Pcbs) (k : ℕ) (x current : Ptr) (xs : List Ptr)
    → IsNext v.ready_pq c k x xs
    → ((q p : Ptr) → has p (c q) ≡ true → Known v p)
    → Ready z v c
    → IsSched procs' pcbs' v.ready_pq v.blocked_pq (put c (queue v.ready_pq k) xs)
    → Same pcbs' v.pcbs
    → current ≡ x
    → (pcbs' current).state ≡ p_executing
    → v.interrupted_process ≡ null
    → Live z (record v { procs = procs'; pcbs = pcbs'; current_process = current })
next-Live {z} {v} h c procs' pcbs' k x current xs n members ready sched same is runs free = record {
  queues = put c (queue v.ready_pq k) xs;
  calm =
      move-Calm h procs' pcbs' (put c (queue v.ready_pq k) xs) current v.interrupted_process sched
        same
        (λ q p i. elim (==_cases q (queue v.ready_pq k)) [
          | inl (e, eq) ↦
              let i' : has p xs ≡ true = rw e at i in
              members (queue v.ready_pq k) p (rw n.full (ground arith))
          | inr (e, d) ↦ members q p (rw e at i)
        ]);
  who = current;
  known =
      let m = members (queue v.ready_pq k) x (rw n.full (ground arith)) in
      record { index = m.index; within = m.within; at = is ∙ m.at };
  executing = runs;
  turn = inl (free, refl);
  idle = elim (==_cases x z) [
    | inl (e, eq) ↦ inl (is ∙ eq)
    | inr (e, d) ↦ inr (record {
      level = ready.level;
      below = ready.below;
      queued = elim (==_cases (queue v.ready_pq ready.level) (queue v.ready_pq k)) [
        | inl (e', eq') ↦
            let i : has z (c (queue v.ready_pq k)) ≡ true = rw eq' at ready.queued in
            let i' : has z (x ∷ xs) ≡ true = rw n.full at i in rw e' (ground arith)
        | inr (e', d') ↦ rw e' ready.queued
      ];
    })
  ];
}

-- A switch changes states, and marks a process that has run.
pub switch-Same : (t : ProcessState) (s : Kernel) → Same (k_process_switch t s).pcbs s.pcbs
unfolding k_process_switch k_context_switch
switch-Same t s = record { priority = λ a. ground arith; i_process = λ a. ground arith }
