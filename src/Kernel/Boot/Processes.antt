-- ===== src/Kernel/Boot/Processes.antt =====
-- The table of processes and the ready queues after `init_processes`.
use rtx.Base.{
  ℕ, suc, ◌+◌, ◌*◌, ◌<◌, ◌≡◌, ◌≢◌, inl, inr, refl, ap, sym, subst, ◌∙◌, true, false, List, [], ◌∷◌,
  has, length, arith, ==_cases, ==_of_ne, ==_refl, Bool-cases, if◌then◌else◌, some, has-append_one,
}
use rtx.Base.Int.{pos}
use rtx.Rtx.{p_ready}
use rtx.Links.{Ptr, null, Queues, set_next}
use rtx.Links.Contents.{Contents}
use rtx.Links.Moves.{IsFree}
use rtx.ProcPq
use rtx.ProcPq.Refines.{queue}
use rtx.Kernel.{Kernel}
use rtx.Kernel.Sched.{Sched, IsSched, Waits}
use rtx.Kernel.Sched.Moves.{change-IsSched, enqueue-IsSched}
use rtx.Kernel.Live.{view, Ranked, Ready}
use rtx.Kernel.Live.Moves.{behind, has-behind, Ready-behind}
use rtx.Kernel.Boot.{PcbInit, Start, init_fake_stack_frame, init_process, init_loop}
use rtx.Kernel.Boot.Pool.{free_next-Holds}

-- A row that number `i` of the table may have, where the null process is number `z`: its priority
-- is one of the four, and the last one is for the null process alone, which is no i-process.
pub record IsRow (z i : ℕ) (row : PcbInit) : Type 0 where
  pub level : ℕ
  pub at : row.priority ≡ pos level
  pub below : level < 4
  pub low : i ≢ z → level < 3
  pub process : i ≡ z → row.is_i_process ≡ false

abbrev pub Rows : (z i : ℕ) → List PcbInit → Type 0
Rows z i [] = Unit {0}
Rows z i (row ∷ rows) = IsRow z i row × Rows z (i + 1) rows

-- One of the first `i` processes of the table.
pub record Placed (table i : ℕ) (p : Ptr) : Type 0 where
  pub index : ℕ
  pub within : index < i
  pub at : p ≡ table + index * 52

-- The first `i` processes are in the table, and those that are no i-processes are ready.
pub record Loaded (table n z i : ℕ) (s : Kernel) : Type 0 where
  pub p_table : s.p_table ≡ table
  pub num_processes : s.num_processes ≡ n
  pub interrupted : s.interrupted_process ≡ null
  pub queues : Contents
  pub sched : Sched s queues
  pub num_ready : s.ready_pq.num_priorities ≡ 4
  pub num_blocked : s.blocked_request_env_pq.num_priorities ≡ 3
  pub members : (q p : Ptr) → has p (queues q) ≡ true → Placed table i p
  pub ranked : (p : Ptr) → Placed table i p → Ranked (table + z * 52) (view s) p
  pub idle : z < i → Ready (table + z * 52) (view s) queues

Placed-suc : {table i : ℕ} {p : Ptr} → Placed table i p → Placed table (i + 1) p
Placed-suc k = record { index = k.index; within = omega (arith, k.within); at = k.at }

module _ (table n z i : ℕ) (row : PcbInit) (t : Start) (l : Loaded table n z i t.kernel)
    (ok : IsRow z i row) (placed : table ≢ null) where
  abbrev process : Ptr
  process = table + i * 52

  abbrev s : Kernel
  s = t.kernel

  abbrev s' : Kernel
  s' = (init_process i process row t).kernel

  fresh-IsFree : IsFree process l.queues
  fresh-IsFree q = elim (Bool-cases (has process (l.queues q))) [
    | inr out ↦ out
    | inl i ↦ let k = l.members q process i in absurd (omega (arith, k.at, k.within))
  ]

  new_pcb :
      ((s'.pcbs process).priority ≡ row.priority)
      × ((s'.pcbs process).state ≡ p_ready)
      × ((a : Ptr) → a ≢ process → s'.pcbs a ≡ s.pcbs a)
  unfolding init_process init_fake_stack_frame
  new_pcb = (rw (==_refl process) refl, rw (==_refl process) refl, λ a d. rw (==_of_ne d) refl)

  -- The control block is written, and its link is cleared.
  written :
      IsSched (set_next process null s.procs) s'.pcbs s.ready_pq s.blocked_request_env_pq l.queues
  written =
      let h = change-IsSched l.sched s'.pcbs process fresh-IsFree (new_pcb.2) in
      record {
        holds = free_next-Holds h.holds process fresh-IsFree;
        ready = h.ready;
        blocked = h.blocked;
        apart = h.apart;
        waits = h.waits;
      }

  -- It has its priority.
  ranked : (p : Ptr) → Placed table (i + 1) p → Ranked (table + z * 52) (view s') p
  unfolding init_process
  ranked p k = elim (==_cases p process) [
    | inl (e, eq) ↦ record {
      level = ok.level;
      at = rw eq (new_pcb.0 ∙ ok.at);
      below = omega (arith, ok.below, l.num_ready);
      low = λ d.
          let other : i ≢ z = λ j. d (eq ∙ ap (λ k. table + k * 52) j) in
          omega (arith, ok.low other, l.num_blocked);
    }
    | inr (e, d) ↦
        let before : k.index ≢ i = λ j. d (k.at ∙ ap (λ n. table + n * 52) j) in
        let r =
          l.ranked p
            (record { index = k.index; within = omega (arith, k.within, before); at = k.at }) in
        record {
          level = r.level;
          at = ap (λ x. x.priority) (new_pcb.2 p d) ∙ r.at;
          below = r.below;
          low = r.low;
        }
  ]

  abbrev cleared : Queues
  cleared = set_next process null s.procs

  not_queued : row.is_i_process ≡ true → s'.procs ≡ cleared
  unfolding init_process
  not_queued e =
      ap (λ b. if b then cleared else (ProcPq.enqueue (some s.ready_pq) process s'.pcbs cleared).1)
        e

  queued :
      row.is_i_process ≡ false
      → s'.procs ≡ (ProcPq.enqueue (some s.ready_pq) process s'.pcbs cleared).1
  unfolding init_process
  queued e =
      ap (λ b. if b then cleared else (ProcPq.enqueue (some s.ready_pq) process s'.pcbs cleared).1)
        e

  pub init_process-Loaded : Loaded table n z (i + 1) s'
  unfolding init_process
  init_process-Loaded = elim (Bool-cases row.is_i_process) [
    | inl i_process ↦ record {
      queues = l.queues;
      sched =
          subst (λ ps. IsSched ps s'.pcbs s.ready_pq s.blocked_request_env_pq l.queues)
            (sym (not_queued i_process)) written;
      p_table = l.p_table;
      num_processes = l.num_processes;
      interrupted = l.interrupted;
      num_ready = l.num_ready;
      num_blocked = l.num_blocked;
      members = λ q p m. Placed-suc (l.members q p m);
      ranked = ranked;
      idle = λ below.
          let other : i ≢ z = λ j. ground (arith, ok.process j) in
          let r = l.idle (omega arith) in
          record { level = r.level; below = r.below; queued = r.queued };
    }
    | inr process_row ↦
        let q = queue s.ready_pq ok.level in
        let below : ok.level < s.ready_pq.num_priorities = omega (arith, ok.below, l.num_ready) in
        let at : (s'.pcbs process).priority ≡ pos ok.level = new_pcb.0 ∙ ok.at in
        let side : Waits s.ready_pq p_ready q (s'.pcbs process) = record {
          level = ok.level;
          within = below;
          here = refl;
          state = new_pcb.1;
          priority = at;
        } in
        let ne : process ≢ null = omega arith in
        let enqueued =
          enqueue-IsSched written s.ready_pq s'.pcbs process ok.level written.ready ne fresh-IsFree
            at below (λ a d. refl) (inl side) in
        record {
          queues = behind l.queues q process;
          sched =
              subst
                (λ ps.
                  IsSched ps s'.pcbs s.ready_pq s.blocked_request_env_pq
                    (behind l.queues q process))
                (sym (queued process_row)) enqueued;
          p_table = l.p_table;
          num_processes = l.num_processes;
          interrupted = l.interrupted;
          num_ready = l.num_ready;
          num_blocked = l.num_blocked;
          members =
              has-behind (Placed table (i + 1)) l.queues q process
                (λ r p m. Placed-suc (l.members r p m))
                (record { index = i; within = omega arith; at = refl });
          ranked = ranked;
          idle = λ last. elim (==_cases z i) [
            | inl (e, eq) ↦ record {
              level = ok.level;
              below = below;
              queued =
                  let same : table + z * 52 ≡ process = ap (λ j. table + j * 52) eq in
                  rw (same, ==_refl q)
                    (ground (arith, has-append_one process process (l.queues q)));
            }
            | inr (e, d) ↦
                let r = Ready-behind l.queues q process (l.idle (omega arith)) in
                record { level = r.level; below = r.below; queued = r.queued }
          ];
        }
  ]

pub init_loop-Loaded :
    (table n z i : ℕ) (rows : List PcbInit) (t : Start)
    → table ≢ null
    → Loaded table n z i t.kernel
    → Rows z i rows
    → Loaded table n z (i + length rows) (init_loop i (table + i * 52) rows t).kernel
unfolding init_loop
init_loop-Loaded table n z i [] t ne l ok =
    let same : i ≡ i + 0 = omega arith in subst (λ k. Loaded table n z k t.kernel) same l
init_loop-Loaded table n z i (row ∷ rows) t ne l (here, rest) =
    let t' = init_process i (table + i * 52) row t in
    let all =
      init_loop-Loaded table n z (i + 1) rows t' ne
        (init_process-Loaded table n z i row t l here ne) rest in
    let at : table + (i + 1) * 52 ≡ table + i * 52 + 52 = omega arith in
    let count : i + 1 + length rows ≡ i + suc (length rows) = omega arith in
    subst (λ k. Loaded table n z k (init_loop (i + 1) (table + i * 52 + 52) rows t').kernel) count
      (subst (λ a. Loaded table n z (i + 1 + length rows) (init_loop (i + 1) a rows t').kernel) at
        all)
