-- ===== src/Kernel/Boot/First.antt =====
-- The end of `k_init`, which takes the first process out of the ready queues.
use rtx.Base.{ℕ, ◌+◌, ◌*◌, ◌<◌, ◌≡◌, ◌≢◌, refl, arith}
use rtx.Links.{Ptr, null}
use rtx.Kernel.{Kernel}
use rtx.Kernel.Switch.{k_context_switch}
use rtx.Kernel.Sched.Moves.{dequeue_next}
use rtx.Kernel.Sched.Yield.{IsNext-of_has}
use rtx.Kernel.Live.{view, Known, Calm, Live}
use rtx.Kernel.Live.Moves.{next-Live}
use rtx.Kernel.Boot.{start_first}
use rtx.Kernel.Boot.Processes.{Placed, Loaded}

module _ (table n z : ℕ) (s : Kernel) (l : Loaded table n z n s) (placed : table ≢ null)
    (in_table : z < n) where
  Placed-of_Known : (p : Ptr) → Known (view s) p → Placed table n p
  Placed-of_Known p k = record {
    index = k.index;
    within = omega (arith, k.within, l.num_processes);
    at = omega (arith, k.at, l.p_table);
  }

  calm : Calm (table + z * 52) (view s) l.queues
  calm = record {
    sched = l.sched;
    members = λ q p i.
        let k = l.members q p i in
        record {
          index = k.index;
          within = omega (arith, k.within, l.num_processes);
          at = omega (arith, k.at, l.p_table);
        };
    ranked = λ p k. l.ranked p (Placed-of_Known p k);
    placed = λ p k. omega (arith, k.at, l.p_table);
    fits = omega (arith, l.num_ready, l.num_blocked);
  }

  pub start_first-Live : Live (table + z * 52) (view (start_first s))
  unfolding start_first k_context_switch
  start_first-Live =
      let ready = l.idle in_table in
      let (k, x, xs, next) =
        IsNext-of_has s l.queues (table + z * 52) ready.level ready.below ready.queued in
      let s' = start_first s in
      let h = l.sched in
      let (first, same) = dequeue_next h s.ready_pq h.ready k x xs next s.pcbs λ a d. refl in
      let others : (a : Ptr) → a ≢ x → s'.pcbs a ≡ s.pcbs a = λ a d. ground (arith, first) in
      next-Live calm l.queues s'.procs s'.pcbs k x s'.current_process xs next calm.members ready
        (dequeue_next h s.ready_pq h.ready k x xs next s'.pcbs others).1
        (record { priority = λ a. ground arith; i_process = λ a. ground arith }) first
        (ground arith) l.interrupted
