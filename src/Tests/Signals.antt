-- ===== src/Tests/Signals.antt =====
-- The theorems about the signals of the Unix port, with process 5 running and three i-processes.
use rtx.Base.{ℕ, ◌+◌, ◌≡◌, refl, false, [], ◌∷◌, ltb, if◌then◌else◌, arith}
use rtx.Links.{Ptr}
use rtx.Rtx.{p_ready, p_executing}
use rtx.Unix.{Mask, Machine, running, on, off, sigalrm, handle_signal}
use rtx.Unix.Sections.{run_calls, InSections, depth, run_calls-depth}
use rtx.Unix.Handler.{handle_signal-returns}

abbrev unblocked : Mask
unblocked _ = false

abbrev machine : Machine
machine = record {
  current_process = 15;
  interrupted_process = 0;
  flag = 0;
  pcbs = λ p. record {
    status = if ltb p 13 then p_ready else p_executing;
    is_i_process = ltb p 13;
    atomic_count = 0;
  };
  mask = unblocked;
  oldmask = unblocked;
}

run_calls-depth_example :
    (m : Machine) × (run_calls (on ∷ on ∷ off ∷ []) machine ≡ running m) × InSections unblocked 1 m
unfolding depth
run_calls-depth_example = run_calls-depth (on ∷ on ∷ off ∷ []) unblocked 0 machine (refl, refl)

-- The table starts at 10, and the code of the i-processes does nothing here.
abbrev p_table : ℕ → Ptr
p_table pid = 10 + pid

handle_signal-returns_example :
    (m : Machine) × (handle_signal p_table (λ _ pcbs. pcbs) sigalrm machine ≡ running m)
    × (m.current_process ≡ 15)
    × (m.mask ≡ unblocked)
    × (m.flag ≡ 0)
    × (m.pcbs 15 ≡ machine.pcbs 15)
    × (m.pcbs 12 ≡ record (machine.pcbs 12) { status = p_ready })
handle_signal-returns_example =
    handle_signal-returns p_table (λ _ pcbs. pcbs) sigalrm 2 machine refl refl refl refl
      (omega arith) (omega arith) (omega arith) refl (λ pcbs. refl) (λ pcbs. refl)
