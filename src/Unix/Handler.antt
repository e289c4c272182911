-- ===== src/Unix/Handler.antt =====
-- A signal that starts an i-process.
use rtx.Base.{ℕ, ◌≡◌, ◌≢◌, refl, ap, sym, ◌∙◌, some, ==_refl, ==_of_ne, true}
use rtx.Links.{Ptr, null, update}
use rtx.Rtx.{ProcessState, p_ready, p_executing, p_interrupted}
use rtx.Unix.{
  Pcb, Machine, running, Signal, i_process_pid, on, off, blocked, open_sections, set_count,
  decrement, atomic, i_process_entered, k_i_process_enter, k_i_process_exit, handle_signal,
}

update-same : (f : Ptr → Pcb) (p : Ptr) (x : Pcb) → update f p x p ≡ x
update-same f p x = rw (==_refl p) refl

update-other : (f : Ptr → Pcb) (p q : Ptr) (x : Pcb) → q ≢ p → update f p x q ≡ f q
update-other f p q x ne = rw (==_of_ne ne) refl

abbrev with_status : ProcessState → Pcb → Pcb
with_status status x = record x { status = status }

abbrev with_count : ℕ → Pcb → Pcb
with_count n x = record x { atomic_count = n }

-- The machine when the i-process at `i` has given the processor back to the process at `c`.
abbrev after_i_process : (code : (Ptr → Pcb) → Ptr → Pcb) → (i : Ptr) → Machine → Machine
after_i_process code i m =
    let run = code (i_process_entered i m).pcbs in
    record m {
      flag = 0;
      interrupted_process = null;
      pcbs =
          update (update run i (record (run i) { status = p_ready })) m.current_process
            (record (update run i (record (run i) { status = p_ready }) m.current_process) {
              status = p_executing;
            });
    }

enter-returns :
    (code : (Ptr → Pcb) → Ptr → Pcb) (i : Ptr) (m : Machine)
    → m.flag ≡ 0
    → i ≢ null
    → m.current_process ≢ null
    → (m.pcbs i).is_i_process ≡ true
    → k_i_process_enter code i m ≡ running (after_i_process code i m)
unfolding k_i_process_enter k_i_process_exit
enter-returns code i m idle i_ne c_ne is_i = rw (idle, ==_of_ne i_ne, is_i, ==_of_ne c_ne) refl

interrupted-returns :
    (code : (Ptr → Pcb) → Ptr → Pcb) (i : Ptr) (m : Machine)
    → m.current_process ≢ i
    → ((pcbs : Ptr → Pcb) → code pcbs m.current_process ≡ pcbs m.current_process)
    → (after_i_process code i m).pcbs m.current_process
      ≡ record (m.pcbs m.current_process) { status = p_executing }
interrupted-returns code i m ne keeps =
    let c = m.current_process in
    rw (==_refl c, ==_of_ne ne, keeps (i_process_entered i m).pcbs)
      (rw (==_of_ne ne, ==_refl c) refl)

i_process-returns :
    (code : (Ptr → Pcb) → Ptr → Pcb) (i : Ptr) (m : Machine)
    → m.current_process ≢ i
    → ((pcbs : Ptr → Pcb) → code pcbs i ≡ pcbs i)
    → (after_i_process code i m).pcbs i ≡ record (m.pcbs i) { status = p_ready }
i_process-returns code i m ne keeps =
    let c = m.current_process in
    let ne' : i ≢ c = λ e. ne (sym e) in
    let running_i : Pcb =
      with_status p_executing (update m.pcbs c (with_status p_interrupted (m.pcbs c)) i) in
    let run : Ptr → Pcb = code (i_process_entered i m).pcbs in
    let put_back : Ptr → Pcb = update run i (with_status p_ready (run i)) in
    update-other put_back c i (with_status p_executing (put_back c)) ne'
    ∙ (update-same run i (with_status p_ready (run i))
        ∙ ap (with_status p_ready) (
            keeps (i_process_entered i m).pcbs
            ∙ (update-same (update m.pcbs c (with_status p_interrupted (m.pcbs c))) i running_i
                ∙ ap (with_status p_executing)
                    (update-other m.pcbs c i (with_status p_interrupted (m.pcbs c)) ne'))))

unsectioned :
    (x : Pcb)
    → x.status ≡ p_executing
    → x.atomic_count ≡ 0
    → record x { status = p_executing; atomic_count = 0 } ≡ x
unsectioned x runs none_open =
    ap (λ s. record x { status = s; atomic_count = 0 }) (sym runs)
    ∙ ap (λ n. record x { atomic_count = n }) (sym none_open)

-- In the first section, and out of the last one.
abbrev opened : Machine → Machine
opened m = record (set_count 1 m) { mask = blocked m.mask; oldmask = m.mask }

atomic_on-first : (m : Machine) → open_sections m ≡ 0 → atomic on m ≡ running (opened m)
unfolding atomic
atomic_on-first m free = rw free refl

atomic_off-last :
    (m : Machine)
    → open_sections m ≡ 1
    → atomic off m ≡ running (record (set_count 0 m) { mask = m.oldmask })
unfolding atomic
atomic_off-last m one = ap (λ n. decrement n m) one

-- In the Unix port, a signal that starts an i-process comes while another process executes, which
-- is in no section of `atomic`, and no i-process runs; the table has an i-process at that pid,
-- whose code ends by `k_i_process_exit` and leaves its own control block and that of the
-- interrupted process as they are. Then the handler returns with the interrupted process as the
-- current one, its control block as it was, the signal mask as it was and the flag reset; and the
-- control block of the i-process is as it was, but for its state, which is ready.
pub handle_signal-returns :
    (p_table : ℕ → Ptr) (code : ℕ → (Ptr → Pcb) → Ptr → Pcb) (sig_num : Signal) (pid : ℕ)
    (m : Machine)
    → i_process_pid sig_num ≡ some pid
    → m.flag ≡ 0
    → open_sections m ≡ 0
    → (m.pcbs m.current_process).status ≡ p_executing
    → m.current_process ≢ null
    → m.current_process ≢ p_table pid
    → p_table pid ≢ null
    → (m.pcbs (p_table pid)).is_i_process ≡ true
    → ((pcbs : Ptr → Pcb) → code pid pcbs m.current_process ≡ pcbs m.current_process)
    → ((pcbs : Ptr → Pcb) → code pid pcbs (p_table pid) ≡ pcbs (p_table pid))
    → (m' : Machine) × (handle_signal p_table code sig_num m ≡ running m')
      × (m'.current_process ≡ m.current_process)
      × (m'.mask ≡ m.mask)
      × (m'.flag ≡ 0)
      × (m'.pcbs m.current_process ≡ m.pcbs m.current_process)
      × (m'.pcbs (p_table pid) ≡ record (m.pcbs (p_table pid)) { status = p_ready })
unfolding handle_signal
handle_signal-returns p_table code sig_num pid m starts idle free runs c_ne other i_ne is_i keeps
      keeps' =
    let c = m.current_process in
    let i = p_table pid in
    let m₁ = opened m in
    let m₂ = after_i_process (code pid) i m₁ in
    let other' : i ≢ c = λ e. other (sym e) in
    let section : Pcb = with_count 1 (m.pcbs c) in
    let at_i : m₁.pcbs i ≡ m.pcbs i = update-other m.pcbs c i section other' in
    let at_c : m₁.pcbs c ≡ section = update-same m.pcbs c section in
    let switches =
      enter-returns (code pid) i m₁ idle i_ne c_ne (ap (λ x. x.is_i_process) at_i ∙ is_i) in
    let back : m₂.pcbs c ≡ with_status p_executing section =
      interrupted-returns (code pid) i m₁ other keeps ∙ ap (with_status p_executing) at_c in
    let leaves = atomic_off-last m₂ (ap (λ x. x.atomic_count) back) in
    let left : Pcb = with_count 0 (m₂.pcbs c) in
    (
      record (set_count 0 m₂) { mask = m.mask },
      rw (handle_signal, atomic_on-first m free, starts, switches) leaves,
      refl,
      refl,
      refl,
      update-same m₂.pcbs c left ∙ (ap (with_count 0) back ∙ unsectioned (m.pcbs c) runs free),
      update-other m₂.pcbs c i left other'
          ∙ (i_process-returns (code pid) i m₁ other keeps' ∙ ap (with_status p_ready) at_i),
    )
