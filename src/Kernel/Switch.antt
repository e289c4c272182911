-- ===== src/Kernel/Switch.antt =====
-- coldfire/kern/src/k_scheduler.c: giving the processor to the next ready process. The registers
-- and the stack, which `k_context_switch` saves and restores in assembly, are not modelled.
use rtx.Base.{false, if◌then◌else◌, some}
use rtx.Rtx.{ProcessState, p_executing}
use rtx.Kernel.{Kernel, set_pcb, with_state}
use rtx.ProcPq

-- What is left of the switch in C: a process that runs for the first time is marked.
unfoldable pub k_context_switch : Kernel → Kernel
k_context_switch s =
    set_pcb s.current_process (λ p. if p.first_time then record p { first_time = false } else p) s

unfoldable pub k_process_switch : ProcessState → Kernel → Kernel
unfolding k_context_switch
k_process_switch transition_to s =
    let s₁ = set_pcb s.current_process (with_state transition_to) s in
    let (next, procs) = ProcPq.dequeue (some s₁.ready_pq) s₁.procs in
    let s₂ = record s₁ { procs = procs; current_process = next } in
    k_context_switch (set_pcb next (with_state p_executing) s₂)
