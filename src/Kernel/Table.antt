-- ===== src/Kernel/Table.antt =====
-- coldfire/kern/src/k_process.c: the table of processes.
use rtx.Base.{ℕ, zero, suc, ◌+◌, ◌*◌, if◌then◌else◌}
use rtx.Base.Int.{ℤ, eqb_ℤ}
use rtx.Links.{Ptr, null}
use rtx.Kernel.{Kernel}

-- `&p_table[i]`
abbrev pub entry : Kernel → ℕ → Ptr
entry s i = s.p_table + i * 52

-- `for (i = 0; i < num_processes; i++)`, with `left` rounds to go.
unfoldable pub get_process_loop : (left i : ℕ) → ℤ → Kernel → Ptr
get_process_loop zero i pid s = null
get_process_loop (suc left) i pid s =
    let rest = get_process_loop left (i + 1) pid s in
    if eqb_ℤ (s.pcbs (entry s i)).pid pid then entry s i else rest

unfoldable pub k_get_process : ℤ → Kernel → Ptr
unfolding get_process_loop
k_get_process pid s = get_process_loop s.num_processes 0 pid s
