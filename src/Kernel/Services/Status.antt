-- ===== src/Kernel/Services/Status.antt =====
-- What `k_request_process_status` writes into the envelope.
use rtx.Base.{
  ℕ, zero, suc, ◌+◌, ◌*◌, ◌<◌, ◌≤◌, ◌≡◌, refl, ◌∙◌, false, ==_cases, ==_refl, inl, inr, arith, some,
}
use rtx.Base.Word.{u32}
use rtx.Rtx.{
  ProcessState, code_success, p_ready, p_executing, p_blocked_on_env_request, p_blocked_on_receive,
  p_interrupted,
}
use rtx.Links.{Ptr}
use rtx.Process.{Pcb}
use rtx.Message.{Body, get_word, set_word, to_word}
use rtx.Message.Words.{get_word-set_word, get_word-set_word_ne, to_word_lt}
use rtx.Kernel.{Kernel}
use rtx.Kernel.Table.{k_get_process}
use rtx.Kernel.Primitives.{no_envelope}
use rtx.Kernel.Services.{state_code, write_status, status_loop, k_request_process_status}

-- The three words of process `i`.
abbrev pub Reports : (i : ℕ) → Pcb → Body → Type 0
Reports i p b =
    (get_word (3 * i + 1) b ≡ to_word p.pid)
    × (get_word (3 * i + 2) b ≡ state_code p.state)
    × (get_word (3 * i + 3) b ≡ to_word p.priority)

state_code_lt : (st : ProcessState) → state_code st < u32
state_code_lt p_ready = omega arith
state_code_lt p_executing = omega arith
state_code_lt p_blocked_on_env_request = omega arith
state_code_lt p_blocked_on_receive = omega arith
state_code_lt p_interrupted = omega arith

write_status-Reports : (i : ℕ) (p : Pcb) (b : Body) → Reports i p (write_status i p b)
write_status-Reports i p b = (
  get_word-set_word_ne (3 * i + 3) (to_word p.priority) _ (3 * i + 1) (omega arith)
      ∙ get_word-set_word_ne (3 * i + 2) (state_code p.state) _ (3 * i + 1) (omega arith)
      ∙ get_word-set_word (3 * i + 1) (to_word p.pid) b (to_word_lt p.pid),
  get_word-set_word_ne (3 * i + 3) (to_word p.priority) _ (3 * i + 2) (omega arith)
      ∙ get_word-set_word (3 * i + 2) (state_code p.state) _ (state_code_lt p.state),
  get_word-set_word (3 * i + 3) (to_word p.priority) _ (to_word_lt p.priority),
)

-- The words before those of process `i` stay.
get_word-write_status :
    (i : ℕ) (p : Pcb) (b : Body) (j : ℕ)
    → j ≤ 3 * i
    → get_word j (write_status i p b) ≡ get_word j b
get_word-write_status i p b j below =
    get_word-set_word_ne (3 * i + 3) (to_word p.priority) _ j (omega arith)
    ∙ get_word-set_word_ne (3 * i + 2) (state_code p.state) _ j (omega arith)
    ∙ get_word-set_word_ne (3 * i + 1) (to_word p.pid) b j (omega arith)

get_word-status_loop :
    (left i : ℕ) (s : Kernel) (b : Body) (j : ℕ)
    → j ≤ 3 * i
    → get_word j (status_loop left i s b) ≡ get_word j b
unfolding status_loop
get_word-status_loop zero i s b j below = refl
get_word-status_loop (suc left) i s b j below =
    get_word-status_loop left (i + 1) s _ j (omega arith)
    ∙ get_word-write_status i (s.pcbs (k_get_process (s.pid_table i) s)) b j below

status_loop-Reports :
    (left i : ℕ) (s : Kernel) (b : Body) (k : ℕ)
    → i ≤ k
    → k < i + left
    → Reports k (s.pcbs (k_get_process (s.pid_table k) s)) (status_loop left i s b)
unfolding status_loop
status_loop-Reports zero i s b k from to = absurd (omega arith)
status_loop-Reports (suc left) i s b k from to = elim (==_cases i k) [
  | inl (e, eq) ↦
      let p = s.pcbs (k_get_process (s.pid_table k) s) in
      let (pid, state, priority) = write_status-Reports k p b in
      rw eq (
        get_word-status_loop left (k + 1) s _ (3 * k + 1) (omega arith) ∙ pid,
        get_word-status_loop left (k + 1) s _ (3 * k + 2) (omega arith) ∙ state,
        get_word-status_loop left (k + 1) s _ (3 * k + 3) (omega arith) ∙ priority,
      )
  | inr (e, ne) ↦ status_loop-Reports left (i + 1) s _ k (omega arith) (omega arith)
]

-- `k_request_process_status` with an envelope that has a message, where the number of processes
-- fits a word, succeeds and leaves in the message the number of processes, and then for each pid
-- of the pid table, in order, the pid, the state and the priority of its process.
pub status-Reports :
    (e : Ptr) (s : Kernel) (b : Body)
    → no_envelope e s ≡ false
    → (s.envs e).msg ≡ some b
    → s.num_processes < u32
    → ((k_request_process_status e s).0 ≡ code_success)
      × (b' : Body) × (((k_request_process_status e s).1.envs e).msg ≡ some b')
      × (get_word 0 b' ≡ s.num_processes)
      × ((k : ℕ) → k < s.num_processes → Reports k (s.pcbs (k_get_process (s.pid_table k) s)) b')
unfolding k_request_process_status
status-Reports e s b there body small = (
  rw there refl,
  status_loop s.num_processes 0 s (set_word 0 s.num_processes b),
  rw (there, ==_refl e, body) refl,
  get_word-status_loop s.num_processes 0 s _ 0 (omega arith)
      ∙ get_word-set_word 0 s.num_processes b small,
  λ k within. status_loop-Reports s.num_processes 0 s _ k (omega arith) (omega arith),
)
