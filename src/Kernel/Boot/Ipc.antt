-- ===== src/Kernel/Boot/Ipc.antt =====
-- `init_ipc` takes memory, and leaves the processes and their queues alone.
use rtx.Base.{ℕ, zero, suc, ◌+◌, ◌*◌, ◌%◌, ◌<◌, ◌≤◌, ◌≡◌, refl, ap, ◌∙◌, arith}
use rtx.Links.{Ptr, null, update, set_next}
use rtx.Base.Int.{pos}
use rtx.MsgEnvQueue
use rtx.Mem.{Mem, memory_end, k_malloc}
use rtx.Message.{Body, MsgEnv}
use rtx.Kernel.{Kernel}
use rtx.Kernel.Live.{view}
use rtx.Kernel.Boot.{new_queue, empty_msg, fill_pool, init_ipc}
use rtx.Kernel.Boot.Memory.{past, k_malloc-fits}

-- One more region is taken from memory of which `k` bytes are gone.
takes :
    (size k : ℕ) (m₀ m : Mem)
    → m ≡ past k m₀
    → 0 < size
    → size % 2 ≡ 0
    → m₀.origin + k + size ≤ memory_end
    → (k_malloc size m).1 ≡ past (k + size) m₀
takes size k m₀ m gone some_size even fits =
    ap (λ r. (k_malloc size r).1) gone
    ∙ (ap (λ r. r.1) (k_malloc-fits size (past k m₀) some_size even fits)
        ∙ ap (λ o. record m₀ { origin = o }) (omega arith))

-- So much memory has been taken, and the processes are as they were.
abbrev pub Took : ℕ → Mem → Kernel → Mem × Kernel → Type 0
Took size m s (m', s') = (m' ≡ past size m) × (view s' ≡ view s)

fill_pool-Took :
    (n : ℕ) (env queue : Ptr) (memory : Ptr → Body) (m : Mem) (s : Kernel)
    → m.origin + 1024 * n ≤ memory_end
    → Took (1024 * n) m s (fill_pool n env queue memory m s)
unfolding fill_pool
fill_pool-Took zero env queue memory m s fits =
    (ap (λ o. record m { origin = o }) (omega arith), refl)
fill_pool-Took (suc n) env queue memory m s fits =
    let (a, m') = k_malloc 1024 m in
    let fresh : MsgEnv = record (s.envs env) { msg_type = pos 0; msg = empty_msg a memory } in
    let s' : Kernel = record s {
      envs = update s.envs env fresh;
      mail = (MsgEnvQueue.enqueue queue env (set_next env null s.mail)).1;
    } in
    let taken =
      takes 1024 0 m m (ap (λ o. record m { origin = o }) (omega arith)) (omega arith) refl
        (omega arith) in
    let (mem, same) =
      fill_pool-Took n (env + 20) queue memory m' s' (omega (arith, ap (λ k. k.origin) taken)) in
    (mem ∙ (ap (past (1024 * n)) taken ∙ ap (λ o. record m { origin = o }) (omega arith)), same)

-- The bytes that `init_ipc` takes.
abbrev pub ipc_size : ℕ
ipc_size = 8 + 8 + 20 * 32 + 20 * 2 + 1024 * 32 + 1024 * 2 + 16 * 16 + 16 * 16

pub init_ipc-Took :
    (memory : Ptr → Body) (m : Mem) (s : Kernel)
    → m.origin + ipc_size ≤ memory_end
    → Took ipc_size m s (init_ipc memory m s)
unfolding init_ipc
init_ipc-Took memory m s fits =
    let (free, m₁, mail₁) = new_queue m s.mail in
    let (sys_free, m₂, mail₂) = new_queue m₁ mail₁ in
    let (pool, m₃) = k_malloc (20 * 32) m₂ in
    let (sys_pool, m₄) = k_malloc (20 * 2) m₃ in
    let s₁ : Kernel = record s {
      mail = mail₂;
      free_env_q = free;
      sys_free_env_q = sys_free;
      env_pool = pool;
      sys_env_pool = sys_pool;
    } in
    let (m₅, s₂) = fill_pool 32 pool free memory m₄ s₁ in
    let (m₆, s₃) = fill_pool 2 sys_pool sys_free memory m₅ s₂ in
    let (send_buf, m₇) = k_malloc (16 * 16) m₆ in
    let e₀ : m ≡ past 0 m = ap (λ o. record m { origin = o }) (omega arith) in
    let e₁ = takes 8 0 m m e₀ (omega arith) refl (omega arith) in
    let e₂ = takes 8 8 m m₁ e₁ (omega arith) refl (omega arith) in
    let e₃ = takes (20 * 32) 16 m m₂ e₂ (omega arith) refl (omega arith) in
    let e₄ = takes (20 * 2) 656 m m₃ e₃ (omega arith) refl (omega arith) in
    let (f₅, v₂) =
      fill_pool-Took 32 pool free memory m₄ s₁ (omega (arith, ap (λ k. k.origin) e₄)) in
    let e₅ : m₅ ≡ past 33464 m =
      f₅ ∙ (ap (past (1024 * 32)) e₄ ∙ ap (λ o. record m { origin = o }) (omega arith)) in
    let (f₆, v₃) =
      fill_pool-Took 2 sys_pool sys_free memory m₅ s₂ (omega (arith, ap (λ k. k.origin) e₅)) in
    let e₆ : m₆ ≡ past 35512 m =
      f₆ ∙ (ap (past (1024 * 2)) e₅ ∙ ap (λ o. record m { origin = o }) (omega arith)) in
    let e₇ = takes (16 * 16) 35512 m m₆ e₆ (omega arith) refl (omega arith) in
    let e₈ = takes (16 * 16) 35768 m m₇ e₇ (omega arith) refl (omega arith) in (e₈, v₃ ∙ v₂)
