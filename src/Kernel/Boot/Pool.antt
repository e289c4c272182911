-- ===== src/Kernel/Boot/Pool.antt =====
-- The pools of envelopes after the start.
use rtx.Base.{
  ℕ, zero, suc, ◌+◌, ◌≤◌, ◌≡◌, ◌≢◌, refl, sym, ap, subst, ◌∙◌, false, ==_cases, ==_refl,
  has-append_one, inl, inr, ◌==◌, fun_ext, List, [], ◌∷◌, ◌++◌, has, arith,
}
use rtx.Links.{Ptr, null, Queues, update, set_next}
use rtx.Links.Chain.{IsChain-frame}
use rtx.Links.Contents.{Contents, put, Holds}
use rtx.Links.Moves.{IsFree}
use rtx.Base.Int.{pos}
use rtx.Mem.{Mem, k_malloc}
use rtx.Message.{Body, MsgEnv}
use rtx.MsgEnvQueue
use rtx.MsgEnvQueue.Refines.{enqueue_env-Holds}
use rtx.Kernel.{Kernel}
use rtx.Kernel.Timer.Timed.{put-put}
use rtx.Kernel.Boot.{empty_msg, fill_pool}

-- The addresses of `n` envelopes that follow one another in memory.
abbrev pub row : (n : ℕ) (env : Ptr) → List Ptr
row zero env = []
row (suc n) env = env ∷ row n (env + 20)

-- A write to the link of a node that no queue holds.
pub free_next-Holds :
    {s : Queues} {c : Contents} → Holds s c → (p : Ptr) → IsFree p c → Holds (set_next p null s) c
free_next-Holds {s} {c} h p free = record {
  chain = λ r. IsChain-frame (s.head r) (c r) (h.chain r) λ a i. ground (arith, free r);
  tail = h.tail;
  apart = h.apart;
}

append_none : (a : List Ptr) → a ++ [] ≡ a
append_none [] = refl
append_none (x ∷ a) = ap (λ t. x ∷ t) (append_none a)

append_assoc : (a b d : List Ptr) → (a ++ b) ++ d ≡ a ++ (b ++ d)
append_assoc [] b d = refl
append_assoc (x ∷ a) b d = ap (λ t. x ∷ t) (append_assoc a b d)

-- The next envelopes are free still.
put-IsFree :
    (c : Contents) (queue env : Ptr)
    → ((a : Ptr) → env ≤ a → IsFree a c)
    → (a : Ptr) → env + 20 ≤ a
    → IsFree a (put c queue (c queue ++ env ∷ []))
put-IsFree c queue env free a h q = elim (==_cases q queue) [
  | inl (e, eq) ↦
      let old : has a (c queue) ≡ false = free a (omega arith) queue in
      let new : (a == env) ≡ false = ground arith in
      rw (e, has-append_one a env (c queue), old, new) refl
  | inr (e, d) ↦ rw e (free a (omega arith) q)
]

-- The loop of `init_ipc` that fills a pool puts its envelopes at the end of the queue of the
-- pool, in the order of their addresses, keeps every queue well formed, and leaves every other
-- queue as it is. No queue may hold an envelope from the first address on.
pub fill_pool-Holds :
    (n : ℕ) (env queue : Ptr) (memory : Ptr → Body) (m : Mem) (s : Kernel) (c : Contents)
    → Holds s.mail c
    → queue ≢ null
    → env ≢ null
    → ((a : Ptr) → env ≤ a → IsFree a c)
    → Holds (fill_pool n env queue memory m s).1.mail (put c queue (c queue ++ row n env))
unfolding fill_pool
fill_pool-Holds zero env queue memory m s c h nq ne free =
    subst (Holds s.mail)
      (fun_ext λ r. elim (==_cases r queue) [
        | inl (e, eq) ↦ rw (e, eq) (sym (append_none (c queue)))
        | inr (e, d) ↦ rw e refl
      ])
      h
fill_pool-Holds (suc n) env queue memory m s c h nq ne free =
    let ys = c queue ++ env ∷ [] in
    let linked =
      enqueue_env-Holds (free_next-Holds h env (free env (omega arith))) queue env nq ne
        (free env (omega arith)) (c queue) refl in
    let (a, m') = k_malloc 1024 m in
    let fresh : MsgEnv = record (s.envs env) { msg_type = pos 0; msg = empty_msg a memory } in
    let s' : Kernel = record s {
      envs = update s.envs env fresh;
      mail = (MsgEnvQueue.enqueue queue env (set_next env null s.mail)).1;
    } in
    let rest =
      fill_pool-Holds n (env + 20) queue memory m' s' (put c queue ys) linked nq (omega arith)
        (put-IsFree c queue env free) in
    let all : put (put c queue ys) queue (put c queue ys queue ++ row n (env + 20))
        ≡ put c queue (c queue ++ row (suc n) env) =
      put-put c queue ys _
      ∙ ap (put c queue)
          (rw (==_refl queue) (append_assoc (c queue) (env ∷ []) (row n (env + 20)))) in
    subst (Holds (fill_pool (suc n) env queue memory m s).1.mail) all rest
