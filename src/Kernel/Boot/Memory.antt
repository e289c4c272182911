-- ===== src/Kernel/Boot/Memory.antt =====
-- The memory that `k_init` takes by `k_malloc`, and the empty priority queues in it.
use rtx.Base.{
  Option, ◌-◌, ℕ, zero, suc, ◌+◌, ◌*◌, ◌%◌, ◌<◌, ◌≤◌, ◌≡◌, ◌≢◌, refl, ap, sym, subst, ◌∙◌, false,
  ◌==◌, ==_refl, ==_cases, inl, inr, some, [], arith,
}
use rtx.Links.{Ptr, null, Queues, update}
use rtx.Links.Contents.{Contents, Holds}
use rtx.Mem.{Mem, memory_end, k_malloc}
use rtx.ProcQueue
use rtx.ProcPq
use rtx.ProcPq.{ProcPq, create_loop}
use rtx.ProcPq.Refines.{queue, IsPq}

-- The allocator, with so much more given out.
abbrev pub past : ℕ → Mem → Mem
past size m = record m { origin = m.origin + size }

pub k_malloc-fits :
    (size : ℕ) (m : Mem)
    → 0 < size
    → size % 2 ≡ 0
    → m.origin + size ≤ memory_end
    → k_malloc size m ≡ (m.origin, past size m)
unfolding k_malloc
k_malloc-fits size m some_size even fits = ground arith

-- No process is in any queue.
abbrev pub empty : Contents
empty _ = []

create-empty :
    (a : Ptr) (s : Queues)
    → Holds s empty
    → ((ProcQueue.create a s).0 ≡ a) × Holds (ProcQueue.create a s).1 empty
unfolding ProcQueue.create
create-empty a s h = elim (==_cases a null) [
  | inl (e, eq) ↦ rw e (refl, h)
  | inr (e, d) ↦
      rw e
        (refl, record { chain = λ r. ground (arith, h.chain r); tail = λ r. tt; apart = h.apart })
]

-- `left` queues, the first of them for priority `i`, stand one behind the other, and are empty.
abbrev Created : (left i : ℕ) (f : ℕ → Ptr) → Mem → (ℕ → Ptr) × Mem × Queues → Type 0
Created left i f m (g, m', s') =
    (m' ≡ past (8 * left) m)
    × Holds s' empty
    × ((j : ℕ) → j < i → g j ≡ f j)
    × ((j : ℕ) → j < left → g (i + j) ≡ m.origin + 8 * j)

create_loop-Created :
    (left i : ℕ) (f : ℕ → Ptr) (m : Mem) (s : Queues)
    → Holds s empty
    → m.origin + 8 * left ≤ memory_end
    → Created left i f m (create_loop left i f m s)
unfolding create_loop
create_loop-Created zero i f m s h fits = (
  ap (λ o. record m { origin = o }) (omega arith),
  h,
  λ j below. refl,
  λ j below. absurd (omega arith),
)
create_loop-Created (suc left) i f m s h fits =
    let (at, h') = create-empty m.origin s h in
    let s' = (ProcQueue.create m.origin s).1 in
    let f' = update f i m.origin in
    let step : create_loop (suc left) i f m s ≡ create_loop left (i + 1) f' (past 8 m) s' =
      rw (create_loop, k_malloc-fits 8 m (omega arith) refl (omega arith), at) refl in
    let (mem, held, old, new) =
      create_loop-Created left (i + 1) f' (past 8 m) s' h' (omega arith) in
    subst (Created (suc left) i f m) (sym step) (
      mem ∙ ap (λ o. record m { origin = o }) (omega arith),
      held,
      λ j below. old j (omega arith) ∙ ground arith,
      λ j below. elim (==_cases j 0) [
        | inl (e, eq) ↦
            let here : i + j ≡ i = omega (arith, eq) in
            rw here (old i (omega arith) ∙ rw (==_refl i) (omega (arith, eq)))
        | inr (e, d) ↦
            let shift : i + j ≡ i + 1 + (j - 1) = omega arith in
            rw shift (new (j - 1) (omega arith) ∙ omega arith)
      ],
    )

-- A priority queue: its queues stand behind its struct and its array.
pub record Fresh (n : ℕ) (m : Mem) (r : Option ProcPq × Mem × Queues) : Type 0 where
  pub ppq : ProcPq
  pub made : r.0 ≡ some ppq
  pub mem : r.1 ≡ past (8 + 4 * n + 8 * n) m
  pub held : Holds r.2 empty
  pub num : ppq.num_priorities ≡ n
  pub queues : (j : ℕ) → j < n → queue ppq j ≡ m.origin + (8 + 4 * n) + 8 * j

pub create-Fresh :
    (n : ℕ) (m : Mem) (s : Queues)
    → 0 < n
    → Holds s empty
    → m.origin + (8 + 4 * n + 8 * n) ≤ memory_end
    → Fresh n m (ProcPq.create n m s)
unfolding ProcPq.create
create-Fresh n m s some_n h fits =
    let m₂ = past (4 * n) (past 8 m) in
    let (mem, held, old, new) = create_loop-Created n 0 (λ _. null) m₂ s h (omega arith) in
    let made = create_loop n 0 (λ _. null) m₂ s in
    let is_some : (n == 0) ≡ false = ground arith in
    let step : ProcPq.create n m s
        ≡ (some (record { num_priorities = n; priority_queues = made.0 }), made.1, made.2) =
      rw
        (
          ProcPq.create,
          is_some,
          k_malloc-fits 8 m (omega arith) refl (omega arith),
          k_malloc-fits (4 * n) (past 8 m) (omega arith) (omega arith) (omega arith),
        )
        refl in
    subst (Fresh n m) (sym step) (record {
      ppq = record { num_priorities = n; priority_queues = made.0 };
      made = refl;
      mem = mem ∙ ap (λ o. record m { origin = o }) (omega arith);
      held = held;
      num = refl;
      queues = λ j below.
          let shift : j ≡ 0 + j = omega arith in ap made.0 shift ∙ (new j below ∙ omega arith);
    })

-- Such a priority queue is well formed.
pub Fresh-IsPq :
    {n : ℕ} {m : Mem} {r : Option ProcPq × Mem × Queues}
    → m.origin ≢ 0
    → (f : Fresh n m r) → IsPq f.ppq
Fresh-IsPq ne f = record {
  some_queue = λ i below. ground (arith, f.queues i (omega (arith, f.num, below)));
  distinct = λ i j below below' same. omega (
    arith,
    same,
    f.queues i (omega (arith, f.num, below)),
    f.queues j (omega (arith, f.num, below')),
  );
}
