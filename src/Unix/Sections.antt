-- ===== src/Unix/Sections.antt =====
-- Sections that are nested.
use rtx.Base.{
  ℕ, zero, suc, ◌≡◌, refl, ap, Option, none, some, List, [], ◌∷◌, ==_refl, false, arith, ◌==◌,
}
use rtx.Unix.{
  Mask, Machine, Outcome, running, aborted, and_then, OnOff, on, off, blocked, open_sections,
  set_count, decrement, atomic,
}

unfoldable pub run_calls : List OnOff → Machine → Outcome
run_calls [] m = running m
run_calls (call ∷ calls) m = and_then (atomic call m) (run_calls calls)

-- The depth after these calls: a section that was not i_process_entered cannot be left.
unfoldable pub depth : List OnOff → ℕ → Option ℕ
depth [] n = some n
depth (on ∷ calls) n = depth calls (suc n)
depth (off ∷ calls) zero = none
depth (off ∷ calls) (suc n) = depth calls n

-- The process is in `n` sections, and `base` is the mask outside of them.
abbrev pub InSections : Mask → ℕ → Machine → Type 0
InSections base zero m = (open_sections m ≡ 0) × (m.mask ≡ base)
InSections base (suc n) m = (open_sections m ≡ suc n) × (m.mask ≡ blocked base) × (m.oldmask ≡ base)

abbrev pub Reaches : Mask → Option ℕ → Outcome → Type 0
Reaches base none out = out ≡ aborted
Reaches base (some n) out = (m : Machine) × (out ≡ running m) × InSections base n m

open_sections-set_count : (n : ℕ) (m : Machine) → open_sections (set_count n m) ≡ n
open_sections-set_count n m = rw (open_sections, ==_refl m.current_process) refl

atomic_on :
    (base : Mask) (n : ℕ) (m : Machine)
    → InSections base n m
    → (m' : Machine) × (atomic on m ≡ running m') × InSections base (suc n) m'
unfolding atomic
atomic_on base zero m (counted, free) = (
  record (set_count 1 m) { mask = blocked m.mask; oldmask = m.mask },
  rw counted refl,
  (open_sections-set_count 1 m, ap blocked free, free),
)
atomic_on base (suc n) m (counted, held, kept) =
    let more : (suc (suc n) == 1) ≡ false = ground arith in
    (
      set_count (suc (suc n)) m,
      rw (counted, more) refl,
      (open_sections-set_count (suc (suc n)) m, held, kept),
    )

atomic_off :
    (base : Mask) (n : ℕ) (m : Machine)
    → InSections base (suc n) m
    → (m' : Machine) × (atomic off m ≡ running m') × InSections base n m'
unfolding atomic
atomic_off base zero m (counted, held, kept) = (
  record (set_count 0 m) { mask = m.oldmask },
  rw counted refl,
  (open_sections-set_count 0 m, kept),
)
atomic_off base (suc n) m (counted, held, kept) =
    let inside : (suc n == 0) ≡ false = ground arith in
    (
      set_count (suc n) m,
      rw (counted, inside) refl,
      (open_sections-set_count (suc n) m, held, kept),
    )

unentered :
    (calls : List OnOff) (m : Machine) → open_sections m ≡ 0 → run_calls (off ∷ calls) m ≡ aborted
unfolding run_calls atomic
unentered calls m counted = ap (λ n. and_then (decrement n m) (run_calls calls)) counted

-- Calls of `atomic` by one process of the Unix port, in any order, from any depth: they agree
-- with a reference that counts the depth. An exit at depth 0 fails the assertion, and nothing
-- else does; else the counter of the process is the depth that is reached, and the signal mask is
-- at depth 0 the one outside of the sections, and at every other depth that one with the signals
-- of the kernel blocked.
pub run_calls-depth :
    (calls : List OnOff) (base : Mask) (n : ℕ) (m : Machine)
    → InSections base n m
    → Reaches base (depth calls n) (run_calls calls m)
unfolding run_calls depth
run_calls-depth [] base n m h = (m, refl, h)
run_calls-depth (on ∷ calls) base n m h =
    let (m', runs, h') = atomic_on base n m h in
    rw (run_calls, runs) (run_calls-depth calls base (suc n) m' h')
run_calls-depth (off ∷ calls) base zero m (counted, free) = unentered calls m counted
run_calls-depth (off ∷ calls) base (suc n) m h =
    let (m', runs, h') = atomic_off base n m h in
    rw (run_calls, runs) (run_calls-depth calls base n m' h')
