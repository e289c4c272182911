-- ===== src/Mem/Bounds.antt =====
-- The regions that `k_malloc` gives out are even, in bounds and apart from one another.
use rtx.Base.{ℕ, ◌+◌, ◌-◌, ◌%◌, ◌≤◌, ◌<◌, ◌≡◌, ◌⊎◌, arith}
use rtx.Links.{Ptr, null}
use rtx.Mem.{memory_end, Mem, k_malloc, k_mem_get_available, k_mem_get_used}

-- The allocator's state: `origin` is even and lies in the heap.
pub record IsSound (heap_start : ℕ) (m : Mem) : Type 0 where
  pub even : m.origin % 2 ≡ 0
  pub above : heap_start ≤ m.origin
  pub below : m.origin ≤ memory_end

-- A request either gets NULL and changes nothing, or a region of at least its size that starts at
-- the old `origin` and ends at the new one, which is in the heap.
abbrev pub Given : ℕ → Mem → Ptr × Mem → Type 0
Given size m (p, m') =
    ((p ≡ null) × (m' ≡ m) × (memory_end < m.origin + size + 1))
    ⊎ ((p ≡ m.origin)
        × (p % 2 ≡ 0)
        × (p + size ≤ m'.origin)
        × (m'.origin ≤ p + size + 1)
        × (m'.origin ≤ memory_end))

module _ (heap_start size : ℕ) (m : Mem) (h : IsSound heap_start m) (pos : 0 < size)
    (small : size < 0x60000000) where
  -- `k_malloc` of a size above 0 and below 0x60000000, from a sound state (`origin` is even, in
  -- the heap and not past the end of memory), either returns NULL and changes nothing, because
  -- the size does not fit, or returns a region of at least that size, which is even, starts at
  -- the old `origin`, ends at the new one and does not pass the end of memory.
  pub k_malloc-Given : Given size m (k_malloc size m)
  unfolding k_malloc
  k_malloc-Given = ground arith

  -- `k_malloc` of a size above 0 keeps `origin` even and between the start of the heap and the
  -- end of memory.
  pub k_malloc-IsSound : IsSound heap_start (k_malloc size m).1
  unfolding k_malloc
  k_malloc-IsSound = ground arith

  -- After a `k_malloc` of a size above 0, from a sound state, what `k_mem_get_used` and
  -- `k_mem_get_available` report adds up to the whole heap.
  pub used-available :
      0 < heap_start
      → k_mem_get_used heap_start (k_malloc size m).1 + k_mem_get_available (k_malloc size m).1
        ≡ memory_end - heap_start
  unfolding k_malloc k_mem_get_available k_mem_get_used
  used-available p = ground arith
