-- ===== src/Mem.antt =====
-- coldfire/kern/src/k_mem.c: memory is given out upwards from the end of the program, and never
-- taken back. `HEAP_START` is the address `__end` of the linker, so it is a parameter here.
pub mod Bounds
use rtx.Base.{ℕ, ◌+◌, ◌-◌, ◌*◌, ◌/◌, ◌%◌, Bool, ◌||◌, ◌==◌, if◌then◌else◌}
use rtx.Base.Word.{u32, add32, signed_lt}
use rtx.Links.{Ptr, null}

abbrev pub memory_end : ℕ
memory_end = 0x10200000

-- The static variable `origin`.
pub record Mem : Type 0 where
  pub origin : ℕ

unfoldable pub init_mem : (heap_start : ℕ) → Mem → Mem
init_mem heap_start m = record m { origin = heap_start }

-- `(size+1) & 0xfffffffe`
abbrev pub align : ℕ → ℕ
align size = add32 size 1 / 2 * 2

unfoldable pub k_malloc : (size : ℕ) → Mem → Ptr × Mem
k_malloc size m =
    let aligned = align size in
    if (aligned == 0) || signed_lt memory_end (add32 m.origin aligned)
    then (null, m)
    else (m.origin, record m { origin = add32 m.origin aligned })

unfoldable pub k_mem_get_available : Mem → ℕ
k_mem_get_available m = (memory_end + u32 - m.origin) % u32

unfoldable pub k_mem_get_used : (heap_start : ℕ) → Mem → ℕ
k_mem_get_used heap_start m = (m.origin + u32 - heap_start) % u32
