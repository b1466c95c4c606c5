-- ===== src/Mem.antt =====
-- mem.c: the bump allocator `malloc`.
pub mod Arena
mod Tests
use frog_os.Prelude.{ℕ, ◌+◌, ◌-◌, ◌%◌, u64, sub64, ltb, ◌==◌, if◌then◌else◌}

-- The globals `heap`, the next free address, and `heap_size`, the bytes left.
pub record Heap : Type 0 where
  pub heap : ℕ
  pub heap_size : ℕ

-- Their initial values.
abbrev pub boot_heap : Heap
boot_heap = record { heap = 0x300000; heap_size = 0x100000 }

-- `size += 8 - (size % 8)` on size_t, where `size` is no multiple of 8.
abbrev pub align : ℕ → ℕ
align size = if size % 8 == 0 then size else u64 (size + (8 - size % 8))

-- The pointer that `malloc` returns (0 is NULL), and the globals after the call.
unfoldable pub malloc : Heap → ℕ → ℕ × Heap
malloc m size = if size == 0 then (0, m) else if ltb m.heap_size (align size) then (0, m) else (
  m.heap,
  record { heap = u64 (m.heap + align size); heap_size = sub64 m.heap_size (align size) },
)
