-- ===== src/Memory/Cells.antt =====
-- lib/memcpy.c: copying bytes, as the code does, and copying the 16-bit cells that they make up, as
-- the model of the screen does.
use frog_os.Prelude.{ℕ, ◌+◌, ◌*◌, ◌^◌}

-- The cell at index `i` of a memory of bytes, the low byte first.
abbrev pub cells : (ℕ → ℕ) → ℕ → ℕ
cells mem i = mem (2 * i) + 2 ^ 8 * mem (2 * i + 1)
