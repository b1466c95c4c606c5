-- ===== src/Dump.antt =====
-- lib/dump.c: the hexadecimal dump of a stretch of memory, as the rows that it prints.
pub mod Rows
mod Tests
use frog_os.Prelude.{
  ℕ, zero, suc, ◌+◌, Option, none, some, List, [], ◌∷◌, u8, u64, ltb, if◌then◌else◌,
}

-- What is printed for a row: the offset, and the bytes behind it.
pub record Row : Type 0 where
  pub offset : ℕ
  pub bytes : List ℕ

-- The loop over the bytes of a row, from the `i`th on; `rounds` are left until `i` is 16.
pub dump_bytes : (rounds i idx addr n : ℕ) → (ℕ → ℕ) → List ℕ
dump_bytes zero i idx addr n mem = []
dump_bytes (suc rounds) i idx addr n mem =
    let rest = dump_bytes rounds (i + 1) idx addr n mem in
    if ltb (u64 (idx + i)) n then u8 (mem (u64 (addr + idx + i))) ∷ rest else []

abbrev dump_row : (idx addr n : ℕ) → (ℕ → ℕ) → Row
dump_row idx addr n mem = record { offset = idx; bytes = dump_bytes 16 0 idx addr n mem }

abbrev cons_row : Row → Option (List Row) → Option (List Row)
cons_row row none = none
cons_row row (some rows) = some (row ∷ rows)

-- The loop over the rows: `none` if `fuel` rows are not all.
pub dump_rows : (fuel idx addr n : ℕ) → (ℕ → ℕ) → Option (List Row)
dump_rows zero idx addr n mem = none
dump_rows (suc fuel) idx addr n mem =
    let rest = dump_rows fuel (u64 (idx + 16)) addr n mem in
    if ltb idx n then cons_row (dump_row idx addr n mem) rest else some []

pub dump : (fuel addr n : ℕ) → (ℕ → ℕ) → Option (List Row)
dump fuel addr n mem = dump_rows fuel 0 addr n mem
