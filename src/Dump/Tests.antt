-- ===== src/Dump/Tests.antt =====
-- Tests of lib/dump.c.
use frog_os.Prelude.{ℕ, ◌+◌, ◌≡◌, refl, some, List, [], ◌∷◌, arith}
use frog_os.Dump.{Row, dump, dump_rows, dump_bytes}
use frog_os.Dump.Rows.{InRows, all_bytes, stretch, dump-InRows}

abbrev mem : ℕ → ℕ
mem i = i + 7

dump_runs : dump 9 0x1000 3 mem ≡ some (record { offset = 0; bytes = 7 ∷ 8 ∷ 9 ∷ [] } ∷ [])
unfolding dump dump_rows dump_bytes
dump_runs = refl

dump-InRows_example :
    (rows : List Row) × (dump 9 0x1000 40 mem ≡ some rows)
    × InRows 0 rows
    × (all_bytes rows ≡ stretch 40 0 0x1000 mem)
dump-InRows_example = dump-InRows 9 0x1000 40 mem (omega arith) (omega arith)
