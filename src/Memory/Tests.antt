-- ===== src/Memory/Tests.antt =====
-- Tests of the string functions of lib/.
use frog_os.Prelude.{ℕ, ◌+◌, ◌-◌, ◌<◌, ◌≡◌, ◌↔◌, refl, some, ◌==◌, if◌then◌else◌, arith}
use frog_os.Memory.{copy_up, strlen, strlen_from, memcmp, compare_up}
use frog_os.Prelude.{◌⊎◌, ◌%◌}
use frog_os.Memory.Laws.{inside, copy_up-get, IsString, memcmp-eq-one}

-- "ab" at 100, and zero elsewhere.
abbrev mem : ℕ → ℕ
mem i = if i == 100 then b'a' else if i == 101 then b'b' else 0

mem-IsString : IsString mem 100 2
mem-IsString = record { nonzero = λ j h. ground arith; end = refl }

strlen_runs : strlen 5 mem 100 ≡ some 2
unfolding strlen strlen_from
strlen_runs = refl

memcmp_differs : memcmp mem 100 101 1 ≡ 0
unfolding memcmp compare_up
memcmp_differs = refl

memcmp-eq-one_example :
    ((memcmp mem 100 200 3 ≡ 1) ↔ ((j : ℕ) → j < 3 → mem (100 + j) ≡ mem (200 + j)))
    × ((memcmp mem 100 200 3 ≡ 1) ⊎ (memcmp mem 100 200 3 ≡ 0))
memcmp-eq-one_example = memcmp-eq-one mem 100 200 3

-- Bytes that are cells, moved by a cell towards the start.
abbrev bytes : ℕ → ℕ
bytes i = i % 256

copy_up-get_example :
    copy_up 3 99 100 mem 100 ≡ (if inside 99 3 100 then mem (100 + (100 - 99)) else mem 100)
copy_up-get_example = copy_up-get 3 99 100 100 mem (omega arith)
