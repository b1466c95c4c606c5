-- ===== src/Init.antt =====
-- init.c: the random numbers of `user_task`, which sleeps for a number of milliseconds in each round.
pub mod Seeds
mod Tests
use frog_os.Prelude.{ℕ, zero, suc, ◌+◌, ◌*◌, ◌%◌, ◌^◌, List, [], ◌∷◌}

abbrev pub a : ℕ
a = 1103515245

abbrev pub c : ℕ
c = 12345

abbrev pub modulus : ℕ
modulus = 2 ^ 30

-- `(pid + 42) * 1000`, on an int that is not negative, like every number of this file.
abbrev pub first_seed : (pid : ℕ) → ℕ
first_seed pid = (pid + 42) * 1000

-- `(A * seed + C) % MODULUS` on int64_t.
unfoldable pub next_seed : ℕ → ℕ
next_seed seed = (a * seed + c) % modulus

-- `int r = seed % 10000`
abbrev pub sleep_time : (seed : ℕ) → ℕ
sleep_time seed = seed % 10000

-- The seeds of the first `n` rounds after a seed.
abbrev pub seeds : (n seed : ℕ) → List ℕ
seeds zero seed = []
seeds (suc n) seed = let s = next_seed seed in s ∷ seeds n s

-- What `user_task` asks SYSCALL_SLEEP for in its first `n` rounds.
abbrev pub requests : List ℕ → List ℕ
requests [] = []
requests (seed ∷ rest) = sleep_time seed ∷ requests rest
