-- ===== src/Init/Seeds.antt =====
-- init.c: the generator of `user_task` permutes its seeds, and stays in range.
use frog_os.Prelude.{ℕ, zero, suc, ◌+◌, ◌-◌, ◌*◌, ◌%◌, ◌^◌, ◌<◌, ◌≡◌, All, arith}
use frog_os.Init.{a, c, modulus, first_seed, next_seed, sleep_time, seeds}

-- The step backwards, with the inverse of the multiplier modulo 2^30.
abbrev pub previous_seed : ℕ → ℕ
previous_seed seed = 783936357 * (seed + modulus - c) % modulus

-- No two seeds have the same successor, and each seed is the successor of one.
pub previous_seed-next_seed :
    (seed : ℕ)
    → seed < modulus
    → (previous_seed (next_seed seed) ≡ seed) × (next_seed (previous_seed seed) ≡ seed)
unfolding next_seed
previous_seed-next_seed seed h = (omega arith, omega arith)

-- A round from a seed: neither sum nor product leaves int64_t, and the process asks for less than ten
-- seconds of sleep.
abbrev pub InRange : ℕ → Type 0
InRange seed = (a * seed + c < 2 ^ 63) × (sleep_time seed < 10000) × (seed < modulus)

next_seed-InRange : (seed : ℕ) → InRange (next_seed seed)
unfolding next_seed
next_seed-InRange seed = (omega arith, omega arith, omega arith)

seeds-InRange_lem : (n seed : ℕ) → All InRange (seeds n seed)
seeds-InRange_lem zero seed = tt
seeds-InRange_lem (suc n) seed = (next_seed-InRange seed, seeds-InRange_lem n (next_seed seed))

-- Process `pid` below 128 starts `user_task` from a seed in an int, and in none of its rounds does an
-- operation overflow or a request for sleep reach ten seconds.
pub seeds-InRange :
    (n pid : ℕ)
    → pid < 128
    → (first_seed pid < 2 ^ 31) × InRange (first_seed pid) × All InRange (seeds n (first_seed pid))
seeds-InRange n pid h =
    (omega arith, (omega arith, omega arith, omega arith), seeds-InRange_lem n (first_seed pid))
