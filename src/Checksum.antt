-- ===== src/Checksum.antt =====
-- test.c: the sum over the sectors of a disk image that `main` prints.
pub mod Sum
mod Tests
use frog_os.Prelude.{ℕ, zero, suc, ◌+◌, ◌*◌, ◌^◌, u16}

-- `words[i]`, the low byte first.
abbrev pub word : (ℕ → ℕ) → ℕ → ℕ
word buff i = buff (2 * i) + 2 ^ 8 * buff (2 * i + 1)

-- `sum += words[i];` for `rounds` rounds from `i` on.
pub add_words : (rounds i : ℕ) → (ℕ → ℕ) → (sum : ℕ) → ℕ
add_words zero i buff sum = sum
add_words (suc rounds) i buff sum = add_words rounds (i + 1) buff (u16 (sum + word buff i))

-- The loop over the sectors; `buffs s` is what `buff` holds after the read of sector `s`.
pub add_sectors : (rounds sector : ℕ) → (buffs : ℕ → ℕ → ℕ) → (sum : ℕ) → ℕ
add_sectors zero sector buffs sum = sum
add_sectors (suc rounds) sector buffs sum =
    add_sectors rounds (sector + 1) buffs (add_words 128 0 (buffs sector) sum)

-- The sectors 1 to 0x45f.
pub checksum : (buffs : ℕ → ℕ → ℕ) → ℕ
checksum buffs = add_sectors 0x45f 1 buffs 0
