-- ===== src/Checksum/Sum.antt =====
-- test.c: what the sum is of.
use frog_os.Prelude.{
  ℕ, zero, suc, ◌+◌, ◌*◌, ◌%◌, ◌^◌, ◌≤◌, ◌<◌, ◌≡◌, refl, sym, ap, ap₂, ◌∙◌, u16, arith,
}
use frog_os.Checksum.{word, add_words, add_sectors, checksum}

-- The sum of `f` at `n` numbers from `i` on.
pub sum_from : (n i : ℕ) → (ℕ → ℕ) → ℕ
sum_from zero i f = 0
sum_from (suc n) i f = f i + sum_from n (i + 1) f

add_words-sum_from :
    (rounds i sum : ℕ) (buff : ℕ → ℕ)
    → add_words rounds i buff sum % 2 ^ 16 ≡ (sum + sum_from rounds i (word buff)) % 2 ^ 16
unfolding add_words sum_from
add_words-sum_from zero i sum buff = omega arith
add_words-sum_from (suc rounds) i sum buff =
    omega (arith, add_words-sum_from rounds (i + 1) (u16 (sum + word buff i)) buff)

add_words-lt :
    (rounds i sum : ℕ) (buff : ℕ → ℕ) → sum < 2 ^ 16 → add_words rounds i buff sum < 2 ^ 16
unfolding add_words
add_words-lt zero i sum buff lt = lt
add_words-lt (suc rounds) i sum buff lt =
    add_words-lt rounds (i + 1) (u16 (sum + word buff i)) buff (omega arith)

add_mod :
    (here sum x rest : ℕ)
    → here % 2 ^ 16 ≡ (sum + x) % 2 ^ 16
    → (here + rest) % 2 ^ 16 ≡ (sum + (x + rest)) % 2 ^ 16
add_mod here sum x rest e = omega arith

add_sectors-sum_from :
    (rounds sector sum : ℕ) (buffs : ℕ → ℕ → ℕ)
    → sum < 2 ^ 16
    → add_sectors rounds sector buffs sum
      ≡ (sum + sum_from rounds sector (λ s. sum_from 128 0 (word (buffs s)))) % 2 ^ 16
unfolding add_sectors sum_from
add_sectors-sum_from zero sector sum buffs lt = omega arith
add_sectors-sum_from (suc rounds) sector sum buffs lt =
    let here = add_words 128 0 (buffs sector) sum in
    add_sectors-sum_from rounds (sector + 1) here buffs (add_words-lt 128 0 sum (buffs sector) lt)
    ∙ add_mod here sum (sum_from 128 0 (word (buffs sector)))
        (sum_from rounds (sector + 1) (λ s. sum_from 128 0 (word (buffs s))))
        (add_words-sum_from 128 0 sum (buffs sector))

sum_from-ext :
    (n i : ℕ) (f g : ℕ → ℕ)
    → ((j : ℕ) → i ≤ j → j < i + n → f j ≡ g j)
    → sum_from n i f ≡ sum_from n i g
unfolding sum_from
sum_from-ext zero i f g same = refl
sum_from-ext (suc n) i f g same =
    ap₂ ◌+◌ (same i (omega arith) (omega arith))
      (sum_from-ext n (i + 1) f g (λ j lo hi. same j (omega arith) (omega arith)))

-- The sum is that of the first 128 words of each sector from 1 to 0x45f, modulo 2^16, so it is the same
-- for two disks that differ only in the second half of their sectors, or in sector 0.
pub checksum-sum_from :
    (buffs buffs' : ℕ → ℕ → ℕ)
    → ((s a : ℕ) → 1 ≤ s → s < 0x460 → a < 256 → buffs s a ≡ buffs' s a)
    → (checksum buffs ≡ sum_from 0x45f 1 (λ s. sum_from 128 0 (word (buffs s))) % 2 ^ 16)
      × (checksum buffs ≡ checksum buffs')
unfolding checksum
checksum-sum_from buffs buffs' same =
    let total = λ (b : ℕ → ℕ → ℕ). add_sectors-sum_from 0x45f 1 0 b (omega arith) in
    let sums =
      sum_from-ext 0x45f 1 (λ s. sum_from 128 0 (word (buffs s)))
        (λ s. sum_from 128 0 (word (buffs' s)))
        (λ s lo hi. sum_from-ext 128 0 (word (buffs s)) (word (buffs' s)) (λ i _ small.
          ap₂ (λ a b. a + 2 ^ 8 * b) (same s (2 * i) lo (omega arith) (omega arith))
            (same s (2 * i + 1) lo (omega arith) (omega arith)))) in
    (total buffs ∙ omega arith, total buffs ∙ ap (λ t. (0 + t) % 2 ^ 16) sums ∙ sym (total buffs'))
