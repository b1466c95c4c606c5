-- ===== src/Checksum/Tests.antt =====
-- Tests of test.c.
use frog_os.Prelude.{ℕ, ◌+◌, ◌%◌, ◌≡◌, refl, ltb, if◌then◌else◌}
use frog_os.Checksum.{add_words}

-- Two disks that differ in the second half of each sector.
abbrev disk : ℕ → ℕ → ℕ
disk s a = (s + a) % 256

abbrev other_disk : ℕ → ℕ → ℕ
other_disk s a = if ltb a 256 then (s + a) % 256 else 0

words_run : add_words 2 0 (λ a. 0xff) 1 ≡ 0xffff
unfolding add_words
words_run = refl
