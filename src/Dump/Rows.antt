-- ===== src/Dump/Rows.antt =====
-- lib/dump.c: which rows `dump` prints, and when it does not end.
use mathlib.Core.List.{append-nil}
use frog_os.Prelude.{
  ℕ, zero, suc, ◌+◌, ◌-◌, ◌*◌, ◌%◌, ◌^◌, ◌≤◌, ◌<◌, ◌≡◌, refl, sym, ap, ap₂, ◌∙◌, none, some, List,
  [], ◌∷◌, ◌++◌, true, length, u8, u64, ltb, leb, if◌then◌else◌, arith, Bool-cases, inl, inr,
}
use frog_os.Dump.{Row, dump_bytes, dump_row, dump_rows, dump}

-- The `count` bytes at `addr`, from offset `idx` on.
pub stretch : (count idx addr : ℕ) → (ℕ → ℕ) → List ℕ
stretch zero idx addr mem = []
stretch (suc count) idx addr mem = u8 (mem (u64 (addr + idx))) ∷ stretch count (idx + 1) addr mem

stretch-append :
    (a b idx addr : ℕ) (mem : ℕ → ℕ)
    → stretch (a + b) idx addr mem ≡ stretch a idx addr mem ++ stretch b (idx + a) addr mem
unfolding stretch
stretch-append zero b idx addr mem = ap₂ (λ n i. stretch n i addr mem) (omega arith) (omega arith)
stretch-append (suc a) b idx addr mem =
    let e : suc a + b ≡ suc (a + b) = omega arith in
    let e' : idx + 1 + a ≡ idx + suc a = omega arith in
    rw e (
      ap (◌∷◌ (u8 (mem (u64 (addr + idx))))) (
        stretch-append a b (idx + 1) addr mem
        ∙ ap (λ i. stretch a (idx + 1) addr mem ++ stretch b i addr mem) e'))

-- A row has the bytes up to `n`, and `rounds` at most.
abbrev pub row_length : (rounds left : ℕ) → ℕ
row_length rounds left = if leb rounds left then rounds else left

dump_bytes-stretch :
    (rounds i idx addr n : ℕ) (mem : ℕ → ℕ)
    → idx + i + rounds ≤ 2 ^ 64
    → dump_bytes rounds i idx addr n mem
      ≡ stretch (row_length rounds (n - (idx + i))) (idx + i) addr mem
unfolding dump_bytes stretch
dump_bytes-stretch zero i idx addr n mem fits =
    let none_left : row_length 0 (n - (idx + i)) ≡ 0 = ground arith in rw none_left refl
dump_bytes-stretch (suc rounds) i idx addr n mem fits = elim (Bool-cases (ltb (u64 (idx + i)) n)) [
  | inl inside ↦
      let here : idx + i < n = ground arith in
      let len : row_length (suc rounds) (n - (idx + i))
          ≡ suc (row_length rounds (n - (idx + (i + 1)))) =
        ground arith in
      rw (inside, len)
        (let rest = dump_bytes-stretch rounds (i + 1) idx addr n mem (omega arith) in
          let e : idx + (i + 1) ≡ idx + i + 1 = omega arith in
          let a : addr + idx + i ≡ addr + (idx + i) = omega arith in
          ap₂ ◌∷◌ (ap (λ b. u8 (mem (u64 b))) a)
            (rest ∙ ap (λ j. stretch (row_length rounds (n - (idx + (i + 1)))) j addr mem) e))
  | inr outside ↦
      let len : row_length (suc rounds) (n - (idx + i)) ≡ 0 = ground arith in rw (outside, len) refl
]

-- The bytes of all rows.
pub all_bytes : List Row → List ℕ
all_bytes [] = []
all_bytes (row ∷ rows) = row.bytes ++ all_bytes rows

-- The offsets go up by 16 from `idx` on, and no row is empty or longer than 16.
abbrev pub InRows : ℕ → List Row → Type 0
InRows idx [] = Unit {0}
InRows idx (row ∷ rows) =
    (row.offset ≡ idx) × (0 < length row.bytes) × (length row.bytes ≤ 16) × InRows (idx + 16) rows

length-stretch : (count idx addr : ℕ) (mem : ℕ → ℕ) → length (stretch count idx addr mem) ≡ count
unfolding stretch
length-stretch zero idx addr mem = refl
length-stretch (suc count) idx addr mem = ap suc (length-stretch count (idx + 1) addr mem)

-- The bytes from an offset on are those of its row and those behind it.
stretch-row :
    (idx addr n : ℕ) (mem : ℕ → ℕ)
    → idx < n
    → stretch (row_length 16 (n - (idx + 0))) (idx + 0) addr mem
        ++ stretch (n - (idx + 16)) (idx + 16) addr mem
      ≡ stretch (n - idx) idx addr mem
unfolding stretch
stretch-row idx addr n mem inside =
    let zero_in : idx + 0 ≡ idx = omega arith in
    elim (Bool-cases (leb 16 (n - idx))) [
      | inl whole ↦
          let e : n - idx ≡ 16 + (n - (idx + 16)) = ground arith in
          rw (zero_in, whole)
            (sym (stretch-append 16 (n - (idx + 16)) idx addr mem)
              ∙ ap (λ c. stretch c idx addr mem) (sym e))
      | inr part ↦
          let none_left : n - (idx + 16) ≡ 0 = ground arith in
          rw (zero_in, part, none_left) (append-nil (stretch (n - idx) idx addr mem))
    ]

dump_rows-InRows :
    (fuel idx addr n : ℕ) (mem : ℕ → ℕ)
    → n ≤ 2 ^ 64 - 16
    → idx < n + 16
    → n + 16 ≤ idx + 16 * fuel
    → (rows : List Row) × (dump_rows fuel idx addr n mem ≡ some rows)
      × InRows idx rows
      × (all_bytes rows ≡ stretch (n - idx) idx addr mem)
unfolding dump_rows all_bytes stretch
dump_rows-InRows zero idx addr n mem small low enough = absurd (omega arith)
dump_rows-InRows (suc fuel) idx addr n mem small low enough = elim (Bool-cases (ltb idx n)) [
  | inl inside ↦
      let less : idx < n = ground arith in
      let bytes = dump_bytes-stretch 16 0 idx addr n mem (omega arith) in
      let len = row_length 16 (n - (idx + 0)) in
      let size = ap (length {A = ℕ}) bytes ∙ length-stretch len (idx + 0) addr mem in
      let (rows, e, ok, all) =
        dump_rows-InRows fuel (idx + 16) addr n mem small (omega arith) (omega arith) in
      let same : u64 (idx + 16) ≡ idx + 16 = omega arith in
      (
        dump_row idx addr n mem ∷ rows,
        rw (inside, same, e),
        (refl, ground (arith, size), ground (arith, size), ok),
        ap₂ ◌++◌ bytes all ∙ stretch-row idx addr n mem less,
      )
  | inr outside ↦
      let none_left : n - idx ≡ 0 = ground arith in ([], rw outside, tt, rw none_left refl)
]

-- `dump` of up to 2^64 - 16 bytes ends, if the fuel is more by 1 than a sixteenth of them, and prints
-- each byte once, in order, in rows at the offsets 0, 16, 32 and so on, none of them empty and none of
-- more than 16 bytes.
pub dump-InRows :
    (fuel addr n : ℕ) (mem : ℕ → ℕ)
    → n ≤ 2 ^ 64 - 16
    → n + 16 ≤ 16 * fuel
    → (rows : List Row) × (dump fuel addr n mem ≡ some rows)
      × InRows 0 rows
      × (all_bytes rows ≡ stretch n 0 addr mem)
unfolding dump
dump-InRows fuel addr n mem small enough =
    let (rows, e, ok, all) = dump_rows-InRows fuel 0 addr n mem small (omega arith) (omega arith) in
    let whole : n - 0 ≡ n = omega arith in (rows, e, ok, all ∙ ap (λ c. stretch c 0 addr mem) whole)

dump_rows-none :
    (fuel idx addr n : ℕ) (mem : ℕ → ℕ)
    → 2 ^ 64 - 16 < n
    → idx < 2 ^ 64
    → idx % 16 ≡ 0
    → dump_rows fuel idx addr n mem ≡ none
unfolding dump_rows
dump_rows-none zero idx addr n mem big low aligned = refl
dump_rows-none (suc fuel) idx addr n mem big low aligned =
    let rest = dump_rows-none fuel (u64 (idx + 16)) addr n mem big (omega arith) (omega arith) in
    let inside : ltb idx n ≡ true = ground arith in rw (inside, rest) refl

-- Of more bytes than that it prints rows for ever: after the last row the offset wraps to 0.
pub dump-none : (fuel addr n : ℕ) (mem : ℕ → ℕ) → 2 ^ 64 - 16 < n → dump fuel addr n mem ≡ none
unfolding dump
dump-none fuel addr n mem big = dump_rows-none fuel 0 addr n mem big (omega arith) (omega arith)
