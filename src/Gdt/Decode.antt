-- ===== src/Gdt/Decode.antt =====
-- gdt.c: what the processor reads out of a descriptor that `gdt_set_gate` wrote.
use Prim.Native.Nat.{bit_and, bit_or}
use frog_os.Prelude.{
  ℕ, ◌+◌, ◌*◌, ◌/◌, ◌%◌, ◌^◌, ◌<◌, ◌≡◌, ◌≢◌, refl, ap, ◌∙◌, Bool, true, u8, ◌==◌, arith, eq_of_==,
  update_self, update_ne, holds_below, holds_below_sound,
}
use frog_os.Gdt.{GdtEntry, Gdt, encode, gdt_set_gate}

-- The fields of a descriptor, by the processor's layout.
abbrev pub base_of : GdtEntry → ℕ
base_of e = e.base_low + e.base_middle * 2 ^ 16 + e.base_high * 2 ^ 24

abbrev pub limit_of : GdtEntry → ℕ
limit_of e = e.limit_low + e.granularity % 2 ^ 4 * 2 ^ 16

-- Granularity, size, long mode, available: from the top bit down.
abbrev pub flags_of : GdtEntry → ℕ
flags_of e = e.granularity / 2 ^ 4

abbrev pub present : GdtEntry → ℕ
present e = e.access / 2 ^ 7 % 2

abbrev pub privilege : GdtEntry → ℕ
privilege e = e.access / 2 ^ 5 % 2 ^ 2

-- Neither a system segment nor data.
abbrev pub IsCode : GdtEntry → Type 0
IsCode e = (e.access / 2 ^ 4 % 2 ≡ 1) × (e.access / 2 ^ 3 % 2 ≡ 1)

abbrev pub IsWritableData : GdtEntry → Type 0
IsWritableData e = (e.access / 2 ^ 4 % 2 ≡ 1) × (e.access / 2 ^ 3 % 2 ≡ 0) × (e.access / 2 % 2 ≡ 1)

-- `(low nibble) | (g & 0xF0)`, with both in one number.
nibble_test : ℕ → Bool
nibble_test x = bit_or (x / 256) (bit_and (x % 256) 0xF0) == x / 256 + x % 256 / 16 * 16

nibble_table : holds_below 4096 nibble_test ≡ true
unfolding holds_below nibble_test
nibble_table = refl

join_nibbles : (low g : ℕ) → low < 16 → g < 256 → bit_or low (bit_and g 0xF0) ≡ low + g / 16 * 16
unfolding nibble_test
join_nibbles low g hl hg =
    let high : (low * 256 + g) / 256 ≡ low = omega arith in
    let rest : (low * 256 + g) % 256 ≡ g = omega arith in
    let checked =
      eq_of_== _ _
        (holds_below_sound 4096 nibble_test (low * 256 + g) nibble_table (omega arith)) in
    rw (high, rest) at checked

-- Within 32 bits of base and 20 of limit, the processor reads what `gdt_set_gate` was given: the base,
-- the limit, the access byte and the high half of `granularity`. Higher bits of base and limit are
-- dropped, and no other entry changes.
pub gdt_set_gate-decode :
    (gdt : Gdt) (num base limit access granularity j : ℕ)
    → granularity < 2 ^ 8
    → let gdt' = gdt_set_gate gdt num base limit access granularity in
      (base_of (gdt' num) ≡ base % 2 ^ 32)
      × (limit_of (gdt' num) ≡ limit % 2 ^ 20)
      × ((gdt' num).access ≡ access)
      × (flags_of (gdt' num) ≡ granularity / 2 ^ 4)
      × (num ≢ j → gdt' j ≡ gdt j)
unfolding gdt_set_gate encode
gdt_set_gate-decode gdt num base limit access granularity j g =
    let nibbles : u8 (bit_or (limit / 2 ^ 16 % 2 ^ 4) (bit_and granularity 0xF0))
        ≡ limit / 2 ^ 16 % 2 ^ 4 + granularity / 16 * 16 =
      ap u8 (join_nibbles (limit / 2 ^ 16 % 2 ^ 4) granularity (omega arith) g) ∙ omega arith in
    let self = update_self gdt num (encode base limit access granularity) in
    (
      ap base_of self ∙ omega arith,
      ap limit_of self ∙ omega (arith, nibbles),
      ap (λ (e : GdtEntry). e.access) self,
      ap flags_of self ∙ omega (arith, nibbles),
      λ ne. update_ne gdt num _ j ne,
    )
