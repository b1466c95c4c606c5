-- ===== src/Idt/Mask.antt =====
-- idt.c: masking and unmasking an interrupt line.
use frog_os.Prelude.{false, leb}
use frog_os.Prelude.{
  ℕ, ◌+◌, ◌*◌, ◌/◌, ◌%◌, ◌^◌, ◌<◌, ◌≡◌, refl, Bool, true, ◌&&◌, ◌∷◌, ◌==◌, if◌then◌else◌, arith,
  holds_below, holds_below_sound,
}
use frog_os.Port.{Log, out, cli, sti}
use frog_os.Idt.{mask_port, mask_bit, set_bit, clear_bit, irq_set_mask, irq_clear_mask}

-- Bit `i` of a byte.
abbrev pub bit_of : (value i : ℕ) → ℕ
bit_of value i = value / 2 ^ i % 2

-- Both operations for a value below 256, a bit and a place below 8, all in one number.
bits_test : ℕ → Bool
bits_test x =
    (bit_of (set_bit (x / 64) (x / 8 % 8)) (x % 8)
      == (if x / 8 % 8 == x % 8 then 1 else bit_of (x / 64) (x % 8)))
    && (bit_of (clear_bit (x / 64) (x / 8 % 8)) (x % 8)
        == (if x / 8 % 8 == x % 8 then 0 else bit_of (x / 64) (x % 8)))

bits_table : holds_below 16384 bits_test ≡ true
unfolding holds_below bits_test set_bit clear_bit
bits_table = refl

bits :
    (value bit i : ℕ)
    → value < 256
    → bit < 8
    → i < 8
    → (bit_of (set_bit value bit) i ≡ (if bit == i then 1 else bit_of value i))
      × (bit_of (clear_bit value bit) i ≡ (if bit == i then 0 else bit_of value i))
unfolding bits_test
bits value bit i hv hb hi =
    let x = value * 64 + bit * 8 + i in
    let e₁ : x / 64 ≡ value = omega arith in
    let e₂ : x / 8 % 8 ≡ bit = omega arith in
    let e₃ : x % 8 ≡ i = omega arith in
    let checked = holds_below_sound 16384 bits_test x bits_table (omega arith) in
    let known = rw (e₁, e₂, e₃) at checked in ground (arith, known)

-- The log of one write of a mask, with interrupts off meanwhile and on afterwards.
abbrev pub Writes : (port : ℕ) (mask : ℕ) → Log → Log → Type 0
Writes port mask before after = after ≡ sti ∷ out port mask ∷ cli ∷ before

-- The mask is `old`, but with bit `bit` changed to `v`.
abbrev pub ChangesBit : (old mask bit v : ℕ) → Type 0
ChangesBit old mask bit v = (i : ℕ) → i < 8 → bit_of mask i ≡ (if bit == i then v else bit_of old i)

-- The port of the mask of each interrupt controller.
abbrev pub controller_port : (controller : ℕ) → ℕ
controller_port controller = 0x21 + 0x80 * controller

-- `irq_clear_mask` and `irq_set_mask` of line `bit` of controller 0 (lines 0 to 7) or 1 (8 to 15) write
-- the mask at its port, 0x21 or 0xA1, with this bit cleared or set and no other bit changed, if the
-- port reads the mask, a byte. `irq_clear_mask` does nothing for a line from 16 on.
pub irq_mask_lem :
    (inportb : ℕ → ℕ) (controller bit beyond : ℕ) (log : Log)
    → ((port : ℕ) → inportb port < 256)
    → controller < 2
    → bit < 8
    → let port = controller_port controller in
      let irq = 8 * controller + bit in
      ((cleared : ℕ) × (set : ℕ) × Writes port cleared log (irq_clear_mask inportb irq log)
        × ChangesBit (inportb port) cleared bit 0
        × Writes port set log (irq_set_mask inportb irq log)
        × ChangesBit (inportb port) set bit 1)
      × (irq_clear_mask inportb (16 + beyond) log ≡ log)
unfolding irq_clear_mask irq_set_mask clear_bit set_bit
irq_mask_lem inportb controller bit beyond log byte hc hb =
    let irq = 8 * controller + bit in
    let port : mask_port irq ≡ controller_port controller = ground arith in
    let same_bit : mask_bit irq ≡ bit = ground arith in
    let below : leb 16 irq ≡ false = ground arith in
    let old = inportb (controller_port controller) in
    (
      (
        clear_bit old bit,
        set_bit old bit,
        rw (below, port, same_bit) (ground (arith, hc)),
        λ i hi. (bits old bit i (byte (controller_port controller)) hb hi).1,
        rw (port, same_bit) (ground (arith, hc)),
        λ i hi. (bits old bit i (byte (controller_port controller)) hb hi).0,
      ),
      ground arith,
    )
