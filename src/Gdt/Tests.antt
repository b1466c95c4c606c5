-- ===== src/Gdt/Tests.antt =====
-- Tests of gdt.c.
use frog_os.Prelude.{ℕ, ◌/◌, ◌%◌, ◌^◌, ◌≡◌, ◌≢◌, refl, ◌==◌, if◌then◌else◌, arith}
use frog_os.Gdt.{Gdt, zero_entry, encode, gdt_set_gate, setup_gdt}
use frog_os.Gdt.Decode.{base_of, limit_of, flags_of, gdt_set_gate-decode}
use frog_os.Gdt.Setup.{AreUsable, new_context-AreUsable}
use frog_os.Process.{new_context}

abbrev table : Gdt
table = gdt_set_gate (λ _. zero_entry) 2 0x12345678 0xFFFFFFFF 0x92 0xCF

encode_runs : encode 0x12345678 0xFFFFFFFF 0x92 0xCF ≡ record {
  limit_low = 0xFFFF;
  base_low = 0x5678;
  base_middle = 0x34;
  access = 0x92;
  granularity = 0xCF;
  base_high = 0x12;
}
unfolding encode
encode_runs = refl

gdt_set_gate-decode_example :
    (base_of (table 2) ≡ 0x12345678 % 2 ^ 32)
    × (limit_of (table 2) ≡ 0xFFFFFFFF % 2 ^ 20)
    × ((table 2).access ≡ 0x92)
    × (flags_of (table 2) ≡ 0xCF / 2 ^ 4)
    × (◌≢◌ {A = ℕ} 2 3 → table 3 ≡ zero_entry)
gdt_set_gate-decode_example =
    gdt_set_gate-decode (λ _. zero_entry) 2 0x12345678 0xFFFFFFFF 0x92 0xCF 3 (omega arith)

new_context-AreUsable_example :
    let context = new_context 0x200100 0 3 0x300000 in
    AreUsable (setup_gdt 0x210000).gdt context.cs context.ss (if 0 == 0 then 3 else 0)
new_context-AreUsable_example = new_context-AreUsable 0x210000 0x200100 0 3 0x300000
