-- ===== src/Gdt/Setup.antt =====
-- gdt.c and include/gdt.h: the descriptors behind the selectors, and those that processes start with.
use Prim.Native.Nat.{bit_or}
use frog_os.Prelude.{ℕ, ◌/◌, ◌%◌, ◌≡◌, refl, inl, inr, Bool-cases, ◌==◌, if◌then◌else◌}
use frog_os.Gdt.{Gdt, encode, gdt_set_gate, setup_gdt}
use frog_os.Gdt.Decode.{present, privilege, IsCode, IsWritableData}
use frog_os.Gdt.Selectors.{
  kernel_code_segment, kernel_data_segment, user_code_segment, user_data_segment,
}
use frog_os.Process.{new_context}

-- The entry that a selector names, and the privilege level that it requests.
abbrev pub index : ℕ → ℕ
index selector = selector / 8

abbrev pub requested : ℕ → ℕ
requested selector = selector % 4

-- The selectors name a present code segment and a present, writable data segment, and in both the
-- requested privilege is that of the descriptor, `level`.
abbrev pub AreUsable : Gdt → (cs ss level : ℕ) → Type 0
AreUsable gdt cs ss level =
    IsCode (gdt (index cs))
    × IsWritableData (gdt (index ss))
    × (present (gdt (index cs)) ≡ 1)
    × (present (gdt (index ss)) ≡ 1)
    × (privilege (gdt (index cs)) ≡ level)
    × (privilege (gdt (index ss)) ≡ level)
    × (requested cs ≡ level)
    × (requested ss ≡ level)

kernel_segments-AreUsable :
    (tss_address : ℕ)
    → AreUsable (setup_gdt tss_address).gdt kernel_code_segment kernel_data_segment 0
unfolding setup_gdt gdt_set_gate encode
kernel_segments-AreUsable a = ((refl, refl), (refl, refl, refl), refl, refl, refl, refl, refl, refl)

user_segments-AreUsable :
    (tss_address : ℕ)
    → AreUsable
        (setup_gdt tss_address).gdt
        (bit_or user_code_segment 3)
        (bit_or user_data_segment 3)
        3
unfolding setup_gdt gdt_set_gate encode
user_segments-AreUsable a = ((refl, refl), (refl, refl, refl), refl, refl, refl, refl, refl, refl)

-- Every process starts with a present code segment and a present, writable stack segment of the table
-- that `setup_gdt` makes, and the requested privilege is that of the descriptors: 0 for a kernel
-- task, and 3 for any other.
pub new_context-AreUsable :
    (tss_address entry_point kernel_task pid stack : ℕ)
    → let context = new_context entry_point kernel_task pid stack in
      AreUsable
        (setup_gdt tss_address).gdt
        context.cs
        context.ss
        (if kernel_task == 0 then 3 else 0)
unfolding new_context
new_context-AreUsable tss_address entry_point kernel_task pid stack =
    elim (Bool-cases (kernel_task == 0)) [
      | inl user ↦ rw user (user_segments-AreUsable tss_address)
      | inr kernel ↦ rw kernel (kernel_segments-AreUsable tss_address)
    ]
