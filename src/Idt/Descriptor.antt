-- ===== src/Idt/Descriptor.antt =====
-- idt.c: which handler the processor finds for an interrupt.
use frog_os.Prelude.{
  ℕ, zero, suc, ◌+◌, ◌*◌, ◌/◌, ◌^◌, ◌≤◌, ◌<◌, ◌≡◌, refl, ap, subst, sym, Bool, true, ◌∙◌, ltb, leb,
  ◌&&◌, if◌then◌else◌, arith,
}
use frog_os.Gdt.Selectors.{kernel_code_segment}
use frog_os.Port.{Log, interrupts}
use frog_os.Idt.{
  Descriptor64, zero_descriptor, Idt, descriptor, install_idt_handler, install_all, setup_idt,
}

-- The address and the present bit of a descriptor, by the processor's layout.
abbrev pub handler_of : Descriptor64 → ℕ
handler_of d = d.offset_1 + d.offset_2 * 2 ^ 16 + d.offset_3 * 2 ^ 32

abbrev pub present : Descriptor64 → ℕ
present d = d.type_attributes / 2 ^ 7

-- A present descriptor of the kernel's code segment for the handler at an address.
abbrev pub Handles : Descriptor64 → ℕ → Type 0
Handles d func = (handler_of d ≡ func) × (present d ≡ 1) × (d.selector ≡ kernel_code_segment)

descriptor-Handles : (func : ℕ) → func < 2 ^ 64 → Handles (descriptor func) func
unfolding descriptor
descriptor-Handles func h = (omega arith, refl, refl)

install_all-get :
    (n i j : ℕ) (irq_table : ℕ → ℕ) (idt : Idt)
    → install_all n i irq_table idt j
      ≡ (if leb i j && ltb j (i + n) then descriptor (irq_table j) else idt j)
unfolding install_all install_idt_handler
install_all-get zero i j irq_table idt = ground arith
install_all-get (suc n) i j irq_table idt =
    ground (arith, install_all-get n (i + 1) j irq_table (install_idt_handler idt i (irq_table i)))

-- After `setup_idt` the processor finds the handler of `irq_table` for each of the interrupts 0 to 48,
-- whatever its 64-bit address, and a descriptor that is not present for each other one; the register
-- that `lidt` loads has the address of the table and covers 256 descriptors; and interrupts are on.
pub setup_idt-Handles :
    (irq_table : ℕ → ℕ) (idt_address j : ℕ) (before : Bool) (log : Log)
    → ((i : ℕ) → irq_table i < 2 ^ 64)
    → let s = setup_idt irq_table idt_address log in
      (j < 49 → Handles (s.idt j) (irq_table j))
      × (49 ≤ j → present (s.idt j) ≡ 0)
      × (s.idtr_offset ≡ idt_address)
      × (s.idtr_size + 1 ≡ 256 * 16)
      × (interrupts before s.log ≡ true)
unfolding setup_idt interrupts
setup_idt-Handles irq_table idt_address j before log small =
    let s = setup_idt irq_table idt_address log in
    let get = install_all-get 49 0 j irq_table (λ _. zero_descriptor) in
    (
      λ below.
          let found : s.idt j ≡ descriptor (irq_table j) = get ∙ ground arith in
          subst (λ d. Handles d (irq_table j)) (sym found)
            (descriptor-Handles (irq_table j) (small j)),
      λ beyond. let absent : s.idt j ≡ zero_descriptor = get ∙ ground arith in ap present absent,
      refl,
      refl,
      refl,
    )
