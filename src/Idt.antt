-- ===== src/Idt.antt =====
-- idt.c and irq.h: interrupt descriptors, interrupt handlers and the interrupt controllers.
pub mod Descriptor
pub mod Mask
pub mod Handlers
mod Tests
use Prim.Native.Nat.{bit_and, bit_or}
use frog_os.Prelude.{
  ℕ, zero, suc, ◌+◌, ◌-◌, ◌*◌, ◌/◌, ◌%◌, ◌^◌, Option, none, some, List, [], ◌∷◌, ◌++◌, u8, u16, u32,
  update, ltb, leb, ◌==◌, if◌then◌else◌,
}
use frog_os.Context.{Context}
use frog_os.Gdt.Selectors.{kernel_code_segment}
use frog_os.Port.{Log, out, outportb, disable, enable}

-- `InterruptDescriptor64`
pub record Descriptor64 : Type 0 where
  pub offset_1 : ℕ
  pub selector : ℕ
  pub ist : ℕ
  pub type_attributes : ℕ
  pub offset_2 : ℕ
  pub offset_3 : ℕ
  pub zero_field : ℕ

abbrev pub zero_descriptor : Descriptor64
zero_descriptor = record {
  offset_1 = 0;
  selector = 0;
  ist = 0;
  type_attributes = 0;
  offset_2 = 0;
  offset_3 = 0;
  zero_field = 0;
}

abbrev pub Idt : Type 0
Idt = ℕ → Descriptor64

-- What `install_idt_handler` stores in the entry.
pub descriptor : (func : ℕ) → Descriptor64
descriptor func = record {
  selector = kernel_code_segment;
  ist = 0;
  type_attributes = 0xEF;
  zero_field = 0;
  offset_1 = func % 2 ^ 16;
  offset_2 = func / 2 ^ 16 % 2 ^ 16;
  offset_3 = u32 (func / 2 ^ 32);
}

pub install_idt_handler : Idt → (num func : ℕ) → Idt
install_idt_handler idt num func = update idt num (descriptor func)

-- `irq_handler_t`; `next` is the address of another one, or 0.
pub record Node : Type 0 where
  pub handler : ℕ
  pub next : ℕ
  pub datum : ℕ

-- `irq_handlers`, the `irq_handler_t` at each address, and what the hardware was told.
pub record Interrupts : Type 0 where
  pub irq_handlers : ℕ → ℕ
  pub nodes : ℕ → Node
  pub log : Log

-- Port and bit of an interrupt line: the first controller has lines 0 to 7.
abbrev pub mask_port : ℕ → ℕ
mask_port irq = if leb 8 irq then 0xA1 else 0x21

abbrev pub mask_bit : ℕ → ℕ
mask_bit irq = if leb 8 irq then irq - 8 else irq

-- `value | (1 << bit)` and `value & ~(1 << bit)` on an int, stored in a uint8_t.
pub set_bit : (value bit : ℕ) → ℕ
set_bit value bit = u8 (bit_or value (2 ^ bit))

pub clear_bit : (value bit : ℕ) → ℕ
clear_bit value bit = u8 (bit_and value (2 ^ 32 - 1 - 2 ^ bit))

-- What each port reads is given by the hardware. The argument is a uint8_t.
pub irq_set_mask : (inportb : ℕ → ℕ) → (irq : ℕ) → Log → Log
irq_set_mask inportb irq log =
    enable
      (outportb (mask_port irq) (set_bit (inportb (mask_port irq)) (mask_bit irq)) (disable log))

pub irq_clear_mask : (inportb : ℕ → ℕ) → (irq : ℕ) → Log → Log
irq_clear_mask inportb irq log =
    if leb 16 irq
    then log
    else enable (
        outportb (mask_port irq) (clear_bit (inportb (mask_port irq)) (mask_bit irq)) (disable log))

-- The first half of `install_irq_handler`: unmask the line, if it has no handler yet.
abbrev pub unmask_line : (inportb : ℕ → ℕ) → (num : ℕ) → Interrupts → Log
unmask_line inportb num i =
    if i.irq_handlers num == 0
    then irq_clear_mask inportb (u8 num) (disable i.log)
    else disable i.log

unfoldable pub install_irq_handler : (inportb : ℕ → ℕ) → (num node : ℕ) → Interrupts → Interrupts
install_irq_handler inportb num node i = record {
  nodes = update i.nodes node (record (i.nodes node) { next = i.irq_handlers num });
  irq_handlers = update i.irq_handlers num node;
  log = enable (unmask_line inportb num i);
}

-- The loop over the handlers of a line. A call of `handler(r, data)` is the argument `call`, on
-- whatever state it works on; it leaves the list alone. `none` if `fuel` handlers are not all.
pub run_handlers {ℓ} :
    {S : Type ℓ} → (call : ℕ → ℕ → S → S) → (fuel : ℕ) → (ℕ → Node) → (head : ℕ) → S → Option S
run_handlers call zero nodes head s = none
run_handlers call (suc fuel) nodes head s =
    let rest =
      run_handlers call fuel nodes (nodes head).next
        (call (nodes head).handler (nodes head).datum s) in
    if head == 0 then some s else rest

-- The end of interrupt, to the second controller for its lines and to the first always.
abbrev pub end_of_interrupt : (int_no : ℕ) → Log → Log
end_of_interrupt int_no log =
    if leb int_no 48
    then outportb 0x20 0x20 (if leb 40 int_no then outportb 0xA0 0x20 log else log)
    else log

-- How `irq_handler` ends: it prints an exception (with `cr2` for a page fault) and halts for good, or
-- it returns, or a list of handlers did not end within the fuel.
pub data Handled {ℓ} (S : Type ℓ) : Type ℓ where
  halted : (int_no : ℕ) (page_fault : Option ℕ) → Handled S
  returned : S → Log → Handled S
  endless : Handled S

-- `int_no` of the registers; `cr2` is what the processor's register holds.
pub irq_handler {ℓ} :
    {S : Type ℓ}
    → (call : ℕ → ℕ → S → S) → (fuel : ℕ) → (int_no cr2 : ℕ) → Interrupts
    → S
    → Handled S
irq_handler call fuel int_no cr2 i s =
    if ltb int_no 32
    then halted int_no (if int_no == 0xe then some cr2 else none)
    else elim (run_handlers call fuel i.nodes (i.irq_handlers (int_no - 32)) s) [
      | none ↦ endless
      | some s' ↦ returned s' (end_of_interrupt int_no i.log)
    ]

-- `for(int i=0; i<49; ++i) install_idt_handler(i, irq_table[i]);` for `n` rounds from `i` on.
pub install_all : (n i : ℕ) → (irq_table : ℕ → ℕ) → Idt → Idt
install_all zero i irq_table idt = idt
install_all (suc n) i irq_table idt =
    install_all n (i + 1) irq_table (install_idt_handler idt i (irq_table i))

-- The initialisation of the two controllers: in order, the port and the byte of each write.
abbrev pub pic_setup : List (ℕ × ℕ)
pic_setup =
    (0x20, 0x11)
    ∷ (0xA0, 0x11)
    ∷ (0x21, 0x20)
    ∷ (0xA1, 0x28)
    ∷ (0x21, 0x04)
    ∷ (0xA1, 0x02)
    ∷ (0x21, 0x01)
    ∷ (0xA1, 0x01)
    ∷ (0x21, 0xfb)
    ∷ (0xA1, 0xff)
    ∷ []

pub write_all : List (ℕ × ℕ) → Log → Log
write_all [] log = log
write_all ((port, byte) ∷ writes) log = write_all writes (outportb port byte log)

-- What `setup_idt` sets up: the table, the register that `lidt` loads, and what the hardware is told.
-- The addresses that it prints are left out.
pub record IdtSetup : Type 0 where
  pub idt : Idt
  pub idtr_size : ℕ
  pub idtr_offset : ℕ
  pub log : Log

pub setup_idt : (irq_table : ℕ → ℕ) → (idt_address : ℕ) → Log → IdtSetup
setup_idt irq_table idt_address log = record {
  idt = install_all 49 0 irq_table (λ _. zero_descriptor);
  idtr_size = 256 * 16 - 1;
  idtr_offset = idt_address;
  log = enable (write_all pic_setup log);
}
