-- ===== src/Gdt.antt =====
-- gdt.c: the segment descriptors and the task state segment.
pub mod Selectors
pub mod Decode
pub mod Setup
mod Tests
use Prim.Native.Nat.{bit_and, bit_or}
use frog_os.Prelude.{ℕ, ◌+◌, ◌-◌, ◌*◌, ◌/◌, ◌%◌, ◌^◌, u8, u16, u32, update}
use frog_os.Gdt.Selectors.{kernel_tss_segment}

-- `struct gdt_entry`
pub record GdtEntry : Type 0 where
  pub limit_low : ℕ
  pub base_low : ℕ
  pub base_middle : ℕ
  pub access : ℕ
  pub granularity : ℕ
  pub base_high : ℕ

abbrev pub zero_entry : GdtEntry
zero_entry = record {
  limit_low = 0;
  base_low = 0;
  base_middle = 0;
  access = 0;
  granularity = 0;
  base_high = 0;
}

-- `struct tss_entry`; its size, and the offset of `iomap` in it.
pub record TssEntry : Type 0 where
  pub reserved1 : ℕ
  pub rsp0 : ℕ
  pub rsp1 : ℕ
  pub rsp2 : ℕ
  pub reserved2 : ℕ
  pub ist1 : ℕ
  pub ist2 : ℕ
  pub ist3 : ℕ
  pub ist4 : ℕ
  pub ist5 : ℕ
  pub ist6 : ℕ
  pub ist7 : ℕ
  pub reserved3 : ℕ
  pub reserved4 : ℕ
  pub iomap_base : ℕ
  pub iomap : ℕ → ℕ

abbrev pub offset_iomap : ℕ
offset_iomap = 4 + 3 * 8 + 8 + 7 * 8 + 8 + 2 + 2

abbrev pub sizeof_tss : ℕ
sizeof_tss = offset_iomap + 8192

abbrev pub zero_tss : TssEntry
zero_tss = record {
  reserved1 = 0;
  rsp0 = 0;
  rsp1 = 0;
  rsp2 = 0;
  reserved2 = 0;
  ist1 = 0;
  ist2 = 0;
  ist3 = 0;
  ist4 = 0;
  ist5 = 0;
  ist6 = 0;
  ist7 = 0;
  reserved3 = 0;
  reserved4 = 0;
  iomap_base = 0;
  iomap = λ _. 0;
}

abbrev pub Gdt : Type 0
Gdt = ℕ → GdtEntry

-- What `gdt_set_gate` stores in the entry. A mask of low ones is a remainder, a shift a division.
pub encode : (base limit access granularity : ℕ) → GdtEntry
encode base limit access granularity = record {
  base_low = base % 2 ^ 16;
  base_middle = base / 2 ^ 16 % 2 ^ 8;
  base_high = base / 2 ^ 24 % 2 ^ 8;
  limit_low = limit % 2 ^ 16;
  granularity = u8 (bit_or (limit / 2 ^ 16 % 2 ^ 4) (bit_and granularity 0xF0));
  access = access;
}

pub gdt_set_gate : Gdt → (num base limit access granularity : ℕ) → Gdt
gdt_set_gate gdt num base limit access granularity =
    update gdt num (encode base limit access granularity)

-- What `setup_gdt` sets up: the two globals, the limit given to `load_gdt`, and the task register.
pub record Segments : Type 0 where
  pub gdt : Gdt
  pub tss : TssEntry
  pub gdt_limit : ℕ
  pub task_register : ℕ

-- The linker chooses the address of `tss`. The `memset`s leave nothing of the earlier contents.
pub setup_gdt : (tss_address : ℕ) → Segments
setup_gdt tss_address =
    let gdt = gdt_set_gate (λ _. zero_entry) 0 0 0 0 0 in
    let gdt = gdt_set_gate gdt 1 0 0 0x9A 0x20 in
    let gdt = gdt_set_gate gdt 2 0 0xFFFFFFFF 0x92 0xCF in
    let gdt = gdt_set_gate gdt 4 0 0xFFFFFFFF 0xF2 0xCF in
    let gdt = gdt_set_gate gdt 5 0 0 0xFA 0x20 in
    record {
      tss = record zero_tss { rsp0 = 0xF0000; iomap_base = u16 offset_iomap };
      gdt = gdt_set_gate gdt 6 tss_address sizeof_tss 0xE9 0x00;
      gdt_limit = 128 * 8 - 1;
      task_register = kernel_tss_segment;
    }
