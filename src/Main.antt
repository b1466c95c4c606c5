-- ===== src/Main.antt =====
-- cmain.c: what the kernel does before the first process runs.
pub mod Ready
mod Tests
use frog_os.Prelude.{ℕ, Option, none, some, [], zero}
use frog_os.Port.{disable, enable}
use frog_os.Mem.{Heap, boot_heap}
use frog_os.Conio.{Screen, cls, puts}
use frog_os.Gdt.{Segments, setup_gdt}
use frog_os.Idt.{Interrupts, IdtSetup, setup_idt}
use frog_os.Prelude.{List, ◌∷◌}
use frog_os.Process.{Message, Kernel, setup_process}
use frog_os.Process.Setup.{boot_with}
use frog_os.Pit.{setup_pit}

-- The addresses that the linker gives, and the texts that are printed.
pub record Addresses : Type 0 where
  pub tss : ℕ
  pub idt : ℕ
  pub pit_handler : ℕ
  pub init : ℕ
  pub user_task : ℕ
  pub long_mode : ℕ
  pub tss_loaded : ℕ

-- What `cmain` has set up when it comes to its last loop.
pub record Booted : Type 0 where
  pub screen : Screen
  pub segments : Segments
  pub table : IdtSetup
  pub interrupts : Interrupts
  pub kernel : Kernel

-- The globals of idt.c before.
abbrev pub boot_interrupts : Interrupts
boot_interrupts = record {
  irq_handlers = λ _. 0;
  nodes = λ _. record { handler = 0; next = 0; datum = 0 };
  log = [];
}

-- What process.c has printed, the newest first, comes to the screen.
pub show : (print_message : Message → Screen → Screen) → List Message → Screen → Screen
show print_message [] screen = screen
show print_message (message ∷ before) screen =
    print_message message (show print_message before screen)

-- The set-up functions from `setup_pit` on. `setup_process` runs between `disable` and `enable`.
abbrev pub start_kernel :
    (inportb : ℕ → ℕ)
    → (print_message : Message → Screen → Screen) → Addresses
    → Screen
    → Segments
    → IdtSetup
    → Interrupts
    → Booted
start_kernel inportb print_message at screen segments table i =
    let (heap, i') = setup_pit inportb at.pit_handler boot_heap i in
    let kernel = setup_process at.init at.user_task (boot_with heap) in
    record {
      screen = show print_message kernel.printed screen;
      segments = segments;
      table = table;
      interrupts = record i' { log = enable (disable i'.log) };
      kernel = kernel;
    }

-- `cmain`, if no interrupt comes before it ends; `none` if `puts` takes more than its fuel. What
-- `printf` prints is an argument: `print_sector` the number of the last sector, and `print_table` the
-- addresses of `setup_idt`, `print_message` the messages of process.c. `setup_syscall` is assembly that writes processor registers.
pub cmain :
    (fuel : ℕ)
    → (mem inportb irq_table : ℕ → ℕ) → (print_sector print_table : Screen → Screen)
    → (print_message : Message → Screen → Screen) → Addresses
    → Screen
    → Option Booted
cmain fuel mem inportb irq_table print_sector print_table print_message at s =
    elim (puts fuel mem at.long_mode (cls s)) [
      | none ↦ none
      | some s₁ ↦
          let segments = setup_gdt at.tss in
          let table = setup_idt irq_table at.idt (disable []) in
          elim (puts fuel mem at.tss_loaded (print_table (print_sector s₁))) [
            | none ↦ none
            | some s₂ ↦ some (
                start_kernel inportb print_message at s₂ segments table
                  (record boot_interrupts { log = table.log }))
          ]
    ]
