-- ===== src/Pit.antt =====
-- pit.c: the timer interrupt.
pub mod Timer
use frog_os.Prelude.{ℕ, ◌+◌, List, [], ◌∷◌, u64, update, ◌==◌, if◌then◌else◌}
use frog_os.Context.{Context}
use frog_os.Conio.{Screen}
use frog_os.Mem.{Heap, malloc}
use frog_os.Port.{Log, outportb, disable, enable}
use frog_os.Idt.{Interrupts, Node, install_irq_handler}
use frog_os.Process.{Kernel, schedule_process}

-- The state that interrupts and system calls work on: the globals of process.c, those of conio.c and
-- `pit_counter`, with what the hardware was told.
pub record Machine : Type 0 where
  pub kernel : Kernel
  pub screen : Screen
  pub pit_counter : ℕ
  pub log : Log

-- `r` is the interrupt frame, read as a `process_context_t`.
pub pit_handler : Context → Machine → Machine × Context
pit_handler r m =
    let (k, r') = schedule_process m.kernel r in
    (
      record m { pit_counter = u64 (m.pit_counter + 1); kernel = k; log = enable (disable m.log) },
      r',
    )

abbrev pub sizeof_irq_handler : ℕ
sizeof_irq_handler = 24

-- `handler->handler=pit_handler; handler->next=0; handler->data=0;`
abbrev pub fill_node : (node handler : ℕ) → Interrupts → Interrupts
fill_node node handler i = record i {
  nodes = update i.nodes node (record { handler = handler; next = 0; datum = 0 });
}

-- The bytes that are written to the timer, between `disable` and `enable`.
abbrev pub program_pit : Log → Log
program_pit log =
    enable (outportb 0x40 0x2e (outportb 0x40 0x9c (outportb 0x42 0b00110100 (disable log))))

-- `handler` is the address of `pit_handler`; the heap and the interrupts after the call.
pub setup_pit : (inportb : ℕ → ℕ) → (handler : ℕ) → Heap → Interrupts → Heap × Interrupts
setup_pit inportb handler heap i =
    let (node, heap') = malloc heap sizeof_irq_handler in
    let installed = install_irq_handler inportb 0 node (fill_node node handler i) in
    if node == 0 then (heap', i) else (heap', record installed { log = program_pit installed.log })
