-- ===== src/Port.antt =====
-- include/port.h and the interrupt flag (`disable` and `enable` of idt.c): what the kernel tells the
-- hardware, as a log with the newest first.
use frog_os.Prelude.{ℕ, List, [], ◌∷◌, Bool, true, false, u8, u16}

-- A byte written to a port, `cli` and `sti`.
pub data Event : Type 0 where
  out : (port byte : ℕ) → Event
  cli : Event
  sti : Event

abbrev pub Log : Type 0
Log = List Event

-- `outportb`: the arguments are an unsigned short and an unsigned char.
abbrev pub outportb : ℕ → ℕ → Log → Log
outportb port byte log = out (u16 port) (u8 byte) ∷ log

abbrev pub disable : Log → Log
disable log = cli ∷ log

abbrev pub enable : Log → Log
enable log = sti ∷ log

-- Whether interrupts are on after a log that began with them on or off.
unfoldable pub interrupts : Bool → Log → Bool
interrupts before [] = before
interrupts before (out port byte ∷ log) = interrupts before log
interrupts before (cli ∷ log) = false
interrupts before (sti ∷ log) = true
