-- ===== src/Syscall/Stubs.antt =====
-- lib/syscall.c: the stubs that user processes call the kernel by.
use frog_os.Prelude.{ℕ, ◌≡◌, refl, Option, none, some}
use frog_os.Pit.{Machine}
use frog_os.Syscall.{SyscallState, Outcome, returned, asleep, no_fuel}

-- What the kernel makes of the registers that it is entered with, on the machine of that moment.
abbrev pub KernelEntry : Type 0
KernelEntry = SyscallState → Machine → Outcome

-- What else a stub finds: the registers that it does not set, the address behind its `syscall`
-- instruction, and the flags. The instruction puts the last two into rcx and r11.
pub record Caller : Type 0 where
  pub registers : SyscallState
  pub return_address : ℕ
  pub rflags : ℕ

abbrev pub enter : Caller → SyscallState → SyscallState
enter c st = record st { rcx = c.return_address; r11 = c.rflags }

-- The machine and `rax` after the instruction; `none` if the call does not return.
abbrev pub result : Outcome → Option (Machine × ℕ)
result (returned m st) = some (m, st.rax)
result (asleep m) = none
result no_fuel = none

pub syscall0 : KernelEntry → Caller → (rax : ℕ) → Machine → Option (Machine × ℕ)
syscall0 kernel c rax m = result (kernel (enter c (record c.registers { rax = rax })) m)

pub syscall1 : KernelEntry → Caller → (rax rdi : ℕ) → Machine → Option (Machine × ℕ)
syscall1 kernel c rax rdi m =
    result (kernel (enter c (record c.registers { rax = rax; rdi = rdi })) m)

pub syscall2 : KernelEntry → Caller → (rax rdi rsi : ℕ) → Machine → Option (Machine × ℕ)
syscall2 kernel c rax rdi rsi m =
    result (kernel (enter c (record c.registers { rax = rax; rdi = rdi; rsi = rsi })) m)

pub syscall3 : KernelEntry → Caller → (rax rdi rsi rdx : ℕ) → Machine → Option (Machine × ℕ)
syscall3 kernel c rax rdi rsi rdx m =
    result (kernel (enter c (record c.registers { rax = rax; rdi = rdi; rsi = rsi; rdx = rdx })) m)

pub syscall4 : KernelEntry → Caller → (rax rdi rsi rdx rcx : ℕ) → Machine → Option (Machine × ℕ)
syscall4 kernel c rax rdi rsi rdx rcx m = result (
    kernel (enter c (record c.registers { rax = rax; rdi = rdi; rsi = rsi; rdx = rdx; rcx = rcx }))
      m)

-- The fourth argument of `syscall4` is lost: the kernel is entered as by `syscall3`, whatever it is.
pub syscall4-eq-syscall3 :
    (kernel : KernelEntry) (c : Caller) (rax rdi rsi rdx rcx : ℕ) (m : Machine)
    → syscall4 kernel c rax rdi rsi rdx rcx m ≡ syscall3 kernel c rax rdi rsi rdx m
unfolding syscall4 syscall3
syscall4-eq-syscall3 kernel c rax rdi rsi rdx rcx m = refl
