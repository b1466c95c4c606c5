-- ===== src/Syscall.antt =====
-- syscall.c and include/syscall.h: the system calls.
pub mod Calls
pub mod Sleep
pub mod Interrupted
pub mod Rounds
pub mod Stubs
mod Tests
use frog_os.Prelude.{
  ℕ, zero, suc, ◌+◌, ◌-◌, ◌*◌, ◌/◌, Option, none, some, List, [], ◌∷◌, u8, u64, sub64, sign_extend,
  ltb, leb, ◌==◌, ◌&&◌, if◌then◌else◌,
}
use frog_os.Conio.{Screen, putch, puts}
use frog_os.Port.{enable, disable}
use frog_os.Process.{Kernel, current, ready, set_process, preempt, add_to_run_queue}
use frog_os.Pit.{Machine}

abbrev pub syscall_write : ℕ
syscall_write = 0

abbrev pub syscall_sleep : ℕ
syscall_sleep = 1

abbrev pub syscall_getpid : ℕ
syscall_getpid = 2

abbrev pub syscall_hlt : ℕ
syscall_hlt = 3

-- `struct syscall_state`
pub record SyscallState : Type 0 where
  pub rax : ℕ
  pub rbp : ℕ
  pub rbx : ℕ
  pub r11 : ℕ
  pub r10 : ℕ
  pub r9 : ℕ
  pub r8 : ℕ
  pub rcx : ℕ
  pub rdx : ℕ
  pub rsi : ℕ
  pub rdi : ℕ

-- What a `hlt` does to the machine: everything that runs, interrupt handlers and other processes,
-- until the process goes on behind it. A list has one for each `hlt` that the process gets over.
abbrev pub Wakes : Type 0
Wakes = List (Machine → Machine)

-- How a system call ends: it returns, the process never goes on behind a `hlt`, or `puts` took more
-- than its fuel.
pub data Outcome : Type 0 where
  returned : Machine → SyscallState → Outcome
  asleep : Machine → Outcome
  no_fuel : Outcome

-- `putch(buffer[i])` for `n` bytes from an address on.
pub write_bytes : (n : ℕ) → (mem : ℕ → ℕ) → (address : ℕ) → Screen → Screen
write_bytes zero mem address s = s
write_bytes (suc n) mem address s =
    write_bytes n mem (u64 (address + 1)) (putch (u8 (mem address)) s)

-- The two statements of call 4, which gives up the slice. Interrupts are on in between.
abbrev pub mark_ready : Kernel → Kernel
mark_ready k = set_process k k.current_pid (record (current k) { state = ready })

abbrev pub yield_slice : Kernel → Kernel
yield_slice k = let k' = mark_ready k in add_to_run_queue k' k'.current_pid

-- In the loop of SYSCALL_SLEEP the process goes to the end of the run queue, and then becomes ready.
abbrev pub requeue : Kernel → Kernel
requeue k =
    let k' = add_to_run_queue k k.current_pid in
    set_process k' k'.current_pid (record (current k') { state = ready })

abbrev pub go_to_sleep : Machine → Machine
go_to_sleep m = record m { kernel = requeue m.kernel; log = enable (disable m.log) }

-- `while (pit_counter - start < ticks)`
pub sleep_loop : Wakes → (start ticks : ℕ) → SyscallState → Machine → Outcome
sleep_loop [] start ticks st m =
    if ltb (sub64 m.pit_counter start) ticks
    then asleep (go_to_sleep m)
    else returned m (record st { rdi = ticks; rax = u64 (10 * sub64 m.pit_counter start) })
sleep_loop (wake ∷ wakes) start ticks st m =
    let next = sleep_loop wakes start ticks st (wake (go_to_sleep m)) in
    if ltb (sub64 m.pit_counter start) ticks
    then next
    else returned m (record st { rdi = ticks; rax = u64 (10 * sub64 m.pit_counter start) })

-- `state->rdi = (state->rdi + 9) / 10`
abbrev pub ticks_of : (milliseconds : ℕ) → ℕ
ticks_of milliseconds = u64 (milliseconds + 9) / 10

pub halt : Wakes → SyscallState → Machine → Outcome
halt [] st m = asleep m
halt (wake ∷ wakes) st m = returned (wake m) st

pub print : Option Screen → SyscallState → Machine → Outcome
print none st m = no_fuel
print (some s) st m = returned (record m { screen = s }) st

-- `mem` is the memory, and `message n` the address of the text that call `n` prints.
pub ksyscall :
    (fuel : ℕ) → (mem : ℕ → ℕ) → (message : ℕ → ℕ) → Wakes → SyscallState → Machine → Outcome
ksyscall fuel mem message wakes st m =
    if st.rax == syscall_write
    then returned (record m { screen = write_bytes st.rsi mem st.rdi m.screen }) st
    else if st.rax == syscall_sleep
    then sleep_loop wakes m.pit_counter (ticks_of st.rdi) st m
    else if st.rax == syscall_getpid
    then returned m (record st { rax = sign_extend m.kernel.current_pid })
    else if st.rax == syscall_hlt
    then halt wakes st m
    else if st.rax == 4
    then returned (record m { kernel = yield_slice m.kernel }) st
    else if leb 5 st.rax && leb st.rax 29
    then print (puts fuel mem (message st.rax) m.screen) st m
    else returned m st
