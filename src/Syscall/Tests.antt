-- ===== src/Syscall/Tests.antt =====
-- Tests of syscall.c and pit.c.
use frog_os.Prelude.{ℕ, ◌+◌, ◌-◌, ◌*◌, ◌^◌, ◌≤◌, ◌<◌, ◌≡◌, refl, [], ◌∷◌, true, u64, arith}
use frog_os.Context.{zero_context}
use frog_os.Conio.{Screen, boot_screen}
use frog_os.Conio.Cursor.{IsOnScreen}
use frog_os.Conio.Grid.{terminal, LooksAs}
use frog_os.Conio.Text.{type_all}
use frog_os.Idt.{Interrupts}
use frog_os.Process.{Kernel}
use frog_os.Process.RoundRobin.{RoundRobin, rotate}
use frog_os.Process.Fair.{wait}
use frog_os.Process.Examples.{busy_kernel-view}
use frog_os.Process.Valid.{IsValid, view, view_ring}
use frog_os.Process.Examples.{busy_kernel, busy_kernel-IsValid, busy_kernel-on_cpu}
use frog_os.Pit.{Machine}
use frog_os.Syscall.{SyscallState, returned, Wakes, ksyscall, ticks_of}
use frog_os.Syscall.{mark_ready}
use frog_os.Syscall.Interrupted.{mark_ready-IsLost}
use frog_os.Syscall.Rounds.{wakes_of, turn_ticks, ksyscall_sleep-returns}
use frog_os.Prelude.{List, count, length, replicate, ◌≢◌, ◌∙◌, sym, ap}
use frog_os.Context.{Context}
use frog_os.Process.{schedule_process}
use frog_os.Process.Valid.{on_cpu}
use frog_os.Process.Reach.{Later, here, after, timer}
use frog_os.Process.Examples.{busy_kernel-Ready}
use frog_os.Syscall.Sleep.{slept, elapsed, Progresses, ksyscall_sleep, ksyscall_sleep_wraps}
use frog_os.Syscall.Calls.{ksyscall_yield_twice, buffer, ksyscall_write, ksyscall_yield}

abbrev machine : Machine
machine = record {
  kernel = busy_kernel;
  screen = boot_screen (λ _. 0);
  pit_counter = 2 ^ 64 - 1;
  log = [];
}

abbrev registers : (rax rdi rsi : ℕ) → SyscallState
registers rax rdi rsi = record {
  rax = rax;
  rbp = 0;
  rbx = 0;
  r11 = 0;
  r10 = 0;
  r9 = 0;
  r8 = 0;
  rcx = 0;
  rdx = 0;
  rsi = rsi;
  rdi = rdi;
}

-- The process goes on after one more tick; the counter wraps at the first.
abbrev one_tick : Machine → Machine
one_tick m = record m { pit_counter = u64 (m.pit_counter + 1) }

abbrev wakes : Wakes
wakes = one_tick ∷ one_tick ∷ []

abbrev mem : ℕ → ℕ
mem i = i

one_tick-Progresses : Progresses (2 ^ 64 - 1) 2 one_tick
one_tick-Progresses m h = omega arith

ksyscall_sleep_example :
    (m' : Machine) × (st' : SyscallState) × (ksyscall 9 mem mem wakes (registers 1 15 0) machine
      ≡ returned m' st')
    × (ticks_of 15 ≤ elapsed (2 ^ 64 - 1) m')
    × (15 ≤ 10 * elapsed (2 ^ 64 - 1) m')
    × (st'.rax ≡ u64 (10 * elapsed (2 ^ 64 - 1) m'))
    × (10 * elapsed (2 ^ 64 - 1) m' < 2 ^ 64 → 15 ≤ st'.rax)
ksyscall_sleep_example =
    ksyscall_sleep 9 mem mem wakes (registers 1 15 0) machine refl (omega arith) (omega arith)
      (one_tick-Progresses, (one_tick-Progresses, tt)) (omega arith)

ksyscall_sleep_wraps_example :
    ksyscall 9 mem mem [] (registers 1 (2 ^ 64 - 9) 0) machine ≡ returned machine (registers 0 0 0)
ksyscall_sleep_wraps_example =
    ksyscall_sleep_wraps 9 mem mem [] (registers 1 (2 ^ 64 - 9) 0) machine refl (omega arith)
      (omega arith)

screen-IsOnScreen : IsOnScreen machine.screen
screen-IsOnScreen = omega arith

ksyscall_write_example :
    (s : Screen) × (ksyscall 9 mem mem [] (registers 0 b'a' 3) machine
      ≡ returned (record machine { screen = s }) (registers 0 b'a' 3))
    × IsOnScreen s
    × LooksAs (terminal s) (type_all 0xf (buffer mem b'a' 3) (terminal machine.screen))
ksyscall_write_example =
    ksyscall_write 9 mem mem [] (registers 0 b'a' 3) machine refl screen-IsOnScreen

ksyscall_yield_example :
    (k : Kernel) × (ksyscall 9 mem mem [] (registers 4 0 0) machine
      ≡ returned (record machine { kernel = k }) (registers 4 0 0))
    × IsValid 5 k
    × (view k ≡ record { ring = rotate (view_ring busy_kernel); slice = 0 })
ksyscall_yield_example =
    ksyscall_yield 9 5 mem mem [] (registers 4 0 0) machine refl busy_kernel-IsValid
      busy_kernel-on_cpu

abbrev bare : Interrupts
bare = record {
  irq_handlers = λ _. 0;
  nodes = λ _. record { handler = 0; next = 0; datum = 0 };
  log = [];
}

-- A tick interrupts the yield of process 1, and two more ticks follow.
abbrev interrupted : Kernel
interrupted = (schedule_process (mark_ready busy_kernel) zero_context).0

abbrev later_kernel : Kernel
later_kernel = (schedule_process (schedule_process interrupted zero_context).0 zero_context).0

interrupted-Later : Later 5 interrupted 5 later_kernel
interrupted-Later = after (after here (timer zero_context)) (timer zero_context)

mark_ready-IsLost_example :
    (count busy_kernel.current_pid (view_ring later_kernel) ≡ 0)
    × (later_kernel.current_pid ≢ busy_kernel.current_pid)
mark_ready-IsLost_example =
    mark_ready-IsLost zero_context busy_kernel-Ready busy_kernel-on_cpu interrupted-Later

-- Four processes take turns: the process on the CPU has its next turn after 301 ticks.
turn_frames : (frames : List Context) → length frames ≡ 301 → length frames ≡ turn_ticks busy_kernel
turn_frames frames e =
    e ∙ sym (ap (λ (r : RoundRobin). wait (length r.ring - 1) 0) busy_kernel-view)

abbrev rounds : List (List Context)
rounds = replicate 301 zero_context ∷ replicate 301 zero_context ∷ []

ksyscall_sleep-returns_example :
    (m' : Machine) × (ksyscall 9 mem mem (wakes_of rounds) (registers 1 15 0) machine
      ≡ returned m' (slept (2 ^ 64 - 1) (ticks_of 15) (registers 1 15 0) m'))
    × IsValid 5 m'.kernel
    × (on_cpu m'.kernel ≡ true)
    × (m'.kernel.current_pid ≡ busy_kernel.current_pid)
    × (ticks_of 15 ≤ elapsed (2 ^ 64 - 1) m')
    × (elapsed (2 ^ 64 - 1) m' < ticks_of 15 + turn_ticks busy_kernel)
    × (turn_ticks busy_kernel ≤ 100 * (length (view_ring busy_kernel) - 1) + 1)
    × (length (view_ring m'.kernel) ≡ length (view_ring busy_kernel))
    × (m'.pit_counter < 2 ^ 64)
ksyscall_sleep-returns_example =
    ksyscall_sleep-returns 9 mem mem rounds (registers 1 15 0) machine refl (omega arith)
      (omega arith) busy_kernel-IsValid busy_kernel-on_cpu
      (
        turn_frames (replicate 301 zero_context) refl,
        (turn_frames (replicate 301 zero_context) refl, tt),
      )
      (omega arith)

ksyscall_yield_twice_example :
    (m' : Machine) × (m'' : Machine) × (ksyscall 9 mem mem [] (registers 4 0 0) machine
      ≡ returned m' (registers 4 0 0))
    × (ksyscall 9 mem mem [] (registers 4 0 0) m' ≡ returned m'' (registers 4 0 0))
    × (count busy_kernel.current_pid (view_ring busy_kernel) ≡ 1)
    × (count busy_kernel.current_pid (view_ring m''.kernel) ≡ 2)
ksyscall_yield_twice_example =
    ksyscall_yield_twice 9 5 mem mem [] [] (registers 4 0 0) (registers 4 0 0) machine refl refl
      busy_kernel-IsValid busy_kernel-on_cpu (omega arith)
