-- ===== src/Syscall/Calls.antt =====
-- syscall.c: the system calls other than SYSCALL_SLEEP.
use frog_os.Prelude.{
  ℕ, zero, suc, ◌+◌, ◌-◌, ◌^◌, ◌≤◌, ◌<◌, ◌≡◌, refl, List, [], ◌∷◌, true, u8, u64, sign_extend,
  arith,
}
use frog_os.Memory.Laws.{IsString}
use frog_os.Conio.{Screen, putch}
use frog_os.Conio.Cursor.{IsOnScreen}
use frog_os.Conio.Grid.{terminal, LooksAs}
use frog_os.Conio.Text.{bytes, put_all, type_all, put_all-LooksAs, puts-LooksAs}
use frog_os.Process.{Kernel, preempt}
use frog_os.Process.RoundRobin.{rotate}
use frog_os.Process.Valid.{IsValid, on_cpu, view, view_ring}
use frog_os.Queue.{max_processes}
use frog_os.Prelude.{count, arith}
use frog_os.Process.Yield.{preempt_twice-count, preempt-IsValid, preempt-view-rotate}
use frog_os.Pit.{Machine}
use frog_os.Syscall.{
  SyscallState, syscall_write, syscall_getpid, Wakes, returned, write_bytes, print, ksyscall,
}

-- The `n` bytes of a buffer.
abbrev pub buffer : (ℕ → ℕ) → (address n : ℕ) → List ℕ
buffer mem address zero = []
buffer mem address (suc n) = u8 (mem address) ∷ buffer mem (u64 (address + 1)) n

write_bytes-put_all :
    (n : ℕ) (mem : ℕ → ℕ) (address : ℕ) (s : Screen)
    → write_bytes n mem address s ≡ put_all (buffer mem address n) s
unfolding write_bytes put_all
write_bytes-put_all zero mem address s = refl
write_bytes-put_all (suc n) mem address s =
    write_bytes-put_all n mem (u64 (address + 1)) (putch (u8 (mem address)) s)

-- SYSCALL_WRITE shows the bytes of the buffer as if they were typed, keeps the cursor on the screen,
-- and changes nothing else of the machine and no register.
pub ksyscall_write :
    (fuel : ℕ) (mem message : ℕ → ℕ) (wakes : Wakes) (st : SyscallState) (m : Machine)
    → st.rax ≡ syscall_write
    → IsOnScreen m.screen
    → (s : Screen) × (ksyscall fuel mem message wakes st m ≡ returned (record m { screen = s }) st)
      × IsOnScreen s
      × LooksAs
          (terminal s)
          (type_all m.screen.attrib (buffer mem st.rdi st.rsi) (terminal m.screen))
unfolding ksyscall
ksyscall_write fuel mem message wakes st m call v =
    let shown = put_all-LooksAs (buffer mem st.rdi st.rsi) v in
    (
      put_all (buffer mem st.rdi st.rsi) m.screen,
      rw call (rw (write_bytes-put_all st.rsi mem st.rdi m.screen) refl),
      shown.0,
      shown.1,
    )

-- SYSCALL_GETPID returns the pid of the current process, or 2^64 - 1 if there is none yet.
pub ksyscall_getpid :
    (fuel n : ℕ) (mem message : ℕ → ℕ) (wakes : Wakes) (st : SyscallState) (m : Machine)
    → st.rax ≡ syscall_getpid
    → IsValid n m.kernel
    → (pid : ℕ) × (ksyscall fuel mem message wakes st m ≡ returned m (record st { rax = pid }))
      × (pid < n → pid ≡ m.kernel.current_pid)
      × (n ≤ pid → pid ≡ 2 ^ 64 - 1)
unfolding ksyscall
ksyscall_getpid fuel n mem message wakes st m call v = (
  sign_extend m.kernel.current_pid,
  rw call,
  λ created. ground (arith, v.current_in, v.fits),
  λ none_yet. ground (arith, v.current_in, v.fits),
)

-- A running process that yields goes to the end of the ring, the next one is started by the next tick,
-- the scheduler's invariant is kept, and no register changes.
pub ksyscall_yield :
    (fuel n : ℕ) (mem message : ℕ → ℕ) (wakes : Wakes) (st : SyscallState) (m : Machine)
    → st.rax ≡ 4
    → IsValid n m.kernel
    → on_cpu m.kernel ≡ true
    → (k : Kernel) × (ksyscall fuel mem message wakes st m ≡ returned (record m { kernel = k }) st)
      × IsValid n k
      × (view k ≡ record { ring = rotate (view_ring m.kernel); slice = 0 })
unfolding ksyscall
ksyscall_yield fuel n mem message wakes st m call v run =
    (preempt m.kernel, rw call, preempt-IsValid v run, preempt-view-rotate v run)

-- With fewer than 128 processes and the scheduler's invariant, a running process that yields twice, with
-- no timer tick in between, stands in the ring twice: call 4 does not test whether the process still
-- runs.
pub ksyscall_yield_twice :
    (fuel n : ℕ) (mem message : ℕ → ℕ) (wakes wakes' : Wakes) (st st' : SyscallState) (m : Machine)
    → st.rax ≡ 4
    → st'.rax ≡ 4
    → IsValid n m.kernel
    → on_cpu m.kernel ≡ true
    → n < max_processes
    → (m' : Machine) × (m'' : Machine) × (ksyscall fuel mem message wakes st m ≡ returned m' st)
      × (ksyscall fuel mem message wakes' st' m' ≡ returned m'' st')
      × (count m.kernel.current_pid (view_ring m.kernel) ≡ 1)
      × (count m.kernel.current_pid (view_ring m''.kernel) ≡ 2)
unfolding ksyscall
ksyscall_yield_twice fuel n mem message wakes wakes' st st' m call call' v run few = (
  record m { kernel = preempt m.kernel },
  record m { kernel = preempt (preempt m.kernel) },
  rw call,
  rw call',
  ground (arith, v.once m.kernel.current_pid),
  preempt_twice-count v run few,
)

-- A call number from 5 to 29 shows its message, a null-terminated string, if the fuel exceeds its
-- length.
pub ksyscall_message :
    (fuel n : ℕ) (mem message : ℕ → ℕ) (wakes : Wakes) (st : SyscallState) (m : Machine)
    → 5 ≤ st.rax
    → st.rax ≤ 29
    → IsOnScreen m.screen
    → IsString mem (message st.rax) n
    → n < fuel
    → n < 2 ^ 31
    → (s : Screen) × (ksyscall fuel mem message wakes st m ≡ returned (record m { screen = s }) st)
      × IsOnScreen s
      × LooksAs
          (terminal s)
          (type_all m.screen.attrib (bytes mem (message st.rax) n) (terminal m.screen))
unfolding ksyscall print
ksyscall_message fuel n mem message wakes st m lo hi v str f big =
    let (s, e, on, looks) = puts-LooksAs fuel n (message st.rax) mem v str f big in
    (s, ground (arith, e), on, looks)

-- A call number from 30 on changes nothing.
pub ksyscall_unknown :
    (fuel : ℕ) (mem message : ℕ → ℕ) (wakes : Wakes) (st : SyscallState) (m : Machine)
    → 30 ≤ st.rax
    → ksyscall fuel mem message wakes st m ≡ returned m st
unfolding ksyscall
ksyscall_unknown fuel mem message wakes st m h = ground arith
