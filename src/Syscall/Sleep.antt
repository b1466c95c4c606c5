-- ===== src/Syscall/Sleep.antt =====
-- syscall.c: SYSCALL_SLEEP, which waits for timer ticks.
use frog_os.Prelude.{
  ℕ, ◌+◌, ◌*◌, ◌^◌, ◌≤◌, ◌<◌, ◌≡◌, inl, inr, refl, ◌∙◌, [], ◌∷◌, true, All, length, u64, sub64, ltb,
  arith, Bool-cases,
}
use frog_os.Process.{add_to_run_queue}
use frog_os.Process.RoundRobin.{rotate}
use frog_os.Process.Valid.{IsValid, on_cpu, view, view_ring}
use frog_os.Process.Yield.{preempt-IsValid, preempt-view-rotate}
use frog_os.Pit.{Machine}
use frog_os.Syscall.{
  SyscallState, syscall_sleep, Wakes, Outcome, returned, go_to_sleep, sleep_loop, ticks_of,
  ksyscall,
}

-- The ticks since `start`, which the code computes on a counter that wraps.
abbrev pub elapsed : (start : ℕ) → Machine → ℕ
elapsed start m = sub64 m.pit_counter start

-- When the process goes on after a `hlt`, more ticks have gone by than before, as long as the sleep
-- is not over: a `hlt` ends by an interrupt, and only the timer's starts processes.
abbrev pub Progresses : (start ticks : ℕ) → (Machine → Machine) → Type 0
Progresses start ticks wake =
    (m : Machine) → elapsed start m < ticks → elapsed start m < elapsed start (wake m)

-- The registers that SYSCALL_SLEEP returns with.
abbrev pub slept : (start ticks : ℕ) → SyscallState → Machine → SyscallState
slept start ticks st m = record st { rdi = ticks; rax = u64 (10 * elapsed start m) }

-- The loop has returned, and not before `ticks` ticks.
abbrev pub SleptFor : (start ticks : ℕ) → SyscallState → Outcome → Type 0
SleptFor start ticks st o =
    (m : Machine) × (o ≡ returned m (slept start ticks st m)) × (ticks ≤ elapsed start m)

sleep_loop-SleptFor :
    (wakes : Wakes) (start ticks : ℕ) (st : SyscallState) (m : Machine)
    → All (Progresses start ticks) wakes
    → ticks ≤ elapsed start m + length wakes
    → SleptFor start ticks st (sleep_loop wakes start ticks st m)
unfolding sleep_loop
sleep_loop-SleptFor [] start ticks st m p enough = (m, ground arith, ground arith)
sleep_loop-SleptFor (wake ∷ wakes) start ticks st m p enough =
    elim (Bool-cases (ltb (elapsed start m) ticks)) [
      | inl before ↦
          let more : elapsed start m < ticks = ground arith in
          let later : elapsed start m < elapsed start (wake (go_to_sleep m)) =
            p.0 (go_to_sleep m) more in
          rw before
            (sleep_loop-SleptFor wakes start ticks st (wake (go_to_sleep m)) p.1 (omega arith))
      | inr over ↦ rw over (m, refl, ground arith)
    ]

pub select_sleep :
    (fuel : ℕ) (mem message : ℕ → ℕ) (wakes : Wakes) (st : SyscallState) (m : Machine)
    → st.rax ≡ syscall_sleep
    → ksyscall fuel mem message wakes st m ≡ sleep_loop wakes m.pit_counter (ticks_of st.rdi) st m
unfolding ksyscall
select_sleep fuel mem message wakes st m e = rw e

-- SYSCALL_SLEEP of up to 2^64 - 10 milliseconds returns, if the process goes on behind as many `hlt`s
-- as it needs ticks, and each time later than before. By then at least a tick for each 10 ms, rounded
-- up, has gone by, and the process is told 10 ms for each tick: no less than it asked for, unless that
-- is more than a register holds.
pub ksyscall_sleep :
    (fuel : ℕ) (mem message : ℕ → ℕ) (wakes : Wakes) (st : SyscallState) (m : Machine)
    → st.rax ≡ syscall_sleep
    → st.rdi + 9 < 2 ^ 64
    → m.pit_counter < 2 ^ 64
    → All (Progresses m.pit_counter (ticks_of st.rdi)) wakes
    → ticks_of st.rdi ≤ length wakes
    → (m' : Machine) × (st' : SyscallState) × (ksyscall fuel mem message wakes st m
        ≡ returned m' st')
      × (ticks_of st.rdi ≤ elapsed m.pit_counter m')
      × (st.rdi ≤ 10 * elapsed m.pit_counter m')
      × (st'.rax ≡ u64 (10 * elapsed m.pit_counter m'))
      × (10 * elapsed m.pit_counter m' < 2 ^ 64 → st.rdi ≤ st'.rax)
ksyscall_sleep fuel mem message wakes st m call fits counter p enough =
    let start = m.pit_counter in
    let ticks = ticks_of st.rdi in
    let (m', result, long) = sleep_loop-SleptFor wakes start ticks st m p (omega arith) in
    (
      m',
      slept start ticks st m',
      select_sleep fuel mem message wakes st m call ∙ result,
      long,
      omega arith,
      refl,
      λ holds. omega arith,
    )

-- While it sleeps, a running process keeps its place among the others: each round moves it to the end
-- of the ring, and keeps the scheduler's invariant.
pub go_to_sleep-IsValid :
    {n : ℕ} (m : Machine)
    → IsValid n m.kernel
    → on_cpu m.kernel ≡ true
    → IsValid n (go_to_sleep m).kernel
      × (view (go_to_sleep m).kernel ≡ record { ring = rotate (view_ring m.kernel); slice = 0 })
unfolding add_to_run_queue
go_to_sleep-IsValid {n} m v run = (preempt-IsValid v run, preempt-view-rotate v run)

no_sleep :
    (wakes : Wakes) (start ticks : ℕ) (st : SyscallState) (m : Machine)
    → ticks ≡ 0
    → elapsed start m ≡ 0
    → sleep_loop wakes start ticks st m ≡ returned m (record st { rdi = 0; rax = 0 })
unfolding sleep_loop
no_sleep [] start ticks st m e none = ground arith
no_sleep (wake ∷ wakes) start ticks st m e none = ground arith

-- A sleep of more than 2^64 - 10 milliseconds wraps to 0 ticks when it is rounded up: it returns at
-- once, and tells the process that no time has gone by.
pub ksyscall_sleep_wraps :
    (fuel : ℕ) (mem message : ℕ → ℕ) (wakes : Wakes) (st : SyscallState) (m : Machine)
    → st.rax ≡ syscall_sleep
    → 2 ^ 64 ≤ st.rdi + 9
    → st.rdi < 2 ^ 64
    → ksyscall fuel mem message wakes st m ≡ returned m (record st { rdi = 0; rax = 0 })
ksyscall_sleep_wraps fuel mem message wakes st m call over small =
    select_sleep fuel mem message wakes st m call
    ∙ no_sleep wakes m.pit_counter (ticks_of st.rdi) st m (omega arith) (omega arith)
