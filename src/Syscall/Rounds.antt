-- ===== src/Syscall/Rounds.antt =====
-- syscall.c with pit.c and process.c: SYSCALL_SLEEP while the timer runs the other processes.
use frog_os.Prelude.{
  ℕ, zero, suc, ◌+◌, ◌-◌, ◌*◌, ◌%◌, ◌^◌, ◌≤◌, ◌<◌, ◌≡◌, ◌≢◌, inl, inr, refl, ap, ◌∙◌, List, [], ◌∷◌,
  ◌++◌, true, some, All, length, get_elem?, ltb, arith, Bool-cases, minus_one, length-append,
}
use frog_os.Context.{Context}
use frog_os.Process.{Kernel, add_to_run_queue}
use frog_os.Queue.Contents.{contents}
use frog_os.Process.RoundRobin.{RoundRobin, rotate}
use frog_os.Process.Valid.{IsValid, on_cpu, view, view_ring}
use frog_os.Process.Fair.{
  wait, timer_ticks, timer_ticks-fair, timer_ticks-IsValid, length-timer_ticks,
}
use frog_os.Pit.{Machine, pit_handler}
use frog_os.Pit.Timer.{pit_handler_lem}
use frog_os.Syscall.{
  SyscallState, syscall_sleep, Wakes, Outcome, returned, go_to_sleep, sleep_loop, ticks_of,
  ksyscall,
}
use frog_os.Syscall.Sleep.{elapsed, slept, select_sleep, go_to_sleep-IsValid}

-- The machine after a timer interrupt on each frame of the list.
pub timer_interrupts : List Context → Machine → Machine
timer_interrupts [] m = m
timer_interrupts (frame ∷ frames) m = timer_interrupts frames (pit_handler frame m).0

-- A `hlt` for each list of frames: the timer interrupts that come before the process goes on.
abbrev pub wakes_of : List (List Context) → Wakes
wakes_of [] = []
wakes_of (frames ∷ rest) = timer_interrupts frames ∷ wakes_of rest

-- The ticks until the last process of the ring runs, when none is on the CPU.
abbrev pub turn_ticks : Kernel → ℕ
turn_ticks k = wait (length (view_ring k) - 1) 0

timer_interrupts-kernel :
    (frames : List Context) (m : Machine)
    → (timer_interrupts frames m).kernel ≡ timer_ticks m.kernel frames
unfolding timer_interrupts timer_ticks
timer_interrupts-kernel [] m = refl
timer_interrupts-kernel (frame ∷ frames) m =
    timer_interrupts-kernel frames (pit_handler frame m).0
    ∙ ap (λ k. timer_ticks k frames) (pit_handler_lem frame m).0

timer_interrupts-counter :
    (frames : List Context) (m : Machine)
    → (timer_interrupts frames m).pit_counter % 2 ^ 64 ≡ (m.pit_counter + length frames) % 2 ^ 64
unfolding timer_interrupts
timer_interrupts-counter [] m = omega arith
timer_interrupts-counter (frame ∷ frames) m =
    timer_interrupts-counter frames (pit_handler frame m).0
    ∙ omega (arith, (pit_handler_lem frame m).1)

timer_interrupts-counter_lt :
    (frames : List Context) (m : Machine)
    → m.pit_counter < 2 ^ 64
    → (timer_interrupts frames m).pit_counter < 2 ^ 64
unfolding timer_interrupts
timer_interrupts-counter_lt [] m lt = lt
timer_interrupts-counter_lt (frame ∷ frames) m lt =
    timer_interrupts-counter_lt frames (pit_handler frame m).0
      (omega (arith, (pit_handler_lem frame m).1))

-- While process `p` sleeps, it is on the CPU whenever it tests the counter.
record IsAwake (n p len : ℕ) (m : Machine) : Type 0 where
  valid : IsValid n m.kernel
  runs : on_cpu m.kernel ≡ true
  is_current : m.kernel.current_pid ≡ p
  ring_length : length (view_ring m.kernel) ≡ len
  counter : m.pit_counter < 2 ^ 64

get_elem?-append_at : (xs : List ℕ) (p : ℕ) → get_elem? (xs ++ (p ∷ [])) (length xs) ≡ some p
get_elem?-append_at [] p = refl
get_elem?-append_at (x ∷ xs) p = get_elem?-append_at xs p

-- The ring of a kernel on whose CPU a process is.
ring_on_cpu : (k : Kernel) → on_cpu k ≡ true → view_ring k ≡ k.current_pid ∷ contents k.run_queue
ring_on_cpu k run = rw run

started_of_on_cpu : (k : Kernel) → on_cpu k ≡ true → k.current_pid ≢ minus_one
started_of_on_cpu k run = ground arith

-- One round of the loop: the process goes to the end of the ring, and every other process gets its
-- turn before it is on the CPU again.
round-IsAwake :
    {n p len : ℕ} (m : Machine) (frames : List Context)
    → IsAwake n p len m
    → length frames ≡ wait (len - 1) 0
    → IsAwake n p len (timer_interrupts frames (go_to_sleep m))
unfolding add_to_run_queue
round-IsAwake {n} {p} {len} m frames a turn =
    let k = m.kernel in
    let others = contents k.run_queue in
    let asleep = go_to_sleep-IsValid m a.valid a.runs in
    let k' = (go_to_sleep m).kernel in
    let ring : view_ring k' ≡ others ++ (k.current_pid ∷ []) =
      ap (λ (r : RoundRobin). r.ring) asleep.1 ∙ ap rotate (ring_on_cpu k a.runs) in
    let fresh : (view k').slice ≡ 0 = ap (λ (r : RoundRobin). r.slice) asleep.1 in
    let place : get_elem? (view_ring k') (length others) ≡ some k.current_pid =
      rw ring (get_elem?-append_at others k.current_pid) in
    let count_others : length others ≡ len - 1 =
      omega (arith, ap (length {A = ℕ}) (ring_on_cpu k a.runs), a.ring_length) in
    let due : length frames ≡ wait (length others) (view k').slice =
      rw (count_others, fresh) turn in
    let back =
      timer_ticks-fair (length others) k.current_pid frames asleep.0 (started_of_on_cpu k a.runs)
        place due in
    let same = timer_interrupts-kernel frames (go_to_sleep m) in
    record {
      valid = rw same (timer_ticks-IsValid k' frames asleep.0);
      runs = rw same back.1;
      is_current = rw same (back.0 ∙ a.is_current);
      ring_length = omega (
        arith,
        ap (λ k. length (view_ring k)) same,
        length-timer_ticks k' frames asleep.0,
        ap (length {A = ℕ}) ring,
        length-append others (k.current_pid ∷ []),
        ap (length {A = ℕ}) (ring_on_cpu k a.runs),
        a.ring_length,
      );
      counter = timer_interrupts-counter_lt frames (go_to_sleep m) a.counter;
    }

-- The loop has returned to a process that is on the CPU, after `ticks` ticks and less than a round more.
abbrev SleptRound : (start ticks turn n p len : ℕ) → SyscallState → Outcome → Type 0
SleptRound start ticks turn n p len st o =
    (m : Machine) × (o ≡ returned m (slept start ticks st m))
    × IsAwake n p len m
    × (ticks ≤ elapsed start m)
    × (elapsed start m < ticks + turn)

round-elapsed :
    (start ticks : ℕ) (m : Machine) (frames : List Context)
    → elapsed start m < ticks
    → ticks < 2 ^ 63
    → length frames < 2 ^ 63
    → start < 2 ^ 64
    → elapsed start (timer_interrupts frames (go_to_sleep m)) ≡ elapsed start m + length frames
round-elapsed start ticks m frames before few short fits =
    omega (arith, timer_interrupts-counter frames (go_to_sleep m))

sleep_loop-SleptRound :
    (framess : List (List Context)) (start ticks turn n p len : ℕ) (st : SyscallState) (m : Machine)
    → IsAwake n p len m
    → turn ≡ wait (len - 1) 0
    → 0 < turn
    → turn < 2 ^ 63
    → ticks < 2 ^ 63
    → start < 2 ^ 64
    → All (λ frames. length frames ≡ turn) framess
    → ticks ≤ elapsed start m + length framess
    → elapsed start m < ticks + turn
    → SleptRound start ticks turn n p len st (sleep_loop (wakes_of framess) start ticks st m)
unfolding sleep_loop
sleep_loop-SleptRound [] start ticks turn n p len st m a e pos short few fits all enough bound =
    (m, ground arith, a, omega arith, bound)
sleep_loop-SleptRound (frames ∷ rest) start ticks turn n p len st m a e pos short few fits all
      enough bound =
    elim (Bool-cases (ltb (elapsed start m) ticks)) [
      | inl before ↦
          let more : elapsed start m < ticks = ground arith in
          let next = round-elapsed start ticks m frames more few (rw all.0 short) fits in
          rw before (
            sleep_loop-SleptRound rest start ticks turn n p len st
              (timer_interrupts frames (go_to_sleep m)) (round-IsAwake m frames a (all.0 ∙ e)) e pos
              short few fits all.1 (omega arith) (omega arith))
      | inr over ↦ rw over (m, refl, a, ground arith, bound)
    ]

turn_bounds : (len : ℕ) → (0 < wait len 0) × (wait len 0 ≤ 100 * len + 1)
turn_bounds zero = omega arith
turn_bounds (suc len) = omega arith

-- If nothing but timer interrupts comes while a running process sleeps for up to 2^64 - 10 ms, at each `hlt` as many as the
-- other processes of the ring need for their turns, SYSCALL_SLEEP returns to the process on the
-- CPU, the scheduler's invariant holds, and the sleep has taken as many ticks as it should, rounded
-- up, and less than one round of the ring more: at most 100 for each other process, and 1. The ring is
-- as long as before.
pub ksyscall_sleep-returns :
    {n : ℕ} (fuel : ℕ) (mem message : ℕ → ℕ) (framess : List (List Context)) (st : SyscallState)
    (m : Machine)
    → st.rax ≡ syscall_sleep
    → st.rdi + 9 < 2 ^ 64
    → m.pit_counter < 2 ^ 64
    → IsValid n m.kernel
    → on_cpu m.kernel ≡ true
    → All (λ frames. length frames ≡ turn_ticks m.kernel) framess
    → ticks_of st.rdi ≤ length framess
    → (m' : Machine) × (ksyscall fuel mem message (wakes_of framess) st m
        ≡ returned m' (slept m.pit_counter (ticks_of st.rdi) st m'))
      × IsValid n m'.kernel
      × (on_cpu m'.kernel ≡ true)
      × (m'.kernel.current_pid ≡ m.kernel.current_pid)
      × (ticks_of st.rdi ≤ elapsed m.pit_counter m')
      × (elapsed m.pit_counter m' < ticks_of st.rdi + turn_ticks m.kernel)
      × (turn_ticks m.kernel ≤ 100 * (length (view_ring m.kernel) - 1) + 1)
      × (length (view_ring m'.kernel) ≡ length (view_ring m.kernel))
      × (m'.pit_counter < 2 ^ 64)
ksyscall_sleep-returns {n} fuel mem message framess st m call fits counter v run all enough =
    let len = length (view_ring m.kernel) in
    let bounds = turn_bounds (len - 1) in
    let awake : IsAwake n m.kernel.current_pid len m = record {
      valid = v;
      runs = run;
      is_current = refl;
      ring_length = refl;
      counter = counter;
    } in
    let (m', result, a, long, short) =
      sleep_loop-SleptRound framess m.pit_counter (ticks_of st.rdi) (turn_ticks m.kernel) n
        m.kernel.current_pid len st m awake refl bounds.0 (omega (arith, v.room, v.fits, bounds.1))
        (omega arith) counter all (omega arith) (omega (arith, bounds.0)) in
    (
      m',
      select_sleep fuel mem message (wakes_of framess) st m call ∙ result,
      a.valid,
      a.runs,
      a.is_current,
      long,
      short,
      bounds.1,
      a.ring_length,
      a.counter,
    )
