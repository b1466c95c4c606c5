-- ===== src/Process/Tests.antt =====
-- Tests of process.c, at the kernel that `setup_process` leaves and after timer ticks.
use frog_os.Queue.Contents.{contents, window}
use frog_os.Process.Sleep.{sleep_process, fall_asleep}
use frog_os.Process.Sleep.Sort.{IsSorted}
use frog_os.Process.Sleep.Correct.{sleep_process-IsSorted, sleep_process-unsorted}
use frog_os.Process.Pool.{view_pool, admit_all, Later-pool}
use frog_os.Process.Examples.{busy_kernel-Ready}
use frog_os.Prelude.{
  ℕ, ◌+◌, ◌*◌, ◌≤◌, ◌<◌, ◌≡◌, sym, ap, List, [], ◌∷◌, ◌++◌, true, minus_one, count, length,
  get_elem?, replicate, ◌==◌, if◌then◌else◌, arith,
}
use frog_os.Context.{Context, zero_context}
use frog_os.Mem.{boot_heap}
use frog_os.Process.Examples.{
  at_boot, idle_kernel, busy_kernel, at_boot-IsValid, idle_kernel-IsValid, idle_kernel-started,
  busy_kernel-IsValid, busy_kernel-view, busy_kernel-on_cpu, at_boot-IsGrown,
}
use frog_os.Process.{Kernel, boot_kernel, zero_process, process_create, schedule_process, preempt}
use frog_os.Process.RoundRobin.{RoundRobin, tick}
use frog_os.Process.Valid.{IsValid, view, view_ring, on_cpu}
use frog_os.Process.Refine.{schedule_process-view}
use frog_os.Process.Preserve.{schedule_process-IsValid, schedule_process-started}
use frog_os.Process.Registers.{registers, schedule_process-registers}
use frog_os.Process.Fair.{wait, timer_ticks, timer_ticks-fair}
use frog_os.Process.Create.{IsGrown, process_create-IsValid}
use frog_os.Process.Setup.{initial, setup_process-IsValid, process_create-registers}
use frog_os.Process.Reach.{
  Ready, Later, here, after, Reach, booted, next, timer, give_up, create, Reach-IsValid,
}

schedule_process-view_example :
    view (schedule_process idle_kernel zero_context).0 ≡ tick (view idle_kernel)
schedule_process-view_example =
    schedule_process-view zero_context idle_kernel-IsValid idle_kernel-started

schedule_process-registers_example :
    let (k', frame') = schedule_process idle_kernel zero_context in
    registers k' frame' 2 ≡ registers idle_kernel zero_context 2
schedule_process-registers_example =
    schedule_process-registers 2 zero_context (omega arith) idle_kernel-IsValid idle_kernel-started

schedule_process-IsValid_example : IsValid 5 (schedule_process busy_kernel zero_context).0
schedule_process-IsValid_example = schedule_process-IsValid zero_context busy_kernel-IsValid

-- Process 2 is second in the ring, behind process 1 with its whole slice.
abbrev frames : List Context
frames = replicate 100 zero_context

timer_ticks-fair_example :
    ((timer_ticks busy_kernel frames).current_pid ≡ 2)
    × (on_cpu (timer_ticks busy_kernel frames) ≡ true)
    × (length frames ≤ 100 * 1 + 1)
timer_ticks-fair_example =
    timer_ticks-fair 1 2 frames busy_kernel-IsValid
      (schedule_process-started zero_context idle_kernel-IsValid)
      (ap (λ (r : RoundRobin). get_elem? r.ring 1) busy_kernel-view)
      (sym (ap (λ (r : RoundRobin). wait 1 r.slice) busy_kernel-view))

process_create-IsValid_example :
    let (pid, k') = process_create at_boot 0x200300 0 in
    (pid ≡ 5) × IsValid 6 k' × IsGrown 6 k' × (view_ring k' ≡ view_ring at_boot ++ (5 ∷ []))
process_create-IsValid_example =
    process_create-IsValid 0x200300 0 at_boot-IsValid at_boot-IsGrown (omega arith)

process_create-registers_example :
    let k' = (process_create at_boot 0x200300 0).1 in
    ((k'.process_table 5).context ≡ at_boot.heap.heap)
    × (k'.heap.heap ≡ at_boot.heap.heap + 208 + 4096)
    × (registers k' zero_context 5 ≡ (
        if 5 == 5
        then initial 0x200300 0 5 at_boot.heap.heap
        else registers at_boot zero_context 5))
process_create-registers_example =
    process_create-registers 0x200300 0 5 zero_context at_boot-IsValid at_boot-IsGrown (omega arith)
      (omega arith)

setup_process-IsValid_example :
    IsValid 5 at_boot
    × IsGrown 5 at_boot
    × (view_ring at_boot ≡ 1 ∷ 2 ∷ 3 ∷ 4 ∷ [])
    × (at_boot.current_pid ≡ minus_one)
setup_process-IsValid_example =
    setup_process-IsValid 0x200100 0x200200 boot_heap (omega arith, omega arith)

-- Two ticks, a yield of process 1, and the creation of process 5.
yielded-Reach : Reach 6 (process_create (preempt busy_kernel) 0x200300 0).1
yielded-Reach =
    next
      (next
        (next
          (next (booted 0x200100 0x200200 boot_heap (omega arith, omega arith))
            (timer zero_context))
          (timer zero_context))
        (give_up busy_kernel-on_cpu))
      (create 0x200300 0 (omega arith))

Reach-IsValid_example :
    let k = (process_create (preempt busy_kernel) 0x200300 0).1 in
    IsValid 6 k × ((p : ℕ) → 0 < p → p < 6 → count p (view_ring k) ≡ 1)
Reach-IsValid_example = Reach-IsValid yielded-Reach

-- Process 2 is current, and process 1 sleeps for 50 more ticks.
abbrev one_asleep : Kernel
one_asleep = record boot_kernel {
  current_pid = 2;
  sleep_queue = record { slots = λ i. 1; head = 127; tail = 0 };
  process_table = λ i. record zero_process { pid = i; time_remaining = 50 };
}

sleep_process-unsorted_example :
    let k' = sleep_process 20 one_asleep in
    ¬ (IsSorted (λ p. (k'.process_table p).time_remaining) (contents k'.sleep_queue))
unfolding window
sleep_process-unsorted_example =
    sleep_process-unsorted 20 1 one_asleep (omega arith) (omega arith) (omega arith)
      ((omega arith, omega arith), tt) (omega arith) (omega arith) (omega arith)

sleep_process-IsSorted_example :
    let k' = sleep_process 70 one_asleep in
    IsSorted (λ p. (k'.process_table p).time_remaining) (contents k'.sleep_queue)
    × ((p : ℕ)
        → count p (contents k'.sleep_queue)
          ≡ count p (contents one_asleep.sleep_queue) + (if 2 == p then 1 else 0))
    × (k'.process_table ≡ (fall_asleep 70 one_asleep).process_table)
unfolding window
sleep_process-IsSorted_example =
    sleep_process-IsSorted 70 1 one_asleep (omega arith) (omega arith) (omega arith) (omega arith)
      (omega arith) (omega arith)

yielded-Later : Later 5 busy_kernel 6 (process_create (preempt busy_kernel) 0x200300 0).1
yielded-Later = after (after here (give_up busy_kernel-on_cpu)) (create 0x200300 0 (omega arith))

Later-pool_example :
    let k' = (process_create (preempt busy_kernel) 0x200300 0).1 in
    (created : ℕ) × (◌≡◌ {A = ℕ} 6 (5 + created))
    × (view_pool k' ≡ admit_all created 5 (view_pool busy_kernel))
    × Ready 6 k'
Later-pool_example = Later-pool yielded-Later busy_kernel-Ready
