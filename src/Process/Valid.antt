-- ===== src/Process/Valid.antt =====
-- process.c: what a process that waits for the CPU is, the invariant of the scheduler, and the
-- abstract scheduler's view of the kernel.
use frog_os.Prelude.{
  ℕ, ◌≤◌, ◌<◌, ◌≡◌, ◌⊎◌, List, ◌∷◌, Bool, true, false, minus_one, count, length, ◌==◌,
  if◌then◌else◌, arith,
}
use frog_os.Queue.{max_processes}
use frog_os.Queue.Contents.{IsInRange, contents}
use frog_os.Process.{Kernel, current, running}
use frog_os.Process.RoundRobin.{RoundRobin}

-- A process other than 0 is current and runs.
abbrev pub on_cpu : Kernel → Bool
on_cpu k =
    if k.current_pid == minus_one
    then false
    else if k.current_pid == 0
    then false
    else (current k).state == running

abbrev pub view_ring : Kernel → List ℕ
view_ring k = if on_cpu k then k.current_pid ∷ contents k.run_queue else contents k.run_queue

abbrev pub view : Kernel → RoundRobin
view k = record { ring = view_ring k; slice = if on_cpu k then (current k).time_remaining else 0 }

-- With `n` processes created, 0 to n - 1. The ring holds processes other than 0, each once.
pub record IsValid (n : ℕ) (k : Kernel) : Type 0 where
  pub some_created : 0 < n
  pub fits : n ≤ max_processes
  pub queue : IsInRange k.run_queue
  pub current_in : (k.current_pid ≡ minus_one) ⊎ (k.current_pid < n)
  pub slice_left :
      on_cpu k ≡ true → (0 < (current k).time_remaining) × ((current k).time_remaining ≤ 100)
  pub members : (p : ℕ) → 0 < count p (view_ring k) → (0 < p) × (p < n)
  pub once : (p : ℕ) → count p (view_ring k) ≤ 1
  pub room : length (view_ring k) < n
  pub own_context :
      (i j : ℕ) → i < n → j < n → (k.process_table i).context ≡ (k.process_table j).context → i ≡ j

-- What stands in the run queue is a created process other than 0.
pub queue_members :
    {n : ℕ} {k : Kernel}
    → IsValid n k
    → (p : ℕ) → 0 < count p (contents k.run_queue)
    → (0 < p) × (p < max_processes)
queue_members {n} {k} v p h = ground (arith, v.members p, v.fits)
