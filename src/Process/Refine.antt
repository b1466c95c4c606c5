-- ===== src/Process/Refine.antt =====
-- process.c: a timer tick is a tick of the abstract round-robin scheduler.
use frog_os.Prelude.{
  ℕ, ◌≤◌, ◌<◌, ◌≡◌, ◌≢◌, inl, inr, sym, ap, ◌∙◌, [], ◌∷◌, ◌++◌, minus_one, count, length, arith,
  Bool-cases, count-append,
}
use frog_os.Context.{Context}
use frog_os.Queue.{max_processes, is_empty, advance}
use frog_os.Queue.Contents.{
  IsInRange, contents, contents_of_empty, contents-advance, contents-enqueue, enqueue-IsInRange,
}
use frog_os.Process.{
  Kernel, current, running, start_process, start_next, get_next_pid, schedule_process, run_slice,
  preempt, add_to_run_queue, count_tick, use_slice,
}
use frog_os.Process.RoundRobin.{dispatch, tick}
use frog_os.Process.Valid.{view, IsValid, queue_members}
use frog_os.Process.Branches.{
  Scheduled, boot, idle, wake, slice, switch, schedule_process-Scheduled,
}

-- A process other than 0 that is started is on the CPU, for 100 ticks.
start_process-view :
    (k : Kernel) (pid : ℕ) (frame : Context)
    → 0 < pid
    → pid < max_processes
    → view (start_process k pid frame).0 ≡ record { ring = pid ∷ contents k.run_queue; slice = 100 }
unfolding start_process
start_process-view k pid frame pos small = ground arith

start_process-view_zero :
    (k : Kernel) (frame : Context)
    → view (start_process k 0 frame).0 ≡ record { ring = contents k.run_queue; slice = 0 }
unfolding start_process
start_process-view_zero k frame = ground arith

-- The next process of the queue is put on the CPU.
start_next-view :
    (k : Kernel) (frame : Context)
    → IsInRange k.run_queue
    → ((p : ℕ) → 0 < count p (contents k.run_queue) → (0 < p) × (p < max_processes))
    → view (start_next k frame).0 ≡ dispatch (contents k.run_queue)
unfolding start_next get_next_pid
start_next-view k frame v m = elim (Bool-cases (is_empty k.run_queue)) [
  | inl e ↦ rw e (start_process-view_zero k frame ∙ ground (arith, contents_of_empty v e))
  | inr e ↦
      let front = contents-advance v e in
      let pid = k.run_queue.slots k.run_queue.head in
      let in_range : (0 < pid) × (pid < max_processes) = m pid (rw front (ground arith)) in
      rw e (
        start_process-view (record k { run_queue = advance k.run_queue }) pid frame in_range.0
          in_range.1
        ∙ sym (ap dispatch front))
]

pub preempt-contents :
    (k : Kernel)
    → IsInRange k.run_queue
    → k.current_pid < max_processes
    → length (contents k.run_queue) < 127
    → contents (preempt k).run_queue ≡ contents k.run_queue ++ (k.current_pid ∷ [])
unfolding add_to_run_queue
preempt-contents k v small room = contents-enqueue k.current_pid v room ∙ ground arith

-- The last tick of a slice: the process goes to the end of the ring, and the next one is started.
preempt-view :
    (k : Kernel) (frame : Context)
    → IsInRange k.run_queue
    → 0 < k.current_pid
    → k.current_pid < max_processes
    → length (contents k.run_queue) < 127
    → ((p : ℕ) → 0 < count p (contents k.run_queue) → (0 < p) × (p < max_processes))
    → view (start_next (preempt k) frame).0
      ≡ dispatch (contents k.run_queue ++ (k.current_pid ∷ []))
unfolding add_to_run_queue
preempt-view k frame v pos small room m =
    let e = preempt-contents k v small room in
    start_next-view (preempt k) frame (enqueue-IsInRange k.current_pid v) (λ p h.
      ground
        (arith, ap (count p) e, count-append p (contents k.run_queue) (k.current_pid ∷ []), m p))
    ∙ ap dispatch e

-- A tick that a running process uses up.
run_slice-view :
    (k : Kernel) (frame : Context)
    → IsInRange k.run_queue
    → 0 < k.current_pid
    → k.current_pid < max_processes
    → (current k).state ≡ running
    → 0 < (current k).time_remaining
    → (current k).time_remaining ≤ 100
    → length (contents k.run_queue) < 127
    → ((p : ℕ) → 0 < count p (contents k.run_queue) → (0 < p) × (p < max_processes))
    → view (run_slice k frame).0
      ≡ tick (record {
        ring = k.current_pid ∷ contents k.run_queue;
        slice = (current k).time_remaining;
      })
unfolding run_slice tick
run_slice-view k frame v pos small run lo hi room m =
    ground (arith, preempt-view (use_slice k) frame v pos small room m)

-- From the first tick on, a timer tick is a tick of the abstract round-robin scheduler.
Scheduled-view :
    {n : ℕ} {k : Kernel} {frame : Context} {out : Kernel × Context}
    → IsValid n k
    → k.current_pid ≢ minus_one
    → Scheduled k frame out
    → view out.0 ≡ tick (view k)
unfolding tick
Scheduled-view v started (boot e) = absurd (started e)
Scheduled-view {k} v started (idle e none) = ground (arith, contents_of_empty v.queue none)
Scheduled-view {n} {k} {frame} v started (wake e some) =
    ground (arith, start_next-view (count_tick k) frame v.queue (queue_members v))
Scheduled-view {n} {k} {frame} v started (slice c z run) = ground (
  arith,
  run_slice-view (count_tick k) frame v.queue,
  v.slice_left,
  v.fits,
  v.room,
  v.current_in,
  queue_members v,
)
Scheduled-view {n} {k} {frame} v started (switch c z other) =
    ground (arith, start_next-view (count_tick k) frame v.queue (queue_members v))

-- Once a process is current, `schedule_process` on a valid kernel is a tick of the abstract
-- round-robin scheduler, whatever frame it interrupts.
pub schedule_process-view :
    {n : ℕ} {k : Kernel} (frame : Context)
    → IsValid n k
    → k.current_pid ≢ minus_one
    → view (schedule_process k frame).0 ≡ tick (view k)
schedule_process-view {n} {k} frame v started =
    Scheduled-view v started (schedule_process-Scheduled k frame)
