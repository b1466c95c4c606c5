-- ===== src/Process/Branchwise.antt =====
-- process.c: what every branch of `schedule_process` leaves as it is.
use frog_os.Prelude.{ℕ, ◌<◌, ◌≡◌, inl, inr, count, arith, Bool-cases}
use frog_os.Context.{Context}
use frog_os.Queue.{is_empty}
use frog_os.Queue.Contents.{
  IsInRange, contents, contents-advance, advance-IsInRange, enqueue-IsInRange,
}
use frog_os.Process.{
  Kernel, start_process, start_next, get_next_pid, run_slice, preempt, add_to_run_queue, count_tick,
  use_slice,
}
use frog_os.Process.Branches.{Scheduled, boot, idle, wake, slice, switch}

pub start_next-IsInRange :
    (k : Kernel) (frame : Context)
    → IsInRange k.run_queue
    → IsInRange (start_next k frame).0.run_queue
unfolding start_next get_next_pid start_process
start_next-IsInRange k frame v = ground (arith, advance-IsInRange v)

pub start_next-current :
    {n : ℕ} (k : Kernel) (frame : Context)
    → IsInRange k.run_queue
    → 0 < n
    → ((p : ℕ) → 0 < count p (contents k.run_queue) → p < n)
    → (start_next k frame).0.current_pid < n
unfolding start_next get_next_pid start_process
start_next-current k frame v pos m = elim (Bool-cases (is_empty k.run_queue)) [
  | inl e ↦ ground arith
  | inr e ↦
      let front = contents-advance v e in
      let pid = k.run_queue.slots k.run_queue.head in
      let in_range = m pid (rw front (ground arith)) in rw e in_range
]

pub context-start_next :
    (k : Kernel) (frame : Context) (i : ℕ)
    → ((start_next k frame).0.process_table i).context ≡ (k.process_table i).context
unfolding start_next get_next_pid start_process
context-start_next k frame i = ground arith

pub Scheduled-IsInRange :
    {k : Kernel} {frame : Context} {out : Kernel × Context}
    → Scheduled k frame out
    → IsInRange k.run_queue
    → IsInRange out.0.run_queue
unfolding start_process run_slice add_to_run_queue
Scheduled-IsInRange (boot e) v = v
Scheduled-IsInRange (idle e none) v = v
Scheduled-IsInRange {k} {frame} (wake e some) v = start_next-IsInRange (count_tick k) frame v
Scheduled-IsInRange {k} {frame} (slice c z run) v = ground (
  arith,
  start_next-IsInRange (preempt (use_slice (count_tick k))) frame,
  enqueue-IsInRange k.current_pid v,
)
Scheduled-IsInRange {k} {frame} (switch c z other) v = start_next-IsInRange (count_tick k) frame v

-- No process gets another context.
pub Scheduled-context :
    {k : Kernel} {frame : Context} {out : Kernel × Context}
    → Scheduled k frame out
    → (i : ℕ) → (out.0.process_table i).context ≡ (k.process_table i).context
unfolding start_process run_slice add_to_run_queue
Scheduled-context (boot e) i = ground arith
Scheduled-context (idle e none) i = ground arith
Scheduled-context {k} {frame} (wake e some) i =
    ground (arith, context-start_next (count_tick k) frame i)
Scheduled-context {k} {frame} (slice c z run) i =
    ground (arith, context-start_next (preempt (use_slice (count_tick k))) frame i)
Scheduled-context {k} {frame} (switch c z other) i =
    ground (arith, context-start_next (count_tick k) frame i)
