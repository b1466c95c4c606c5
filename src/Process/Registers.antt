-- ===== src/Process/Registers.antt =====
-- process.c: the scheduler is transparent to the registers of every process.
use frog_os.Prelude.{
  ℕ, ◌≤◌, ◌<◌, ◌≡◌, ◌≢◌, inl, inr, ◌∙◌, minus_one, count, ◌==◌, if◌then◌else◌, arith, Bool-cases,
}
use frog_os.Context.{Context}
use frog_os.Queue.{max_processes, is_empty, advance}
use frog_os.Queue.Contents.{IsInRange, contents, enqueue-IsInRange, contents-advance}
use frog_os.Process.{
  Kernel, start_process, start_next, get_next_pid, schedule_process, run_slice, preempt,
  add_to_run_queue, count_tick, use_slice,
}
use frog_os.Process.Valid.{IsValid}
use frog_os.Process.Branches.{
  Scheduled, boot, idle, wake, slice, switch, schedule_process-Scheduled,
}
use frog_os.Process.Preserve.{preempt-members}

-- The registers that process `p` has when it runs next: the interrupt frame, if it is current, and
-- else what was saved in its context.
abbrev pub registers : Kernel → Context → ℕ → Context
registers k frame p = if k.current_pid == p then frame else k.contexts (k.process_table p).context

abbrev HasOwnContexts : ℕ → Kernel → Type 0
HasOwnContexts n k =
    (i j : ℕ) → i < n → j < n → (k.process_table i).context ≡ (k.process_table j).context → i ≡ j

own_after_tick : {n : ℕ} (k : Kernel) → IsValid n k → HasOwnContexts n (count_tick k)
own_after_tick k v i j hi hj e = v.own_context i j hi hj (ground arith)

own_after_preempt :
    {n : ℕ} (k : Kernel) → IsValid n k → HasOwnContexts n (preempt (use_slice (count_tick k)))
unfolding add_to_run_queue
own_after_preempt k v i j hi hj e = v.own_context i j hi hj (ground arith)

module _ {n : ℕ} (p : ℕ) (created : p < n) where
  start_process-registers :
      (k : Kernel) (pid : ℕ) (frame : Context)
      → HasOwnContexts n k
      → n ≤ max_processes
      → k.current_pid < n
      → pid < n
      → let (k', frame') = start_process k pid frame in registers k' frame' p ≡ registers k frame p
  unfolding start_process
  start_process-registers k pid frame own fits cur lt =
      ground (arith, own k.current_pid p, own k.current_pid pid)

  start_next-registers :
      (k : Kernel) (frame : Context)
      → HasOwnContexts n k
      → n ≤ max_processes
      → k.current_pid < n
      → IsInRange k.run_queue
      → ((q : ℕ) → 0 < count q (contents k.run_queue) → q < n)
      → let (k', frame') = start_next k frame in registers k' frame' p ≡ registers k frame p
  unfolding start_next get_next_pid
  start_next-registers k frame own fits cur v m = elim (Bool-cases (is_empty k.run_queue)) [
    | inl e ↦ rw e (start_process-registers k 0 frame own fits cur (omega arith))
    | inr e ↦
        let pid = k.run_queue.slots k.run_queue.head in
        rw e (
          start_process-registers (record k { run_queue = advance k.run_queue }) pid frame own fits
            cur (m pid (rw (contents-advance v e) (ground arith))))
  ]

  Scheduled-registers :
      {k : Kernel} {frame : Context} {out : Kernel × Context}
      → IsValid n k
      → k.current_pid ≢ minus_one
      → Scheduled k frame out
      → registers out.0 out.1 p ≡ registers k frame p
  unfolding run_slice add_to_run_queue
  Scheduled-registers v started (boot e) = absurd (started e)
  Scheduled-registers v started (idle e none) = ground arith
  Scheduled-registers {k} {frame} v started (wake e some) =
      start_next-registers (count_tick k) frame (own_after_tick k v) v.fits
        (ground (arith, v.current_in)) v.queue (λ q h. ground (arith, v.members q))
      ∙ ground arith
  Scheduled-registers {k} {frame} v started (slice c z run) = ground (
    arith,
    v.current_in,
    start_next-registers (preempt (use_slice (count_tick k))) frame (own_after_preempt k v) v.fits
        (ground (arith, v.current_in)) (enqueue-IsInRange k.current_pid v.queue)
        (preempt-members v c z run),
  )
  Scheduled-registers {k} {frame} v started (switch c z other) =
      start_next-registers (count_tick k) frame (own_after_tick k v) v.fits
        (ground (arith, v.current_in)) v.queue (λ q h. ground (arith, v.members q))
      ∙ ground arith

-- Once a process is current, a timer tick changes the registers of no process: whoever is current after it, each process has the
-- registers that it had, as the interrupt frame or saved.
pub schedule_process-registers :
    {n : ℕ} {k : Kernel} (p : ℕ) (frame : Context)
    → p < n
    → IsValid n k
    → k.current_pid ≢ minus_one
    → let (k', frame') = schedule_process k frame in registers k' frame' p ≡ registers k frame p
schedule_process-registers {n} {k} p frame created v started =
    Scheduled-registers p created v started (schedule_process-Scheduled k frame)
