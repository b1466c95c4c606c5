-- ===== src/Process/Lost.antt =====
-- process.c: a process that neither waits nor is current, and stays so.
use frog_os.Prelude.{
  ℕ, ◌<◌, ◌≡◌, ◌≢◌, ◌⊎◌, inl, inr, refl, ◌∙◌, true, count, minus_one, arith, Bool-cases,
}
use frog_os.Context.{Context}
use frog_os.Queue.{is_empty, max_processes}
use frog_os.Queue.Contents.{IsInRange, contents, contents-advance, enqueue-IsInRange}
use frog_os.Process.{
  Kernel, schedule_process, start_next, get_next_pid, start_process, run_slice, count_tick,
  use_slice, preempt, add_to_run_queue,
}
use frog_os.Process.Valid.{IsValid, view_ring, on_cpu, queue_members}
use frog_os.Process.Branches.{
  Scheduled, boot, idle, wake, slice, switch, schedule_process-Scheduled,
}
use frog_os.Process.Preserve.{schedule_process-started, count-schedule_process, preempt-members}
use frog_os.Process.Yield.{preempt-count}
use frog_os.Process.Setup.{process_create-current}
use frog_os.Process.Reach.{
  Step, timer, give_up, create, Later, here, after, Ready, Step-Ready, count-Step,
}

-- Process `p` exists, but neither waits for the CPU nor is current.
pub record IsLost (p n : ℕ) (k : Kernel) : Type 0 where
  pub ready : Ready n k
  pub started : k.current_pid ≢ minus_one
  pub other : 0 < p
  pub exists : p < n
  pub not_in : count p (view_ring k) ≡ 0
  pub not_current : k.current_pid ≢ p

-- After a tick process 0 is current, or a process that runs.
start_next-on_cpu :
    (k : Kernel) (frame : Context)
    → IsInRange k.run_queue
    → ((q : ℕ) → 0 < count q (contents k.run_queue) → q < max_processes)
    → let out = start_next k frame in (out.0.current_pid ≡ 0) ⊎ (on_cpu out.0 ≡ true)
unfolding start_next get_next_pid start_process
start_next-on_cpu k frame v m = elim (Bool-cases (is_empty k.run_queue)) [
  | inl e ↦ inl (ground arith)
  | inr e ↦
      let front = contents-advance v e in
      let pid = k.run_queue.slots k.run_queue.head in
      let in_range = m pid (rw front (ground arith)) in ground (arith, in_range)
]

Scheduled-on_cpu :
    {n : ℕ} {k : Kernel} {frame : Context} {out : Kernel × Context}
    → IsValid n k
    → Scheduled k frame out
    → (out.0.current_pid ≡ 0) ⊎ (on_cpu out.0 ≡ true)
unfolding start_process run_slice add_to_run_queue
Scheduled-on_cpu v (boot e) = inl refl
Scheduled-on_cpu v (idle e none) = inl e
Scheduled-on_cpu {n} {k} {frame} v (wake e some) =
    start_next-on_cpu (count_tick k) frame v.queue (λ q h. (queue_members v q h).1)
Scheduled-on_cpu {n} {k} {frame} v (slice c z run) =
    let m = preempt-members v c z run in
    ground (
      arith,
      start_next-on_cpu (preempt (use_slice (count_tick k))) frame
          (enqueue-IsInRange k.current_pid v.queue) (λ q h. omega (arith, m q h, v.fits)),
    )
Scheduled-on_cpu {n} {k} {frame} v (switch c z other) =
    start_next-on_cpu (count_tick k) frame v.queue (λ q h. (queue_members v q h).1)

-- What runs stands in the ring.
count-current : (k : Kernel) → on_cpu k ≡ true → 0 < count k.current_pid (view_ring k)
count-current k run = ground arith

-- A tick starts no process that is not in the ring.
pub tick-IsLost :
    {p n : ℕ} {k : Kernel} (frame : Context)
    → Ready n k
    → 0 < p
    → p < n
    → count p (view_ring k) ≡ 0
    → IsLost p n (schedule_process k frame).0
tick-IsLost {p} {n} {k} frame r pos lt none =
    let branch = schedule_process-Scheduled k frame in
    let out = (schedule_process k frame).0 in
    let still : count p (view_ring out) ≡ 0 = count-schedule_process frame r.valid p ∙ none in
    record {
      ready = Step-Ready (timer frame) r;
      started = schedule_process-started frame r.valid;
      other = pos;
      exists = lt;
      not_in = still;
      not_current =
          λ e. ground (arith, Scheduled-on_cpu r.valid branch, count-current out, e, still);
    }

Step-IsLost : {p n m : ℕ} {k k' : Kernel} → Step n k m k' → IsLost p n k → IsLost p m k'
unfolding add_to_run_queue
Step-IsLost (timer frame) l = tick-IsLost frame l.ready l.other l.exists l.not_in
Step-IsLost {p} {k = k} (give_up run) l = record {
  ready = Step-Ready (give_up run) l.ready;
  started = l.started;
  other = l.other;
  exists = l.exists;
  not_in = preempt-count l.ready.valid run p ∙ l.not_in;
  not_current = l.not_current;
}
Step-IsLost {p} {n} {k = k} (create entry_point kernel_task few) l =
    let step = create entry_point kernel_task few in
    let same = process_create-current k entry_point kernel_task in
    record {
      ready = Step-Ready step l.ready;
      started = rw same l.started;
      other = l.other;
      exists = omega (arith, l.exists);
      not_in = ground (arith, count-Step p step l.ready, l.exists, l.not_in);
      not_current = rw same l.not_current;
    }

-- However the scheduler goes on, a lost process stays lost.
pub Later-IsLost :
    {p n : ℕ} {k : Kernel} {m : ℕ} {k' : Kernel} → Later n k m k' → IsLost p n k → IsLost p m k'
Later-IsLost here l = l
Later-IsLost (after r s) l = Step-IsLost s (Later-IsLost r l)
