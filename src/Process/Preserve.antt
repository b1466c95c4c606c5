-- ===== src/Process/Preserve.antt =====
-- process.c: a timer tick keeps the scheduler's invariant, and neither loses nor doubles a process.
use frog_os.Prelude.{
  ℕ, ◌≤◌, ◌<◌, ◌≡◌, ◌≢◌, ◌⊎◌, inl, inr, sym, ap, ◌∙◌, [], ◌∷◌, true, minus_one, count, length, ◌==◌,
  arith, Bool-cases, count-append, eq_of_==, ne_of_==,
}
use frog_os.Context.{Context}
use frog_os.Queue.Contents.{contents, enqueue-IsInRange}
use frog_os.Process.{
  Kernel, current, running, start_process, schedule_process, run_slice, preempt, add_to_run_queue,
  count_tick, use_slice,
}
use frog_os.Process.RoundRobin.{RoundRobin, rotate, tick}
use frog_os.Process.Valid.{view, view_ring, on_cpu, IsValid}
use frog_os.Process.Branches.{
  Scheduled, boot, idle, wake, slice, switch, schedule_process-Scheduled,
}
use frog_os.Process.Refine.{schedule_process-view, preempt-contents}
use frog_os.Process.Turns.{count-rotate, length-rotate, ring-tick, slice-tick}
use frog_os.Process.Branchwise.{start_next-current, Scheduled-IsInRange, Scheduled-context}

-- The first tick starts process 0, and leaves the queue alone.
boot-view :
    (k : Kernel) (frame : Context)
    → k.current_pid ≡ minus_one
    → view (start_process (count_tick k) 0 frame).0 ≡ view k
unfolding start_process
boot-view k frame e = ground arith

Scheduled-boot :
    {k : Kernel} {frame : Context} {out : Kernel × Context}
    → k.current_pid ≡ minus_one
    → Scheduled k frame out
    → view out.0 ≡ view k
Scheduled-boot {k} {frame} e (boot b) = boot-view k frame e
Scheduled-boot e (idle z none) = absurd (omega arith)
Scheduled-boot e (wake z some) = absurd (omega arith)
Scheduled-boot e (slice c z run) = absurd (c e)
Scheduled-boot e (switch c z other) = absurd (c e)

boot_off :
    {k : Kernel} {frame : Context} {out : Kernel × Context}
    → k.current_pid ≡ minus_one
    → Scheduled k frame out
    → on_cpu out.0 ≡ true
    → ⊥
unfolding start_process
boot_off e (boot b) run = ground arith
boot_off e (idle z none) run = absurd (omega arith)
boot_off e (wake z some) run = absurd (omega arith)
boot_off e (slice c z r) run = absurd (c e)
boot_off e (switch c z other) run = absurd (c e)

-- A tick leaves the ring as it is, or moves its first process to the end.
pub ring-schedule_process :
    {n : ℕ} {k : Kernel} (frame : Context)
    → IsValid n k
    → let out = schedule_process k frame in
      (view_ring out.0 ≡ view_ring k) ⊎ (view_ring out.0 ≡ rotate (view_ring k))
ring-schedule_process {k} frame v = elim (Bool-cases (k.current_pid == minus_one)) [
  | inl b ↦
      let e = Scheduled-boot (eq_of_== _ _ b) (schedule_process-Scheduled k frame) in
      inl (ap (λ (r : RoundRobin). r.ring) e)
  | inr nb ↦
      let e = schedule_process-view frame v (ne_of_== _ _ nb) in
      ground (arith, e, ring-tick (view k))
]

-- A tick neither loses nor doubles a process: each stands in the ring as often as before.
pub count-schedule_process :
    {n : ℕ} {k : Kernel} (frame : Context)
    → IsValid n k
    → (p : ℕ) → count p (view_ring (schedule_process k frame).0) ≡ count p (view_ring k)
count-schedule_process {k} frame v p =
    ground (arith, ap (count p), ring-schedule_process frame v, count-rotate p (view_ring k))

pub length-schedule_process :
    {n : ℕ} {k : Kernel} (frame : Context)
    → IsValid n k
    → length (view_ring (schedule_process k frame).0) ≡ length (view_ring k)
length-schedule_process {k = k} frame v =
    ground (arith, ap (length {A = ℕ}), ring-schedule_process frame v, length-rotate (view_ring k))

Scheduled-slice :
    {n : ℕ} {k : Kernel} (out : Kernel × Context)
    → IsValid n k
    → k.current_pid ≢ minus_one
    → view out.0 ≡ tick (view k)
    → on_cpu out.0 ≡ true
    → (0 < (current out.0).time_remaining) × ((current out.0).time_remaining ≤ 100)
Scheduled-slice {k} out v started e run = ground (arith, e, slice-tick (view k), v.slice_left)

slice-schedule_process :
    {n : ℕ} {k : Kernel} (frame : Context)
    → IsValid n k
    → let out = schedule_process k frame in
      on_cpu out.0 ≡ true
      → (0 < (current out.0).time_remaining) × ((current out.0).time_remaining ≤ 100)
slice-schedule_process {k} frame v run = elim (Bool-cases (k.current_pid == minus_one)) [
  | inl b ↦ absurd (boot_off (eq_of_== _ _ b) (schedule_process-Scheduled k frame) run)
  | inr nb ↦
      let e = schedule_process-view frame v (ne_of_== _ _ nb) in
      Scheduled-slice (schedule_process k frame) v (ne_of_== _ _ nb) e run
]

pub preempt-members :
    {n : ℕ} {k : Kernel}
    → IsValid n k
    → k.current_pid ≢ minus_one
    → k.current_pid ≢ 0
    → (current k).state ≡ running
    → (p : ℕ) → 0 < count p (contents (preempt (use_slice (count_tick k))).run_queue)
    → p < n
preempt-members {n} {k} v c z run p h = ground (
  arith,
  v.members p,
  v.current_in,
  v.fits,
  v.room,
  ap (count p) (
      preempt-contents (use_slice (count_tick k)) v.queue (ground (arith, v.current_in, v.fits))
        (ground (arith, v.room, v.fits))),
  count-append p (contents k.run_queue) (k.current_pid ∷ []),
)

Scheduled-current :
    {n : ℕ} {k : Kernel} {frame : Context} {out : Kernel × Context}
    → IsValid n k
    → Scheduled k frame out
    → out.0.current_pid < n
unfolding start_process run_slice add_to_run_queue
Scheduled-current v (boot e) = v.some_created
Scheduled-current v (idle e none) = ground (arith, v.some_created)
Scheduled-current {n} {k} {frame} v (wake e some) =
    start_next-current (count_tick k) frame v.queue v.some_created
      (λ p h. ground (arith, v.members p))
Scheduled-current {n} {k} {frame} v (slice c z run) = ground (
  arith,
  v.current_in,
  start_next-current {n = n} (preempt (use_slice (count_tick k))) frame
      (enqueue-IsInRange k.current_pid v.queue) v.some_created (preempt-members v c z run),
)
Scheduled-current {n} {k} {frame} v (switch c z other) =
    start_next-current (count_tick k) frame v.queue v.some_created
      (λ p h. ground (arith, v.members p))

-- A tick keeps the invariant.
pub schedule_process-IsValid :
    {n : ℕ} {k : Kernel} (frame : Context) → IsValid n k → IsValid n (schedule_process k frame).0
schedule_process-IsValid {n} {k} frame v = record {
  some_created = v.some_created;
  fits = v.fits;
  queue = Scheduled-IsInRange branch v.queue;
  current_in = inr (Scheduled-current v branch);
  slice_left = slice-schedule_process frame v;
  members = λ p h. v.members p (rw (count-schedule_process frame v p) at h);
  once = λ p. rw (count-schedule_process frame v p) (v.once p);
  room = ground (
    arith,
    ap (length {A = ℕ}),
    ring-schedule_process frame v,
    length-rotate (view_ring k),
    v.room,
  );
  own_context = λ i j hi hj e.
      v.own_context i j hi hj (sym (Scheduled-context branch i) ∙ e ∙ Scheduled-context branch j);
}
  where
    branch : Scheduled k frame (schedule_process k frame)
    branch = schedule_process-Scheduled k frame

-- After a tick there is a current process.
pub schedule_process-started :
    {n : ℕ} {k : Kernel} (frame : Context)
    → IsValid n k
    → (schedule_process k frame).0.current_pid ≢ minus_one
schedule_process-started {n} {k} frame v =
    omega (arith, Scheduled-current v (schedule_process-Scheduled k frame), v.fits)
