-- ===== src/Process/Yield.antt =====
-- process.c: what happens when the current process gives up its slice.
use frog_os.Prelude.{
  ℕ, ◌<◌, ◌≡◌, ap, [], ◌∷◌, ◌++◌, true, false, count, length, arith, count-append, length-append,
}
use frog_os.Queue.{max_processes}
use frog_os.Queue.Contents.{contents, enqueue-IsInRange}
use frog_os.Process.{Kernel, preempt, add_to_run_queue}
use frog_os.Process.RoundRobin.{RoundRobin, rotate}
use frog_os.Process.Valid.{view, view_ring, on_cpu, IsValid}
use frog_os.Process.Refine.{preempt-contents}

module _ {n : ℕ} {k : Kernel} (v : IsValid n k) where
  running-current : on_cpu k ≡ true → (0 < k.current_pid) × (k.current_pid < n)
  running-current run = ground (arith, v.current_in)

  preempt-queue : on_cpu k ≡ true → contents (preempt k).run_queue ≡ rotate (view_ring k)
  preempt-queue run = ground (
    arith,
    preempt-contents k v.queue (ground (arith, v.current_in, v.fits))
        (ground (arith, v.room, v.fits)),
  )

  preempt-off : on_cpu (preempt k) ≡ false
  unfolding add_to_run_queue
  preempt-off = ground arith

  -- A running process that gives up its slice goes to the end of the ring, and the next process of
  -- the ring is started by the next tick.
  pub preempt-view-rotate :
      on_cpu k ≡ true → view (preempt k) ≡ record { ring = rotate (view_ring k); slice = 0 }
  preempt-view-rotate run = ground (arith, preempt-off, preempt-queue run)

  pub preempt-count :
      on_cpu k ≡ true → (p : ℕ) → count p (view_ring (preempt k)) ≡ count p (view_ring k)
  preempt-count run p = ground (
    arith,
    ap (λ (r : RoundRobin). count p r.ring) (preempt-view-rotate run),
    count-append p (contents k.run_queue) (k.current_pid ∷ []),
  )

  -- The scheduler's invariant is kept.
  pub preempt-IsValid : on_cpu k ≡ true → IsValid n (preempt k)
  unfolding add_to_run_queue
  preempt-IsValid run = record {
    some_created = v.some_created;
    fits = v.fits;
    queue = enqueue-IsInRange k.current_pid v.queue;
    current_in = v.current_in;
    slice_left = λ h. ground (arith, preempt-off);
    members = λ p h. v.members p (omega (arith, preempt-count run p));
    once = λ p. omega (arith, preempt-count run p, v.once p);
    room = ground (
      arith,
      ap (λ (r : RoundRobin). length r.ring) (preempt-view-rotate run),
      length-append (contents k.run_queue) (k.current_pid ∷ []),
      v.room,
    );
    own_context = λ i j hi hj e. v.own_context i j hi hj (ground arith);
  }

  preempt_twice-off : on_cpu (preempt (preempt k)) ≡ false
  unfolding add_to_run_queue
  preempt_twice-off = ground arith

  preempt_twice-contents :
      on_cpu k ≡ true
      → n < max_processes
      → contents (preempt (preempt k)).run_queue
        ≡ contents (preempt k).run_queue ++ (k.current_pid ∷ [])
  unfolding add_to_run_queue
  preempt_twice-contents run few =
      preempt-contents (preempt k) (enqueue-IsInRange k.current_pid v.queue)
        (ground (arith, v.current_in, v.fits))
        (ground (
          arith,
          ap (length {A = ℕ}) (preempt-queue run),
          length-append (contents k.run_queue) (k.current_pid ∷ []),
          v.room,
        ))

  -- A second time before the next tick, the process gets into the ring twice: nothing tests whether it
  -- still runs.
  pub preempt_twice-count :
      on_cpu k ≡ true
      → n < max_processes
      → count k.current_pid (view_ring (preempt (preempt k))) ≡ 2
  preempt_twice-count run few = ground (
    arith,
    preempt_twice-off,
    ap (count k.current_pid) (preempt_twice-contents run few),
    count-append k.current_pid (contents (preempt k).run_queue) (k.current_pid ∷ []),
    ap (count k.current_pid) (preempt-queue run),
    count-append k.current_pid (contents k.run_queue) (k.current_pid ∷ []),
    v.once k.current_pid,
  )
