-- ===== src/Syscall/Interrupted.antt =====
-- syscall.c with process.c: a timer interrupt between the two statements of a yield.
use frog_os.Prelude.{ℕ, ◌+◌, ◌≡◌, ◌≢◌, refl, true, false, count, arith, ◌==◌, if◌then◌else◌}
use frog_os.Context.{Context}
use frog_os.Process.{Kernel, schedule_process}
use frog_os.Process.Valid.{IsValid, view_ring, on_cpu}
use frog_os.Process.Reach.{Later, Ready, IsGrown-transport}
use frog_os.Process.Lost.{tick-IsLost, Later-IsLost}
use frog_os.Syscall.{mark_ready}

mark_ready-off : (k : Kernel) → on_cpu (mark_ready k) ≡ false
mark_ready-off k = ground arith

-- Marked ready, a process that runs is no more in the ring; all others are.
mark_ready-count :
    {n : ℕ} {k : Kernel}
    → IsValid n k
    → on_cpu k ≡ true
    → (p : ℕ)
    → count p (view_ring (mark_ready k)) + (if k.current_pid == p then 1 else 0)
      ≡ count p (view_ring k)
mark_ready-count {n} {k} v run p = ground (arith, mark_ready-off k)

mark_ready-IsValid : {n : ℕ} {k : Kernel} → IsValid n k → on_cpu k ≡ true → IsValid n (mark_ready k)
mark_ready-IsValid {n} {k} v run = record {
  some_created = v.some_created;
  fits = v.fits;
  queue = v.queue;
  current_in = v.current_in;
  slice_left = λ h. ground (arith, mark_ready-off k);
  members = λ p h. v.members p (omega (arith, mark_ready-count v run p));
  once = λ p. omega (arith, mark_ready-count v run p, v.once p);
  room = ground (arith, mark_ready-off k, v.room);
  own_context = λ i j hi hj e. v.own_context i j hi hj (ground arith);
}

mark_ready-Ready : {n : ℕ} {k : Kernel} → Ready n k → on_cpu k ≡ true → Ready n (mark_ready k)
mark_ready-Ready {n} {k} r run = record {
  valid = mark_ready-IsValid r.valid run;
  grown = IsGrown-transport {k = k} refl refl (λ i. ground arith) r.grown;
}

-- If a timer tick comes after a yielding process is marked ready, and before it is in the run queue,
-- the tick starts another process, and whatever ticks, uninterrupted yields and creations
-- follow, the process never waits for the CPU again, and never gets it: its yield does not return.
pub mark_ready-IsLost :
    {n m : ℕ} {k k' : Kernel} (frame : Context)
    → Ready n k
    → on_cpu k ≡ true
    → Later n (schedule_process (mark_ready k) frame).0 m k'
    → (count k.current_pid (view_ring k') ≡ 0) × (k'.current_pid ≢ k.current_pid)
mark_ready-IsLost {n} {m} {k} {k'} frame r run later =
    let p = k.current_pid in
    let none : count p (view_ring (mark_ready k)) ≡ 0 =
      ground (arith, mark_ready-count r.valid run p, r.valid.once p) in
    let l = Later-IsLost later (
      tick-IsLost frame (mark_ready-Ready r run) (ground arith) (ground (arith, r.valid.current_in))
        none) in
    (l.not_in, l.not_current)
