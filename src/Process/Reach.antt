-- ===== src/Process/Reach.antt =====
-- process.c: the kernels that boot, timer ticks, yields and creations lead to.
use frog_os.Prelude.{◌⊎◌, inl, inr, ◌==◌, if◌then◌else◌}
use frog_os.Prelude.{ℕ, ◌+◌, ◌<◌, ◌≡◌, refl, ap, ◌∙◌, [], ◌∷◌, true, count, arith, count-append}
use frog_os.Context.{Context}
use frog_os.Queue.{Queue, max_processes}
use frog_os.Mem.{Heap}
use frog_os.Process.{
  Kernel, schedule_process, process_create, preempt, setup_process, add_to_run_queue, start_next,
  get_next_pid, start_process, run_slice, count_tick, use_slice,
}
use frog_os.Process.Valid.{IsValid, view_ring, on_cpu}
use frog_os.Process.Branches.{
  Scheduled, boot, idle, wake, slice, switch, schedule_process-Scheduled,
}
use frog_os.Process.Branchwise.{Scheduled-context}
use frog_os.Process.Preserve.{count-schedule_process, schedule_process-IsValid}
use frog_os.Process.Yield.{preempt-IsValid, preempt-count}
use frog_os.Process.Create.{IsGrown, process_create-IsValid}
use frog_os.Process.Setup.{boot_with, HasRoom, setup_process-IsValid}

-- What changes the scheduler's state: a timer tick on any interrupt frame, a running process that
-- gives up its slice, or the creation of a process while fewer than 128 exist. The numbers count
-- the processes before and after. Giving up the slice is one step: SYSCALL_SLEEP disables interrupts
-- around its two statements, and of the yields only those are meant that no interrupt comes within
-- (Syscall.Interrupted has the others).
pub data Step (n : ℕ) (k : Kernel) : ℕ → Kernel → Type 0 where
  timer : (frame : Context) → Step n k n (schedule_process k frame).0
  give_up : on_cpu k ≡ true → Step n k n (preempt k)
  create :
      (entry_point kernel_task : ℕ)
      → n < max_processes
      → Step n k (n + 1) (process_create k entry_point kernel_task).1

-- Steps from the kernel that `setup_process` leaves at boot, with room for 128 processes on the heap.
pub data Reach : ℕ → Kernel → Type 0 where
  booted :
      (init user_task : ℕ) (heap : Heap)
      → HasRoom heap
      → Reach 5 (setup_process init user_task (boot_with heap))
  next : {n m : ℕ} {k k' : Kernel} → Reach n k → Step n k m k' → Reach m k'

-- Steps from any kernel.
pub data Later (n : ℕ) (k : Kernel) : ℕ → Kernel → Type 0 where
  here : Later n k n k
  after : {m l : ℕ} {k' k'' : Kernel} → Later n k m k' → Step m k' l k'' → Later n k l k''

-- Neither the free slots nor the heap concern the scheduler.
start_next-free :
    (k : Kernel) (frame : Context)
    → ((start_next k frame).0.free_queue ≡ k.free_queue) × ((start_next k frame).0.heap ≡ k.heap)
unfolding start_next get_next_pid start_process
start_next-free k frame = ground arith

pub Scheduled-free :
    {k : Kernel} {frame : Context} {out : Kernel × Context}
    → Scheduled k frame out
    → (out.0.free_queue ≡ k.free_queue) × (out.0.heap ≡ k.heap)
unfolding start_process run_slice add_to_run_queue
Scheduled-free (boot e) = ground arith
Scheduled-free (idle e none) = ground arith
Scheduled-free {k} {frame} (wake e some) = start_next-free (count_tick k) frame
Scheduled-free {k} {frame} (slice c z run) =
    ground (arith, start_next-free (preempt (use_slice (count_tick k))) frame)
Scheduled-free {k} {frame} (switch c z other) = start_next-free (count_tick k) frame

-- What creation relies on, for a kernel with the same free slots, heap and addresses of contexts.
pub IsGrown-transport :
    {n : ℕ} {k k' : Kernel}
    → k'.free_queue ≡ k.free_queue
    → k'.heap ≡ k.heap
    → ((i : ℕ) → (k'.process_table i).context ≡ (k.process_table i).context)
    → IsGrown n k
    → IsGrown n k'
IsGrown-transport {n} {k} {k'} f h c g = record {
  free_head = ap (λ (q : Queue). q.head) f ∙ g.free_head;
  free_slots = λ i lt. ap (λ (q : Queue). q.slots i) f ∙ g.free_slots i lt;
  heap = rw h g.heap;
  room = rw h g.room;
  contexts_below = λ i lt. rw (h, c i) (g.contexts_below i lt);
}

-- What every step keeps.
pub record Ready (n : ℕ) (k : Kernel) : Type 0 where
  pub valid : IsValid n k
  pub grown : IsGrown n k

pub Step-Ready : {n m : ℕ} {k k' : Kernel} → Step n k m k' → Ready n k → Ready m k'
unfolding add_to_run_queue
Step-Ready {k = k} (timer frame) r =
    let branch = schedule_process-Scheduled k frame in
    let same = Scheduled-free branch in
    record {
      valid = schedule_process-IsValid frame r.valid;
      grown = IsGrown-transport same.0 same.1 (Scheduled-context branch) r.grown;
    }
Step-Ready {k = k} (give_up run) r = record {
  valid = preempt-IsValid r.valid run;
  grown = IsGrown-transport {k = k} refl refl (λ i. ground arith) r.grown;
}
Step-Ready (create entry_point kernel_task few) r =
    let made = process_create-IsValid entry_point kernel_task r.valid r.grown few in
    record { valid = made.1; grown = made.2 }

-- A step puts a process into the ring that it creates, and else keeps how often each stands in it.
pub count-Step :
    {n m : ℕ} {k k' : Kernel} (p : ℕ)
    → Step n k m k'
    → Ready n k
    → count p (view_ring k')
      ≡ count p (view_ring k) + (if m == n then 0 else if n == p then 1 else 0)
count-Step {n} {k = k} p (timer frame) r = count-schedule_process frame r.valid p ∙ ground arith
count-Step {n} {k = k} p (give_up run) r = preempt-count r.valid run p ∙ ground arith
count-Step {n} {k = k} p (create entry_point kernel_task few) r =
    let made = process_create-IsValid entry_point kernel_task r.valid r.grown few in
    ap (count p) made.3 ∙ count-append p (view_ring k) (n ∷ []) ∙ ground arith

pub Step-number : {n m : ℕ} {k k' : Kernel} → Step n k m k' → (m ≡ n) ⊎ (m ≡ n + 1)
Step-number (timer frame) = inl refl
Step-number (give_up run) = inl refl
Step-number (create entry_point kernel_task few) = inr refl

-- The invariant of reachable kernels.
record Complete (n : ℕ) (k : Kernel) : Type 0 where
  ready : Ready n k
  all_in : (p : ℕ) → 0 < p → p < n → count p (view_ring k) ≡ 1

Step-Complete : {n m : ℕ} {k k' : Kernel} → Step n k m k' → Complete n k → Complete m k'
Step-Complete s c = record {
  ready = Step-Ready s c.ready;
  all_in = λ p pos lt.
      ground (arith, count-Step p s c.ready, Step-number s, c.all_in p, c.ready.valid.members p);
}

Reach-Complete : {n : ℕ} {k : Kernel} → Reach n k → Complete n k
Reach-Complete (booted init user_task heap room) =
    let made = setup_process-IsValid init user_task heap room in
    record {
      ready = record { valid = made.0; grown = made.1 };
      all_in = λ p pos lt. ap (count p) made.2 ∙ ground arith;
    }
Reach-Complete (next r s) = Step-Complete s (Reach-Complete r)

-- In every kernel that boot, timer ticks, creations of up to 128 processes, and running processes that
-- give up their slice by SYSCALL_SLEEP or by a yield that no interrupt comes within, lead to, in any
-- order, the scheduler's invariant holds, and each process but 0 stands in the ring exactly once.
pub Reach-IsValid :
    {n : ℕ} {k : Kernel}
    → Reach n k
    → IsValid n k × ((p : ℕ) → 0 < p → p < n → count p (view_ring k) ≡ 1)
Reach-IsValid r = let c = Reach-Complete r in (c.ready.valid, c.all_in)
