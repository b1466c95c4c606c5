-- ===== src/Process/Setup.antt =====
-- process.c: what `setup_process` makes, and what process creation does to registers.
use frog_os.Prelude.{u64}
use frog_os.Prelude.{
  ℕ, zero, suc, ◌+◌, ◌*◌, ◌≤◌, ◌<◌, ◌≡◌, inl, refl, sym, ap, ◌∙◌, subst, List, [], ◌∷◌, ◌++◌,
  minus_one, ◌==◌, if◌then◌else◌, arith,
}
use mathlib.Core.List.{append_assoc, append-nil}
use frog_os.Context.{Context, zero_context}
use frog_os.Mem.{Heap}
use frog_os.Mem.Arena
use frog_os.Queue.{max_processes, advance, enqueue}
use frog_os.Queue.Contents.{window}
use frog_os.Process.{
  Kernel, boot_kernel, process_create, new_context, add_to_run_queue, fill_free_queue, create_tasks,
  setup_process,
}
use frog_os.Process.Valid.{view_ring, IsValid}
use frog_os.Process.Registers.{registers}
use frog_os.Process.Create.{
  IsGrown, fill_slots-get, process_create_lem, process_create-IsGrown, process_create-IsValid,
}

-- The registers that a process starts with, whose context lies at `base` and its stack behind it: user
-- segments with privilege 3, or kernel segments, interrupts on, and the pid as the first argument.
abbrev pub initial : (entry_point kernel_task pid base : ℕ) → Context
initial entry_point kernel_task pid base = record zero_context {
  rip = entry_point;
  cs = if kernel_task == 0 then 0x2B else 0x08;
  ss = if kernel_task == 0 then 0x23 else 0x10;
  rflags = 0x202;
  rsp = base + 208 + 4096;
  rdi = pid;
}

new_context-initial :
    {n : ℕ} {k : Kernel} (entry_point kernel_task : ℕ)
    → IsGrown n k
    → n < max_processes
    → new_context entry_point kernel_task n (k.heap.heap + 208)
      ≡ initial entry_point kernel_task n k.heap.heap
unfolding new_context
new_context-initial {n} {k} entry_point kernel_task g few =
    let e : u64 (k.heap.heap + 208 + 4096) ≡ k.heap.heap + 208 + 4096 =
      omega (arith, g.heap, g.room) in
    ground (arith, e)

-- The new process has its context of 208 bytes at the first free address and its stack of 4096 bytes
-- behind it. It starts at its entry point with the stack pointer at the end of the stack, its pid as
-- argument, interrupts on and the segments of its kind, user or kernel, and every other register 0.
-- The registers of no other process change. This is so while fewer than 128 processes exist, for kernels
-- that boot and the steps of the scheduler lead to.
pub process_create-registers :
    {n : ℕ} {k : Kernel} (entry_point kernel_task p : ℕ) (frame : Context)
    → IsValid n k
    → IsGrown n k
    → n < max_processes
    → p ≤ n
    → let k' = (process_create k entry_point kernel_task).1 in
      ((k'.process_table n).context ≡ k.heap.heap)
      × (k'.heap.heap ≡ k.heap.heap + 208 + 4096)
      × (registers k' frame p
          ≡ (if p == n then initial entry_point kernel_task n k.heap.heap else registers k frame p))
process_create-registers {n} {k} entry_point kernel_task p frame v g fits le =
    let e = process_create_lem entry_point kernel_task g fits in
    (
      ap (λ (r : ℕ × Kernel). (r.1.process_table n).context) e ∙ ground arith,
      ap (λ (r : ℕ × Kernel). r.1.heap.heap) e,
      ap (λ (r : ℕ × Kernel). registers r.1 frame p) e
          ∙ ground (
            arith,
            v.current_in,
            v.own_context p n,
            g.contexts_below p,
            new_context-initial entry_point kernel_task g fits,
          ),
    )

-- `n`, `n + 1`, … as a list of `m` pids.
abbrev pids : (n m : ℕ) → List ℕ
pids n zero = []
pids n (suc m) = n ∷ pids (n + 1) m

record AfterCreation (n : ℕ) (ring : List ℕ) (k : Kernel) : Type 0 where
  valid : IsValid n k
  grown : IsGrown n k
  order : view_ring k ≡ ring

create_tasks-AfterCreation :
    (m n end entry_point : ℕ) (k : Kernel) (ring : List ℕ)
    → n + m ≡ end
    → end ≤ max_processes
    → AfterCreation n ring k
    → AfterCreation end (ring ++ pids n m) (create_tasks m entry_point k)
unfolding create_tasks
create_tasks-AfterCreation zero n end entry_point k ring e fits a =
    let same : n ≡ end = omega arith in
    subst (λ m. AfterCreation m (ring ++ []) k) same
      (subst (λ r. AfterCreation n r k) (sym (append-nil ring)) a)
create_tasks-AfterCreation (suc m) n end entry_point k ring e fits a =
    let made = process_create-IsValid entry_point 0 a.valid a.grown (omega arith) in
    let next : AfterCreation (n + 1) (ring ++ (n ∷ [])) (process_create k entry_point 0).1 =
      record { valid = made.1; grown = made.2; order = made.3 ∙ ap (λ r. r ++ (n ∷ [])) a.order } in
    subst (λ r. AfterCreation end r (create_tasks m entry_point (process_create k entry_point 0).1))
      (append_assoc ring (n ∷ []) (pids (n + 1) m))
      (create_tasks-AfterCreation m (n + 1) end entry_point (process_create k entry_point 0).1
        (ring ++ (n ∷ [])) (omega arith) fits next)

-- The globals of process.c as they are initialised, with what is left of the heap.
abbrev pub boot_with : Heap → Kernel
boot_with heap = record boot_kernel { heap = heap }

-- Room for 128 processes.
abbrev pub HasRoom : Heap → Type 0
HasRoom heap = Arena.IsValid heap × (max_processes * 4304 ≤ heap.heap_size)

boot_filled-IsGrown : (heap : Heap) → HasRoom heap → IsGrown 0 (fill_free_queue (boot_with heap))
unfolding fill_free_queue
boot_filled-IsGrown heap h = record {
  free_head = refl;
  free_slots = λ i lt. fill_slots-get 128 0 i (λ _. 0) (omega arith) (omega arith) (omega arith);
  heap = h.0;
  room = omega arith;
  contexts_below = λ i h. absurd (omega arith);
}

-- After the creation of process 0, and its removal from the run queue.
abbrev with_init : ℕ → Heap → Kernel
with_init init heap =
    let k = (process_create (fill_free_queue (boot_with heap)) init 1).1 in
    record k { run_queue = advance k.run_queue }

with_init-IsValid : (init : ℕ) (heap : Heap) → HasRoom heap → IsValid 1 (with_init init heap)
unfolding fill_free_queue advance enqueue window
with_init-IsValid init heap h =
    rw (process_create_lem init 1 (boot_filled-IsGrown heap h) (omega arith)) record {
      some_created = omega arith;
      fits = omega arith;
      queue = omega arith;
      current_in = inl refl;
      slice_left = λ h. cc;
      members = λ p h. absurd (omega arith);
      once = λ p. omega arith;
      room = omega arith;
      own_context = λ i j hi hj e. omega arith;
    }

with_init-AfterCreation :
    (init : ℕ) (heap : Heap) → HasRoom heap → AfterCreation 1 [] (with_init init heap)
unfolding fill_free_queue advance enqueue window
with_init-AfterCreation init heap h = record {
  valid = with_init-IsValid init heap h;
  grown =
      let g =
        process_create-IsGrown {k = fill_free_queue (boot_with heap)} init 1
          (boot_filled-IsGrown heap h) (omega arith) in
      record {
        free_head = g.free_head;
        free_slots = g.free_slots;
        heap = g.heap;
        room = g.room;
        contexts_below = g.contexts_below;
      };
  order =
      ap (λ (r : ℕ × Kernel). view_ring (record (r.1) { run_queue = advance r.1.run_queue }))
        (process_create_lem init 1 (boot_filled-IsGrown heap h) (omega arith));
}

pub process_create-current :
    (k : Kernel) (entry_point kernel_task : ℕ)
    → (process_create k entry_point kernel_task).1.current_pid ≡ k.current_pid
unfolding process_create add_to_run_queue
process_create-current k entry_point kernel_task = refl

create_tasks-current :
    (n entry_point : ℕ) (k : Kernel) → (create_tasks n entry_point k).current_pid ≡ k.current_pid
unfolding create_tasks
create_tasks-current zero entry_point k = refl
create_tasks-current (suc n) entry_point k =
    create_tasks-current n entry_point (process_create k entry_point 0).1
    ∙ process_create-current k entry_point 0

-- `setup_process` at boot, whatever the two entry points are, with room for 128 processes on the heap:
-- five processes, the scheduler's invariant, nothing current, and processes 1 to 4 in the ring in
-- this order.
pub setup_process-IsValid :
    (init user_task : ℕ) (heap : Heap)
    → HasRoom heap
    → let k = setup_process init user_task (boot_with heap) in
      IsValid 5 k × IsGrown 5 k × (view_ring k ≡ 1 ∷ 2 ∷ 3 ∷ 4 ∷ []) × (k.current_pid ≡ minus_one)
unfolding setup_process fill_free_queue
setup_process-IsValid init user_task heap h =
    let a =
      create_tasks-AfterCreation 4 1 5 user_task (with_init init heap) [] refl (omega arith)
        (with_init-AfterCreation init heap h) in
    (
      a.valid,
      a.grown,
      a.order,
      create_tasks-current 4 user_task (with_init init heap)
          ∙ process_create-current (fill_free_queue (boot_with heap)) init 1,
    )
