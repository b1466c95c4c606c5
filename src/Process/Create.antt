-- ===== src/Process/Create.antt =====
-- process.c: what `process_create` and `setup_process` make.
use frog_os.Prelude.{
  ℕ, zero, suc, ◌+◌, ◌-◌, ◌*◌, ◌%◌, ◌≤◌, ◌<◌, ◌≡◌, inl, inr, refl, sym, ap, ◌∙◌, subst, [], ◌∷◌,
  ◌++◌, true, count, length, update, u16, ◌==◌, arith, Bool-cases, count-append, length-append,
}
use frog_os.Mem.Arena
use frog_os.Mem.Arena.{malloc_fits}
use frog_os.Queue.{max_processes, advance, enqueue}
use frog_os.Queue.Contents.{contents, contents-enqueue, enqueue-IsInRange}
use frog_os.Process.{
  Kernel, current, ready, process_create, new_context, add_to_run_queue, fill_slots,
  creating_process,
}
use frog_os.Process.Valid.{view_ring, on_cpu, IsValid}

-- What `process_create` relies on, after `n` processes: the free slots are in order from `n` on,
-- the heap has room for the rest, and what it will hand out holds no context yet.
pub record IsGrown (n : ℕ) (k : Kernel) : Type 0 where
  pub free_head : k.free_queue.head ≡ n % max_processes
  pub free_slots : (i : ℕ) → i < max_processes → k.free_queue.slots i ≡ i
  pub heap : Arena.IsValid k.heap
  pub room : (max_processes - n) * 4304 ≤ k.heap.heap_size
  pub contexts_below : (i : ℕ) → i < n → (k.process_table i).context < k.heap.heap

fill_slots-get_below : (n i j : ℕ) (slots : ℕ → ℕ) → j < i → fill_slots n i slots j ≡ slots j
unfolding fill_slots
fill_slots-get_below zero i j slots lt = refl
fill_slots-get_below (suc n) i j slots lt =
    fill_slots-get_below n (i + 1) j (update slots i (u16 i)) (omega arith) ∙ ground arith

pub fill_slots-get :
    (n i j : ℕ) (slots : ℕ → ℕ)
    → i + n ≤ max_processes
    → i ≤ j
    → j < i + n
    → fill_slots n i slots j ≡ j
unfolding fill_slots
fill_slots-get zero i j slots fits lo hi = absurd (omega arith)
fill_slots-get (suc n) i j slots fits lo hi = elim (Bool-cases (i == j)) [
  | inl same ↦
      fill_slots-get_below n (i + 1) j (update slots i (u16 i)) (ground arith) ∙ ground arith
  | inr other ↦
      fill_slots-get n (i + 1) j (update slots i (u16 i)) (omega arith) (ground arith) (omega arith)
]

-- The kernel with process `n` created, in blocks taken from the front of the heap.
abbrev pub created : Kernel → (n entry_point kernel_task : ℕ) → Kernel
created k n entry_point kernel_task = record k {
  printed = creating_process n ∷ k.printed;
  free_queue = advance k.free_queue;
  run_queue = enqueue k.run_queue n;
  heap = record { heap = k.heap.heap + 208 + 4096; heap_size = k.heap.heap_size - 208 - 4096 };
  contexts =
      update k.contexts k.heap.heap (new_context entry_point kernel_task n (k.heap.heap + 208));
  process_table =
      update k.process_table n
        (record (k.process_table n) { pid = n; state = ready; context = k.heap.heap });
}

pub process_create_lem :
    {n : ℕ} {k : Kernel} (entry_point kernel_task : ℕ)
    → IsGrown n k
    → n < max_processes
    → process_create k entry_point kernel_task ≡ (n, created k n entry_point kernel_task)
unfolding process_create add_to_run_queue
process_create_lem {n} {k} entry_point kernel_task g fits =
    let slot : k.free_queue.slots k.free_queue.head ≡ n =
      ap k.free_queue.slots (omega arith) ∙ g.free_slots n fits in
    let context = malloc_fits {m = k.heap} 208 g.heap (omega arith) refl (omega arith) in
    let stack =
      malloc_fits {m = record { heap = k.heap.heap + 208; heap_size = k.heap.heap_size - 208 }} 4096
        (omega arith) (omega arith) refl (omega arith) in
    rw (slot, context, stack)

-- Creation keeps what the next one relies on.
pub process_create-IsGrown :
    {n : ℕ} {k : Kernel} (entry_point kernel_task : ℕ)
    → IsGrown n k
    → n < max_processes
    → IsGrown (n + 1) (process_create k entry_point kernel_task).1
unfolding advance
process_create-IsGrown {n} {k} entry_point kernel_task g fits =
    rw (process_create_lem entry_point kernel_task g fits) record {
      free_head = omega arith;
      free_slots = g.free_slots;
      heap = omega arith;
      room = omega arith;
      contexts_below = λ i h. ground (arith, g.contexts_below i);
    }

module _ {n : ℕ} {k : Kernel} (entry_point kernel_task : ℕ) (v : IsValid n k)
    (fits : n < max_processes) where
  abbrev k' : Kernel
  k' = created k n entry_point kernel_task

  created-on_cpu : on_cpu k' ≡ on_cpu k
  created-on_cpu = ground (arith, v.current_in)

  created-contents : contents k'.run_queue ≡ contents k.run_queue ++ (n ∷ [])
  created-contents = contents-enqueue n v.queue (ground (arith, v.room)) ∙ ground arith

  created-view_ring : view_ring k' ≡ view_ring k ++ (n ∷ [])
  created-view_ring = ground (arith, created-on_cpu, created-contents)

  created-count : (p : ℕ) → count p (view_ring k') ≡ count p (view_ring k) + count p (n ∷ [])
  created-count p = ap (count p) created-view_ring ∙ count-append p (view_ring k) (n ∷ [])

  created-slice :
      on_cpu k' ≡ true → (0 < (current k').time_remaining) × ((current k').time_remaining ≤ 100)
  created-slice h = ground (arith, created-on_cpu, v.slice_left, v.current_in)

  created-own :
      IsGrown n k
      → (i j : ℕ) → i < n + 1
      → j < n + 1
      → (k'.process_table i).context ≡ (k'.process_table j).context
      → i ≡ j
  created-own g i j hi hj e =
      ground (arith, v.own_context i j, g.contexts_below i, g.contexts_below j)

  created-IsValid : IsGrown n k → IsValid (n + 1) k'
  created-IsValid g = record {
    some_created = omega arith;
    fits = omega arith;
    queue = enqueue-IsInRange n v.queue;
    current_in = ground (arith, v.current_in);
    slice_left = created-slice;
    members = λ p h. ground (arith, created-count p, v.members p, v.some_created);
    once = λ p. ground (arith, created-count p, v.members p, v.once p);
    room = omega (
      arith,
      ap (length {A = ℕ}) created-view_ring,
      length-append (view_ring k) (n ∷ []),
      v.room,
    );
    own_context = created-own g;
  }

-- `process_create` returns the number of processes as the pid of the new one, keeps the scheduler's
-- invariant, and puts the new process at the end of the ring, as long as fewer than 128 exist.
pub process_create-IsValid :
    {n : ℕ} {k : Kernel} (entry_point kernel_task : ℕ)
    → IsValid n k
    → IsGrown n k
    → n < max_processes
    → let (pid, k') = process_create k entry_point kernel_task in
      (pid ≡ n) × IsValid (n + 1) k' × IsGrown (n + 1) k' × (view_ring k' ≡ view_ring k ++ (n ∷ []))
process_create-IsValid {n} {k} entry_point kernel_task v g fits =
    let e = process_create_lem entry_point kernel_task g fits in
    (
      ap (λ (r : ℕ × Kernel). r.0) e,
      subst (λ (r : ℕ × Kernel). IsValid (n + 1) r.1) (sym e)
          (created-IsValid entry_point kernel_task v fits g),
      process_create-IsGrown entry_point kernel_task g fits,
      ap (λ (r : ℕ × Kernel). view_ring r.1) e ∙ created-view_ring entry_point kernel_task v fits,
    )
