-- ===== src/Process.antt =====
-- process.c and include/process.h: the process table, process creation and the scheduler.
-- Child modules prove what the functions do.
pub mod RoundRobin
pub mod Valid
pub mod Branches
pub mod Refine
pub mod Turns
pub mod Branchwise
pub mod Preserve
pub mod Registers
pub mod Fair
pub mod Create
pub mod Setup
pub mod Yield
pub mod Reach
pub mod Sleep
pub mod Lost
pub mod Pool
pub mod Examples
mod Tests
use Prim.Native.Nat.{bit_or}
use frog_os.Prelude.{
  ℕ, zero, suc, ◌+◌, ◌-◌, ◌%◌, ◌^◌, List, [], ◌∷◌, Bool, u16, u32, u64, sub32, minus_one, update,
  ◌==◌, if◌then◌else◌,
}
use frog_os.Context.{Context, zero_context, sizeof_context}
use frog_os.Gdt.Selectors.{
  kernel_code_segment, kernel_data_segment, user_code_segment, user_data_segment,
}
use frog_os.Mem.{Heap, boot_heap, malloc}
use frog_os.Queue.{Queue, empty_queue, max_processes, is_empty, enqueue, advance}

-- `PROCESS_STATE_RUNNING` and the other states.
abbrev pub running : ℕ
running = 0

abbrev pub sleeping : ℕ
sleeping = 1

abbrev pub waiting : ℕ
waiting = 2

abbrev pub ready : ℕ
ready = 3

-- `process_t`; `context` is the address of a `process_context_t`.
pub record Process : Type 0 where
  pub pid : ℕ
  pub time_remaining : ℕ
  pub state : ℕ
  pub total_ticks : ℕ
  pub context : ℕ

abbrev pub zero_process : Process
zero_process = record { pid = 0; time_remaining = 0; state = 0; total_ticks = 0; context = 0 }

-- What is printed, a constructor for each call of `printf`.
pub data Message : Type 0 where
  creating_process : (pid : ℕ) → Message

-- The globals of process.c, the heap of mem.c, the `process_context_t` at each address, and what has
-- been printed, the newest first. `current_pid` is the bit pattern of an int32_t.
pub record Kernel : Type 0 where
  pub process_table : ℕ → Process
  pub current_pid : ℕ
  pub free_queue : Queue
  pub run_queue : Queue
  pub sleep_queue : Queue
  pub heap : Heap
  pub contexts : ℕ → Context
  pub printed : List Message

-- The globals as they are initialised; memory is zero.
abbrev pub boot_kernel : Kernel
boot_kernel = record {
  process_table = λ _. zero_process;
  current_pid = minus_one;
  free_queue = empty_queue;
  run_queue = empty_queue;
  sleep_queue = empty_queue;
  heap = boot_heap;
  contexts = λ _. zero_context;
  printed = [];
}

abbrev pub current : Kernel → Process
current k = k.process_table k.current_pid

abbrev pub set_process : Kernel → ℕ → Process → Kernel
set_process k pid p = record k { process_table = update k.process_table pid p }

unfoldable pub add_to_run_queue : Kernel → ℕ → Kernel
add_to_run_queue k pid = record k { run_queue = enqueue k.run_queue pid }

-- The result is an int32_t read from a uint16_t, so it is not negative.
pub get_next_pid : Kernel → ℕ × Kernel
get_next_pid k =
    if is_empty k.run_queue
    then (0, k)
    else (k.run_queue.slots k.run_queue.head, record k { run_queue = advance k.run_queue })

-- The first `memcpy` of `start_process`: save the interrupt frame, unless nothing runs yet.
abbrev pub save_context : Kernel → Context → Kernel
save_context k frame = record k {
  contexts =
      if k.current_pid == minus_one
      then k.contexts
      else update k.contexts (current k).context frame;
}

-- The kernel after the call, and the interrupt frame, which `iretq` returns through.
pub start_process : Kernel → ℕ → Context → Kernel × Context
start_process k pid frame =
    let k₁ = save_context k frame in
    let p = k₁.process_table pid in
    (
      record k₁ {
        process_table =
            update k₁.process_table pid (record p { state = running; time_remaining = 100 });
        current_pid = pid;
      },
      k₁.contexts p.context,
    )

-- `start_process(get_next_pid(), context)`
pub start_next : Kernel → Context → Kernel × Context
start_next k frame = let (pid, k') = get_next_pid k in start_process k' pid frame

-- `total_ticks++` on the current process, if there is one.
abbrev pub count_tick : Kernel → Kernel
count_tick k = record k {
  process_table =
      if k.current_pid == minus_one
      then k.process_table
      else update k.process_table k.current_pid
          (record (current k) { total_ticks = u32 ((current k).total_ticks + 1) });
}

-- `time_remaining--`
abbrev pub use_slice : Kernel → Kernel
use_slice k =
    set_process k k.current_pid
      (record (current k) { time_remaining = sub32 (current k).time_remaining 1 })

-- The current process becomes ready, and goes to the end of the run queue.
abbrev pub preempt : Kernel → Kernel
preempt k =
    add_to_run_queue (set_process k k.current_pid (record (current k) { state = ready }))
      k.current_pid

-- The branch of a process other than 0 that runs.
pub run_slice : Kernel → Context → Kernel × Context
run_slice k frame =
    let k' = use_slice k in
    if (current k').time_remaining == 0 then start_next (preempt k') frame else (k', frame)

pub schedule_process : Kernel → Context → Kernel × Context
schedule_process k frame =
    let k' = count_tick k in
    if k'.current_pid == minus_one
    then start_process k' 0 frame
    else if k'.current_pid == 0
    then (if is_empty k'.run_queue then (k', frame) else start_next k' frame)
    else if (current k').state == running
    then run_slice k' frame
    else start_next k' frame

-- The context of a new process, `stack` being the block for its stack.
unfoldable pub new_context : (entry_point kernel_task pid stack : ℕ) → Context
new_context entry_point kernel_task pid stack = record zero_context {
  rip = entry_point;
  cs = if kernel_task == 0 then bit_or user_code_segment 3 else kernel_code_segment;
  ss = if kernel_task == 0 then bit_or user_data_segment 3 else kernel_data_segment;
  rflags = 0x202;
  rsp = u64 (stack + 4096);
  rdi = pid;
}

-- The first free slot is taken whether or not there is one, and what `malloc` returns is not tested.
pub process_create : Kernel → (entry_point kernel_task : ℕ) → ℕ × Kernel
process_create k entry_point kernel_task =
    let pid = k.free_queue.slots k.free_queue.head in
    let (context, heap₁) = malloc k.heap sizeof_context in
    let (stack, heap₂) = malloc heap₁ 4096 in
    let k' = record k {
      printed = creating_process pid ∷ k.printed;
      free_queue = advance k.free_queue;
      heap = heap₂;
      contexts = update k.contexts context (new_context entry_point kernel_task pid stack);
      process_table =
          update k.process_table pid
            (record (k.process_table pid) { pid = pid; state = ready; context = context });
    } in
    (pid, add_to_run_queue k' pid)

-- `for (int i = …; …; i++) free_queue[i] = i;` for `n` rounds from `i` on.
pub fill_slots : (n i : ℕ) → (ℕ → ℕ) → ℕ → ℕ
fill_slots zero i slots = slots
fill_slots (suc n) i slots = fill_slots n (i + 1) (update slots i (u16 i))

pub fill_free_queue : Kernel → Kernel
fill_free_queue k = record k {
  free_queue = record (k.free_queue) { slots = fill_slots max_processes 0 k.free_queue.slots };
}

-- `process_create` in a loop of `n` rounds.
pub create_tasks : ℕ → ℕ → Kernel → Kernel
create_tasks zero entry_point k = k
create_tasks (suc n) entry_point k = create_tasks n entry_point (process_create k entry_point 0).1

-- Process 0 runs `init`, and is taken out of the run queue; 1 to 4 run `user_task`.
-- `disable` and `enable` around it stand where `cmain` calls it, in Main.
pub setup_process : (init user_task : ℕ) → Kernel → Kernel
setup_process init user_task k =
    let k₁ = (process_create (fill_free_queue k) init 1).1 in
    create_tasks 4 user_task (record k₁ { run_queue = advance k₁.run_queue })
