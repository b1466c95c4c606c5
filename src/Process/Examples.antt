-- ===== src/Process/Examples.antt =====
-- Concrete kernels for tests: process.c at the kernel that `setup_process` leaves and after timer ticks.
use frog_os.Prelude.{◌≡◌, ◌≢◌, refl, [], ◌∷◌, true, minus_one, arith}
use frog_os.Context.{zero_context}
use frog_os.Queue.{advance, enqueue}
use frog_os.Queue.Contents.{window}
use frog_os.Mem.{boot_heap, malloc}
use frog_os.Process.{
  Kernel, boot_kernel, setup_process, process_create, schedule_process, start_process, start_next,
  get_next_pid, run_slice, add_to_run_queue, fill_slots, fill_free_queue, create_tasks,
}
use frog_os.Process.Valid.{IsValid, view, on_cpu}
use frog_os.Process.Preserve.{schedule_process-IsValid, schedule_process-started}
use frog_os.Process.Create.{IsGrown}
use frog_os.Process.Reach.{Ready, Step-Ready, timer}
use frog_os.Process.Setup.{setup_process-IsValid}

abbrev pub at_boot : Kernel
at_boot = setup_process 0x200100 0x200200 boot_kernel

-- After one timer tick process 0 is current, and after a second one process 1.
abbrev pub idle_kernel : Kernel
idle_kernel = (schedule_process at_boot zero_context).0

abbrev pub busy_kernel : Kernel
busy_kernel = (schedule_process idle_kernel zero_context).0

pub at_boot-IsValid : IsValid 5 at_boot
at_boot-IsValid = (setup_process-IsValid 0x200100 0x200200 boot_heap (omega arith, omega arith)).0

pub idle_kernel-IsValid : IsValid 5 idle_kernel
idle_kernel-IsValid = schedule_process-IsValid zero_context at_boot-IsValid

pub idle_kernel-started : idle_kernel.current_pid ≢ minus_one
idle_kernel-started = schedule_process-started zero_context at_boot-IsValid

pub busy_kernel-IsValid : IsValid 5 busy_kernel
busy_kernel-IsValid = schedule_process-IsValid zero_context idle_kernel-IsValid

pub busy_kernel-view : view busy_kernel ≡ record { ring = 1 ∷ 2 ∷ 3 ∷ 4 ∷ []; slice = 100 }
unfolding setup_process fill_free_queue fill_slots create_tasks process_create malloc
    add_to_run_queue schedule_process start_process start_next get_next_pid run_slice advance
    enqueue window
busy_kernel-view = refl

pub busy_kernel-on_cpu : on_cpu busy_kernel ≡ true
unfolding setup_process fill_free_queue fill_slots create_tasks process_create malloc
    add_to_run_queue schedule_process start_process start_next get_next_pid run_slice advance
    enqueue window
busy_kernel-on_cpu = refl

pub at_boot-IsGrown : IsGrown 5 at_boot
at_boot-IsGrown = (setup_process-IsValid 0x200100 0x200200 boot_heap (omega arith, omega arith)).1

pub busy_kernel-started : busy_kernel.current_pid ≢ minus_one
busy_kernel-started = schedule_process-started zero_context idle_kernel-IsValid

pub busy_kernel-Ready : Ready 5 busy_kernel
busy_kernel-Ready =
    Step-Ready (timer zero_context) (
      Step-Ready (timer zero_context) (record { valid = at_boot-IsValid; grown = at_boot-IsGrown }))
