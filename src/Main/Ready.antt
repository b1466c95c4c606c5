-- ===== src/Main/Ready.antt =====
-- cmain.c: the kernel that it leaves is ready for the first timer interrupt.
use frog_os.Prelude.{
  ℕ, ◌^◌, ◌<◌, ◌≡◌, refl, some, [], ◌∷◌, Bool, true, update, arith, minus_one, ap, ◌-◌,
}
use frog_os.Port.{Log, disable, interrupts}
use frog_os.Mem.{Heap, boot_heap}
use frog_os.Conio.{Screen, cls, puts}
use frog_os.Conio.Cursor.{IsOnScreen}
use frog_os.Conio.Text.{video-cls, puts-LooksAs}
use frog_os.Memory.Laws.{IsString}
use frog_os.Gdt.{Segments, setup_gdt}
use frog_os.Idt.{Interrupts, setup_idt}
use frog_os.Pit.{setup_pit}
use frog_os.Idt.Descriptor.{Handles, setup_idt-Handles}
use frog_os.Idt.Handlers.{HasLists, end}
use frog_os.Process.Valid.{IsValid, view_ring}
use frog_os.Process.Setup.{setup_process-IsValid}
use frog_os.Pit.Timer.{setup_pit_lem, setup_pit-HasLists}
use frog_os.Process.{Message}
use frog_os.Prelude.{List, [], ◌∷◌}
use frog_os.Main.{show, Addresses, Booted, boot_interrupts, start_kernel, cmain}

-- The heap that `setup_pit` leaves.
abbrev heap_after : Heap
heap_after = record { heap = 0x300018; heap_size = 0x100000 - 24 }

start_kernel-heap :
    (inportb : ℕ → ℕ) (handler : ℕ) (i : Interrupts)
    → (setup_pit inportb handler boot_heap i).0 ≡ heap_after
start_kernel-heap inportb handler i =
    ap (λ (r : Heap × Interrupts). r.0)
      (setup_pit_lem inportb handler boot_heap i (omega arith) (omega arith))

-- What is ready when `cmain` comes to its last loop.
pub record IsReady (irq_table : ℕ → ℕ) (at : Addresses) (b : Booted) : Type 0 where
  pub on_screen : IsOnScreen b.screen
  pub handles : (i : ℕ) → i < 49 → Handles (b.table.idt i) (irq_table i)
  pub lists : HasLists (update (λ _. []) 0 (0x300000 ∷ [])) b.interrupts
  pub timer : (b.interrupts.nodes 0x300000).handler ≡ at.pit_handler
  pub processes : IsValid 5 b.kernel
  pub waiting : view_ring b.kernel ≡ 1 ∷ 2 ∷ 3 ∷ 4 ∷ []
  pub none_current : b.kernel.current_pid ≡ minus_one
  pub interrupts_on : (before : Bool) → interrupts before b.interrupts.log ≡ true

show-IsOnScreen :
    (print_message : Message → Screen → Screen) (messages : List Message) {s : Screen}
    → ((message : Message) (t : Screen) → IsOnScreen t → IsOnScreen (print_message message t))
    → IsOnScreen s
    → IsOnScreen (show print_message messages s)
unfolding show
show-IsOnScreen print_message [] keep v = v
show-IsOnScreen print_message (message ∷ before) {s} keep v =
    keep message (show print_message before s) (show-IsOnScreen print_message before keep v)

start_kernel-IsReady :
    (inportb irq_table : ℕ → ℕ) (print_message : Message → Screen → Screen) (at : Addresses)
    {s : Screen} (segments : Segments) (log : Log)
    → IsOnScreen s
    → ((message : Message) (t : Screen) → IsOnScreen t → IsOnScreen (print_message message t))
    → ((i : ℕ) → irq_table i < 2 ^ 64)
    → let table = setup_idt irq_table at.idt log in
      IsReady irq_table at (
        start_kernel inportb print_message at s segments table
          (record boot_interrupts { log = table.log }))
unfolding interrupts
start_kernel-IsReady inportb irq_table print_message at segments log v keep wide =
    let table = setup_idt irq_table at.idt log in
    let i = record boot_interrupts { log = table.log } in
    let pit =
      setup_pit-HasLists inportb at.pit_handler boot_heap i (λ _. []) true (omega arith)
        (omega arith) (λ line. end) (λ line h. h) in
    let made = setup_process-IsValid at.init at.user_task heap_after (omega arith, omega arith) in
    let same = start_kernel-heap inportb at.pit_handler i in
    record {
      on_screen = show-IsOnScreen print_message _ keep v;
      handles = λ j lt. (setup_idt-Handles irq_table at.idt j true log wide).0 lt;
      lists = pit.0;
      timer = pit.1;
      processes = rw same made.0;
      waiting = rw same made.2;
      none_current = rw same made.3;
      interrupts_on = λ before. refl;
    }

cmain_lem :
    (fuel : ℕ) (mem inportb irq_table : ℕ → ℕ) (print_sector print_table : Screen → Screen)
    (print_message : Message → Screen → Screen) (at : Addresses) (s s₁ s₂ : Screen)
    → puts fuel mem at.long_mode (cls s) ≡ some s₁
    → puts fuel mem at.tss_loaded (print_table (print_sector s₁)) ≡ some s₂
    → let table = setup_idt irq_table at.idt (disable []) in
      cmain fuel mem inportb irq_table print_sector print_table print_message at s
      ≡ some (
          start_kernel inportb print_message at s₂
            (setup_gdt at.tss)
            table
            (record boot_interrupts { log = table.log }))
unfolding cmain
cmain_lem fuel mem inportb irq_table print_sector print_table print_message at s s₁ s₂ e₁ e₂ =
    ground (arith, e₁, e₂)

-- `cmain` comes to its last loop, if no interrupt comes before. Then each interrupt below 49 has its
-- handler in the table, line 0 calls `pit_handler` and no other line has a handler, five processes
-- exist and 1 to 4 wait for the first timer interrupts, the cursor is on the screen, and interrupts
-- are on. Printing must keep the cursor on the screen, the addresses of `irq_table` must be of
-- 64 bits, and both texts end within the fuel and an int.
pub cmain-IsReady :
    (fuel n m : ℕ) (mem inportb irq_table : ℕ → ℕ) (print_sector print_table : Screen → Screen)
    (print_message : Message → Screen → Screen) (at : Addresses) (s : Screen)
    → ((t : Screen) → IsOnScreen t → IsOnScreen (print_sector t))
    → ((t : Screen) → IsOnScreen t → IsOnScreen (print_table t))
    → ((message : Message) (t : Screen) → IsOnScreen t → IsOnScreen (print_message message t))
    → ((i : ℕ) → irq_table i < 2 ^ 64)
    → IsString mem at.long_mode n
    → IsString mem at.tss_loaded m
    → n < fuel
    → m < fuel
    → fuel < 2 ^ 31
    → (b : Booted) × (cmain fuel mem inportb irq_table print_sector print_table print_message at s
        ≡ some b)
      × IsReady irq_table at b
cmain-IsReady fuel n m mem inportb irq_table print_sector print_table print_message at s keep_sector
      keep_table keep_message wide first second f g few =
    let (s₁, e₁, v₁, _) =
      puts-LooksAs fuel n at.long_mode mem (video-cls s 0).0 first f (omega arith) in
    let (s₂, e₂, v₂, _) =
      puts-LooksAs fuel m at.tss_loaded mem (keep_table _ (keep_sector _ v₁)) second g
        (omega arith) in
    (
      start_kernel inportb print_message at s₂ (setup_gdt at.tss)
          (setup_idt irq_table at.idt (disable []))
          (record boot_interrupts { log = (setup_idt irq_table at.idt (disable [])).log }),
      cmain_lem fuel mem inportb irq_table print_sector print_table print_message at s s₁ s₂ e₁ e₂,
      start_kernel-IsReady inportb irq_table print_message at (setup_gdt at.tss) (disable []) v₂
          keep_message wide,
    )
