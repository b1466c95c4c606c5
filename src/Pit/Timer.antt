-- ===== src/Pit/Timer.antt =====
-- pit.c with idt.c and process.c: what a timer interrupt does.
use frog_os.Prelude.{
  ℕ, ◌+◌, ◌-◌, ◌^◌, ◌≤◌, ◌≡◌, ◌≢◌, refl, sym, ap, ◌∙◌, subst, List, ◌∷◌, Bool, true, false, u64,
  update, ◌==◌, arith,
}
use frog_os.Context.{Context}
use frog_os.Mem.{Heap}
use frog_os.Mem.Arena
use frog_os.Mem.Arena.{malloc_fits}
use frog_os.Port.{interrupts}
use frog_os.Idt.{Interrupts, install_irq_handler}
use frog_os.Idt.Handlers.{HasLists, Stands, Chain-update, install_irq_handler-HasLists}
use frog_os.Process.{schedule_process}
use frog_os.Process.RoundRobin.{tick}
use frog_os.Process.Valid.{IsValid, view}
use frog_os.Process.Refine.{schedule_process-view}
use frog_os.Process.Preserve.{schedule_process-IsValid}
use frog_os.Pit.{Machine, pit_handler, setup_pit, fill_node, program_pit}

pub setup_pit_lem :
    (inportb : ℕ → ℕ) (handler : ℕ) (heap : Heap) (i : Interrupts)
    → Arena.IsValid heap
    → 24 ≤ heap.heap_size
    → let installed = install_irq_handler inportb 0 heap.heap (fill_node heap.heap handler i) in
      setup_pit inportb handler heap i ≡ (
        record { heap = heap.heap + 24; heap_size = heap.heap_size - 24 },
        record installed { log = program_pit installed.log },
      )
unfolding setup_pit
setup_pit_lem inportb handler heap i v room =
    let nonzero : (heap.heap == 0) ≡ false = ground (arith, v.low) in
    rw (malloc_fits {m = heap} 24 v (omega arith) refl room, nonzero)

handler-install :
    (inportb : ℕ → ℕ) (handler node : ℕ) (i : Interrupts)
    → ((install_irq_handler inportb 0 node (fill_node node handler i)).nodes node).handler ≡ handler
unfolding install_irq_handler
handler-install inportb handler node i = ground arith

-- `setup_pit`, with 24 bytes left, takes a node off the heap, puts it in front of the handlers of line
-- 0, where it calls `pit_handler`, leaves every other line alone, and ends with interrupts on. The
-- new block may hold no node that is installed.
pub setup_pit-HasLists :
    (inportb : ℕ → ℕ) (handler : ℕ) (heap : Heap) (i : Interrupts) (lists : ℕ → List ℕ)
    (before : Bool)
    → Arena.IsValid heap
    → 24 ≤ heap.heap_size
    → HasLists lists i
    → ((line : ℕ) → ¬ (Stands heap.heap (lists line)))
    → let (heap', i') = setup_pit inportb handler heap i in
      HasLists (update lists 0 (heap.heap ∷ lists 0)) i'
      × ((i'.nodes heap.heap).handler ≡ handler)
      × (heap'.heap ≡ heap.heap + 24)
      × (interrupts before i'.log ≡ true)
unfolding interrupts
setup_pit-HasLists inportb handler heap i lists before v room chains new =
    let node = heap.heap in
    let nonzero : node ≢ 0 = omega (arith, v.low) in
    let e = setup_pit_lem inportb handler heap i v room in
    let filled : HasLists lists (fill_node node handler i) =
      λ line. Chain-update node _ (new line) (chains line) in
    let installed =
      install_irq_handler-HasLists inportb 0 node (fill_node node handler i) lists filled nonzero
        new in
    (
      subst (λ (r : Heap × Interrupts). HasLists (update lists 0 (node ∷ lists 0)) r.1) (sym e)
          installed,
      ap (λ (r : Heap × Interrupts). (r.1.nodes node).handler) e
          ∙ handler-install inportb handler node i,
      ap (λ (r : Heap × Interrupts). r.0.heap) e,
      ap (λ (r : Heap × Interrupts). interrupts before r.1.log) e,
    )

pub pit_handler_lem :
    (r : Context) (m : Machine)
    → ((pit_handler r m).0.kernel ≡ (schedule_process m.kernel r).0)
      × ((pit_handler r m).0.pit_counter ≡ u64 (m.pit_counter + 1))
unfolding pit_handler
pit_handler_lem r m = (refl, refl)

-- A timer interrupt advances the counter and the scheduler by one tick, keeps the scheduler's invariant,
-- and leaves interrupts on.
pub pit_handler-tick :
    {n : ℕ} (r : Context) (m : Machine) (before : Bool)
    → IsValid n m.kernel
    → m.kernel.current_pid ≢ 2 ^ 32 - 1
    → let m' = (pit_handler r m).0 in
      (m'.pit_counter ≡ u64 (m.pit_counter + 1))
      × (view m'.kernel ≡ tick (view m.kernel))
      × IsValid n m'.kernel
      × (interrupts before m'.log ≡ true)
unfolding pit_handler interrupts
pit_handler-tick r m before v started =
    (refl, schedule_process-view r v started, schedule_process-IsValid r v, refl)
