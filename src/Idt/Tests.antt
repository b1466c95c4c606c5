-- ===== src/Idt/Tests.antt =====
-- Tests of idt.c.
use frog_os.Prelude.{
  ℕ, zero, suc, ◌+◌, ◌*◌, ◌%◌, ◌≤◌, ◌<◌, ◌≡◌, refl, List, [], ◌∷◌, true, false, update, arith,
}
use frog_os.Port.{Log, out, interrupts}
use frog_os.Idt.{
  Interrupts, install_irq_handler, irq_handler, returned, run_handlers, irq_set_mask,
  irq_clear_mask, setup_idt, unmask_line,
}
use frog_os.Idt.Descriptor.{Handles, present, setup_idt-Handles}
use frog_os.Idt.Mask.{Writes, ChangesBit, irq_mask_lem}
use frog_os.Idt.Handlers.{
  end, HasLists, Stands, call_all, install_irq_handler-HasLists, irq_handler-HasLists,
  unmask_line-interrupts,
}

-- No handler is installed, and all lines are masked.
abbrev bare : Interrupts
bare = record {
  irq_handlers = λ _. 0;
  nodes = λ a. record { handler = a * 10; next = 7; datum = 1 };
  log = [];
}

abbrev masked : ℕ → ℕ
masked port = 0xff

bare-HasLists : HasLists (λ _. []) bare
bare-HasLists line = end

-- Node 100 on line 1, then node 200.
abbrev one : Interrupts
one = install_irq_handler masked 1 100 bare

abbrev two : Interrupts
two = install_irq_handler masked 1 200 one

abbrev one_list : ℕ → List ℕ
one_list = update (λ _. []) 1 (100 ∷ [])

abbrev two_lists : ℕ → List ℕ
two_lists = update one_list 1 (200 ∷ one_list 1)

one-HasLists : HasLists one_list one
one-HasLists =
    install_irq_handler-HasLists masked 1 100 bare (λ _. []) bare-HasLists (omega arith)
      (λ line h. h)

not_in_one : (line : ℕ) → ¬ (Stands 200 (one_list line))
not_in_one zero h = h
not_in_one (suc zero) h = ground arith
not_in_one (suc (suc line)) h = ground arith

install_irq_handler-HasLists_example : HasLists two_lists two
install_irq_handler-HasLists_example =
    install_irq_handler-HasLists masked 1 200 one one_list one-HasLists (omega arith) not_in_one

-- A handler writes its address to a list.
abbrev note : ℕ → ℕ → List ℕ → List ℕ
note handler datum s = handler ∷ s

dispatch_order :
    irq_handler note 9 33 0 two [] ≡ returned (1000 ∷ 2000 ∷ []) (out 0x20 0x20 ∷ two.log)
unfolding irq_handler run_handlers install_irq_handler
dispatch_order = refl

irq_handler-HasLists_example :
    (log : Log) × (irq_handler note 9 33 0 two []
      ≡ returned (call_all note two.nodes (two_lists 1) []) log)
    × (33 < 40 → log ≡ out 0x20 0x20 ∷ two.log)
    × (40 ≤ 33 → 33 ≤ 48 → log ≡ out 0x20 0x20 ∷ out 0xA0 0x20 ∷ two.log)
    × (48 < 33 → log ≡ two.log)
irq_handler-HasLists_example =
    irq_handler-HasLists note 9 33 0 two two_lists []
      (install_irq_handler-HasLists masked 1 200 one one_list one-HasLists (omega arith) not_in_one)
      (omega arith) (omega arith)

unmask_line-interrupts_example : interrupts false (unmask_line masked 1 bare) ≡ true
unmask_line-interrupts_example = unmask_line-interrupts masked 1 bare false (omega arith) refl

abbrev table : ℕ → ℕ
table i = 0x200000 + i % 100

setup_idt-Handles_example :
    let s = setup_idt table 0x211000 [] in
    (33 < 49 → Handles (s.idt 33) (table 33))
    × (49 ≤ 33 → present (s.idt 33) ≡ 0)
    × (s.idtr_offset ≡ 0x211000)
    × (s.idtr_size + 1 ≡ 256 * 16)
    × (interrupts false s.log ≡ true)
setup_idt-Handles_example = setup_idt-Handles table 0x211000 33 false [] (λ i. omega arith)

irq_mask_lem_example :
    ((cleared : ℕ) × (set : ℕ) × Writes 0xA1 cleared [] (irq_clear_mask masked 9 [])
      × ChangesBit 0xff cleared 1 0
      × Writes 0xA1 set [] (irq_set_mask masked 9 [])
      × ChangesBit 0xff set 1 1)
    × (irq_clear_mask masked 20 [] ≡ [])
irq_mask_lem_example =
    irq_mask_lem masked 1 1 4 [] (λ port. omega arith) (omega arith) (omega arith)
