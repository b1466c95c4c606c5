-- ===== src/Idt/Handlers.antt =====
-- idt.c: the lists of interrupt handlers, and their dispatch.
use frog_os.Prelude.{
  ℕ, zero, suc, ◌-◌, ◌≤◌, ◌<◌, ◌≡◌, ◌≢◌, ◌⊎◌, inl, inr, refl, sym, subst, none, some, List, [], ◌∷◌,
  Bool, true, false, length, update, ltb, ◌==◌, if◌then◌else◌, arith, Bool-cases, eq_of_==,
  ==_of_ne, update_self, update_ne,
}
use frog_os.Port.{Log, out, interrupts}
use frog_os.Idt.{
  Node, Interrupts, install_irq_handler, unmask_line, irq_clear_mask, run_handlers,
  end_of_interrupt, halted, returned, irq_handler,
}

-- The addresses of the nodes from `head` on, up to the null pointer.
pub data Chain (nodes : ℕ → Node) : ℕ → List ℕ → Type 0 where
  end : Chain nodes 0 []
  link :
      {head : ℕ} {rest : List ℕ}
      → head ≢ 0
      → Chain nodes (nodes head).next rest
      → Chain nodes head (head ∷ rest)

-- The node at `address` is in the list.
abbrev pub Stands : ℕ → List ℕ → Type 0
Stands address [] = ⊥
Stands address (a ∷ rest) = (address ≡ a) ⊎ Stands address rest

module _ {ℓ} {S : Type ℓ} (call : ℕ → ℕ → S → S) where
  -- The calls of the handlers in a list, in its order.
  unfoldable pub call_all : (ℕ → Node) → List ℕ → S → S
  call_all nodes [] s = s
  call_all nodes (a ∷ rest) s = call_all nodes rest (call (nodes a).handler (nodes a).datum s)

  -- With more fuel than handlers, the loop ends, and has called each handler once, in order.
  run_handlers-Chain :
      (fuel : ℕ) {nodes : ℕ → Node} {head : ℕ} {list : List ℕ} (s : S)
      → Chain nodes head list
      → length list < fuel
      → run_handlers call fuel nodes head s ≡ some (call_all nodes list s)
  unfolding run_handlers call_all
  run_handlers-Chain zero s c h = absurd (omega arith)
  run_handlers-Chain (suc fuel) s end h = refl
  run_handlers-Chain (suc fuel) {nodes} {head} s (link nonzero c) h =
      rw (==_of_ne _ _ nonzero)
        (run_handlers-Chain fuel (call (nodes head).handler (nodes head).datum s) c (omega arith))

-- A node that is not in a list can be changed without changing the list.
pub Chain-update :
    {nodes : ℕ → Node} {head : ℕ} {list : List ℕ} (address : ℕ) (node : Node)
    → ¬ (Stands address list)
    → Chain nodes head list
    → Chain (update nodes address node) head list
Chain-update address node new end = end
Chain-update {nodes} {head} address node new (link {rest} nonzero c) =
    let same = update_ne nodes address node head (λ e. new (inl e)) in
    link nonzero (
      subst (λ (n : Node). Chain (update nodes address node) n.next rest) (sym same)
        (Chain-update address node (λ e. new (inr e)) c))

-- The list of handlers of each line.
abbrev pub HasLists : (ℕ → List ℕ) → Interrupts → Type 0
HasLists lists i = (line : ℕ) → Chain i.nodes (i.irq_handlers line) (lists line)

install_nodes : Interrupts → (num node : ℕ) → ℕ → Node
install_nodes i num node = update i.nodes node (record (i.nodes node) { next = i.irq_handlers num })

front-Chain :
    (num node : ℕ) (i : Interrupts) (lists : ℕ → List ℕ)
    → HasLists lists i
    → node ≢ 0
    → ¬ (Stands node (lists num))
    → Chain (install_nodes i num node) node (node ∷ lists num)
unfolding install_nodes
front-Chain num node i lists chains nonzero new =
    let self = update_self i.nodes node (record (i.nodes node) { next = i.irq_handlers num }) in
    link nonzero (
      subst (λ (n : Node). Chain (install_nodes i num node) n.next (lists num)) (sym self)
        (Chain-update node (record (i.nodes node) { next = i.irq_handlers num }) new (chains num)))

-- Installing a node that is in no list puts it in front of the handlers of its line, and leaves those
-- of every other line as they were.
pub install_irq_handler-HasLists :
    (inportb : ℕ → ℕ) (num node : ℕ) (i : Interrupts) (lists : ℕ → List ℕ)
    → HasLists lists i
    → node ≢ 0
    → ((line : ℕ) → ¬ (Stands node (lists line)))
    → HasLists (update lists num (node ∷ lists num)) (install_irq_handler inportb num node i)
unfolding install_irq_handler install_nodes
install_irq_handler-HasLists inportb num node i lists chains nonzero new line =
    elim (Bool-cases (num == line)) [
      | inl e ↦ rw e (
          subst (λ l. Chain (install_nodes i num node) node (node ∷ lists num)) (eq_of_== _ _ e)
            (front-Chain num node i lists chains nonzero (new num)))
      | inr ne ↦ rw ne (
          Chain-update node (record (i.nodes node) { next = i.irq_handlers num }) (new line)
            (chains line))
    ]

-- An interrupt from 32 on calls every handler of its line once, the one that was installed last first,
-- if the fuel exceeds their number, and returns. The first controller is told the end of the
-- interrupts 32 to 48, and before it the second that of 40 to 48.
pub irq_handler-HasLists {ℓ} :
    {S : Type ℓ} (call : ℕ → ℕ → S → S) (fuel int_no cr2 : ℕ) (i : Interrupts) (lists : ℕ → List ℕ)
    (s : S)
    → HasLists lists i
    → 32 ≤ int_no
    → length (lists (int_no - 32)) < fuel
    → (log : Log) × (irq_handler call fuel int_no cr2 i s
        ≡ returned (call_all call i.nodes (lists (int_no - 32)) s) log)
      × (int_no < 40 → log ≡ out 0x20 0x20 ∷ i.log)
      × (40 ≤ int_no → int_no ≤ 48 → log ≡ out 0x20 0x20 ∷ out 0xA0 0x20 ∷ i.log)
      × (48 < int_no → log ≡ i.log)
unfolding irq_handler
irq_handler-HasLists call fuel int_no cr2 i lists s chains from enough =
    let not_exception : ltb int_no 32 ≡ false = ground arith in
    let ran = run_handlers-Chain call fuel s (chains (int_no - 32)) enough in
    (
      end_of_interrupt int_no i.log,
      rw (not_exception, ran),
      λ first. ground arith,
      λ lo hi. ground arith,
      λ beyond. ground arith,
    )

-- An exception is never returned from, and only a page fault prints `cr2`.
pub irq_handler-halted {ℓ} :
    {S : Type ℓ} (call : ℕ → ℕ → S → S) (fuel int_no cr2 : ℕ) (i : Interrupts) (s : S)
    → int_no < 32
    → irq_handler call fuel int_no cr2 i s ≡ halted int_no (if int_no == 14 then some cr2 else none)
unfolding irq_handler
irq_handler-halted call fuel int_no cr2 i s h = ground arith

-- The first handler of a line below 16 is linked in with interrupts on, although
-- `install_irq_handler` has disabled them: `irq_clear_mask` enables them again.
pub unmask_line-interrupts :
    (inportb : ℕ → ℕ) (num : ℕ) (i : Interrupts) (before : Bool)
    → num < 16
    → i.irq_handlers num ≡ 0
    → interrupts before (unmask_line inportb num i) ≡ true
unfolding irq_clear_mask interrupts
unmask_line-interrupts inportb num i before h e = ground arith
