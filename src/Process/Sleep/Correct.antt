-- ===== src/Process/Sleep/Correct.antt =====
-- process.c: `sleep_process` leaves the sleep queue sorted, if it sorts at all.
use frog_os.Prelude.{All, eq_of_==}
use frog_os.Prelude.{
  ℕ, zero, suc, ◌+◌, ◌-◌, ◌%◌, ◌≤◌, ◌<◌, ◌≡◌, ◌≢◌, sym, ap, ap₂, ◌∙◌, subst, List, [], ◌∷◌, ◌++◌,
  true, count-append, ◌==◌, if◌then◌else◌, count, length, arith, Bool-cases, inl, inr,
}
use frog_os.Queue.{max_processes, enqueue}
use frog_os.Queue.Contents.{IsInRange, window, used, contents, contents-enqueue, enqueue-IsInRange}
use frog_os.Process.{Kernel}
use frog_os.Process.Sleep.{any_shorter, sort_from, fall_asleep, sleep_process, sleep_process-early}
use frog_os.Process.Sleep.Sort.{sort_from-SortedBelow, IsSorted, window-IsSorted}

-- The first loop finds an entry with less time left.
any_shorter_complete :
    (fuel n i q pid : ℕ) (k : Kernel)
    → i < max_processes
    → n < max_processes
    → k.sleep_queue.tail ≡ (i + n) % max_processes
    → n < fuel
    → 0 < count q (window k.sleep_queue.slots i n)
    → (k.process_table q).time_remaining < (k.process_table pid).time_remaining
    → any_shorter fuel i k pid ≡ true
unfolding any_shorter window
any_shorter_complete zero n i q pid k lt few e enough some less = absurd (omega arith)
any_shorter_complete (suc fuel) zero i q pid k lt few e enough some less = absurd (omega arith)
any_shorter_complete (suc fuel) (suc n) i q pid k lt few e enough some less = ground (
  arith,
  any_shorter_complete fuel n ((i + 1) % max_processes) q pid k (omega arith) (omega arith)
      (omega arith) (omega arith),
)

-- What the sort makes of a kernel whose sleep queue is in range.
sort_from-contents :
    (k : Kernel)
    → IsInRange k.sleep_queue
    → let k' = sort_from max_processes k.sleep_queue.head k in
      IsSorted (λ p. (k.process_table p).time_remaining) (contents k'.sleep_queue)
      × ((p : ℕ) → count p (contents k'.sleep_queue) ≡ count p (contents k.sleep_queue))
      × (k'.process_table ≡ k.process_table)
sort_from-contents k v =
    let h = k.sleep_queue.head in
    let n = used k.sleep_queue in
    let few : n < max_processes = omega arith in
    let k' = sort_from max_processes h k in
    let (keeps, sorted) =
      sort_from-SortedBelow h n v.head_in few max_processes 0 h k (omega (arith, v.head_in))
        (omega (arith, v.head_in, v.tail_in)) (omega arith) (omega arith)
        (λ c d hc hd hn. absurd (omega arith)) in
    let same : contents k'.sleep_queue ≡ window k'.sleep_queue.slots h n =
      ap₂ (λ a b. window k'.sleep_queue.slots a ((b + max_processes - a) % max_processes))
        keeps.head_same keeps.tail_same in
    let time = λ (p : ℕ). (k.process_table p).time_remaining in
    let ordered : IsSorted time (window k'.sleep_queue.slots h n) =
      window-IsSorted time k'.sleep_queue.slots h n v.head_in
        (λ c d hd hn. rw keeps.table_same at (sorted c d (omega arith) hd hn)) in
    (
      subst (IsSorted time) (sym same) ordered,
      λ p. ap (count p) same ∙ keeps.counts p,
      keeps.table_same,
    )

-- With fewer than 127 entries in the sleep queue, if some other process in it has less time left than
-- the current one asks for, `sleep_process` leaves the queue in the order of the time left. It holds
-- the same processes as before, each as often, and the current one once more, and of the process table
-- only the entry of the current one changes.
pub sleep_process-IsSorted :
    (time q : ℕ) (k : Kernel)
    → IsInRange k.sleep_queue
    → length (contents k.sleep_queue) < 127
    → k.current_pid < max_processes
    → 0 < count q (contents k.sleep_queue)
    → q ≢ k.current_pid
    → (k.process_table q).time_remaining < time
    → let k' = sleep_process time k in
      IsSorted (λ p. (k'.process_table p).time_remaining) (contents k'.sleep_queue)
      × ((p : ℕ)
          → count p (contents k'.sleep_queue)
            ≡ count p (contents k.sleep_queue) + (if k.current_pid == p then 1 else 0))
      × (k'.process_table ≡ (fall_asleep time k).process_table)
unfolding sleep_process enqueue
sleep_process-IsSorted time q k v few in_table inside other less =
    let k₁ = fall_asleep time k in
    let queue = enqueue k.sleep_queue k.current_pid in
    let w = enqueue-IsInRange k.current_pid v in
    let appended : contents queue ≡ contents k.sleep_queue ++ (k.current_pid ∷ []) =
      contents-enqueue k.current_pid v few ∙ ground arith in
    let counted = λ (p : ℕ).
      ap (count p) appended ∙ count-append p (contents k.sleep_queue) (k.current_pid ∷ []) in
    let found : 0 < count q (contents queue) = omega (arith, counted q) in
    let unsorted : any_shorter max_processes queue.head k₁ k.current_pid ≡ true =
      any_shorter_complete max_processes (used queue) queue.head q k.current_pid k₁ w.head_in
        (omega arith) (omega (arith, w.head_in, w.tail_in)) (omega arith) found (ground arith) in
    let (sorted, counts, table) = sort_from-contents k₁ w in
    rw unsorted (rw table sorted, λ p. counts p ∙ counted p ∙ ground arith, table)

All-last : (P : ℕ → Type 0) (ps : List ℕ) (last : ℕ) → All P (ps ++ (last ∷ [])) → P last
All-last P [] last h = h.0
All-last P (p ∷ ps) last h = All-last P ps last h.1

-- In a sorted list that ends with `last`, no value is above that of `last`.
IsSorted-last :
    (f : ℕ → ℕ) (ps : List ℕ) (q last : ℕ)
    → IsSorted f (ps ++ (last ∷ []))
    → 0 < count q ps
    → f q ≤ f last
IsSorted-last f [] q last sorted some = absurd (omega arith)
IsSorted-last f (p ∷ ps) q last sorted some = elim (Bool-cases (p == q)) [
  | inl here ↦ rw (eq_of_== p q here) at (All-last (λ r. f p ≤ f r) ps last sorted.0)
  | inr there ↦ IsSorted-last f ps q last sorted.1 (ground arith)
]

-- With fewer than 127 entries in the sleep queue, all of other processes: if every one has at least as
-- much time left as the current process asks for, and one of them more, the queue is not in the order
-- of the time left after `sleep_process`.
pub sleep_process-unsorted :
    (time q : ℕ) (k : Kernel)
    → IsInRange k.sleep_queue
    → length (contents k.sleep_queue) < 127
    → k.current_pid < max_processes
    → All
        (λ p. (p ≢ k.current_pid) × (time ≤ (k.process_table p).time_remaining))
        (contents k.sleep_queue)
    → 0 < count q (contents k.sleep_queue)
    → q ≢ k.current_pid
    → time < (k.process_table q).time_remaining
    → let k' = sleep_process time k in
      ¬ (IsSorted (λ p. (k'.process_table p).time_remaining) (contents k'.sleep_queue))
sleep_process-unsorted time q k v few in_table all inside other more sorted =
    let k₁ = fall_asleep time k in
    let (early, appended) = sleep_process-early time k v few in_table all in
    let f = λ (p : ℕ). (k₁.process_table p).time_remaining in
    let kept : IsSorted f (contents k.sleep_queue ++ (k.current_pid ∷ [])) = rw appended at (
      subst
        (λ (k' : Kernel).
          IsSorted (λ p. (k'.process_table p).time_remaining) (contents k'.sleep_queue))
        early sorted) in
    let low : f q ≤ f k.current_pid =
      IsSorted-last f (contents k.sleep_queue) q k.current_pid kept inside in
    ground (arith, low)
