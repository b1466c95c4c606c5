-- ===== src/Process/Sleep.antt =====
-- process.c: `sleep_process`, which puts the current process into the sleep queue. Nothing calls it.
pub mod Order
pub mod Sort
pub mod Correct
use frog_os.Prelude.{
  ℕ, zero, suc, ◌+◌, ◌%◌, ◌≤◌, ◌<◌, ◌≡◌, ◌≢◌, refl, ◌∙◌, List, [], ◌∷◌, ◌++◌, Bool, true, false,
  update, ltb, ◌==◌, if◌then◌else◌, length, All, arith, subst, sym,
}
use frog_os.Queue.{max_processes, enqueue}
use frog_os.Queue.Contents.{IsInRange, window, contents, used, contents-enqueue, enqueue-IsInRange}
use frog_os.Process.{Kernel, current, set_process, sleeping}

-- `process_table[sleep_queue[i]].time_remaining`
abbrev pub time_at : Kernel → ℕ → ℕ
time_at k i = (k.process_table (k.sleep_queue.slots i)).time_remaining

-- The first loop, from index `i` on: has a process in the queue less time left than `pid`? The queue
-- has fewer than `fuel` entries.
pub any_shorter : (fuel i : ℕ) → Kernel → (pid : ℕ) → Bool
any_shorter zero i k pid = false
any_shorter (suc fuel) i k pid =
    let rest = any_shorter fuel ((i + 1) % max_processes) k pid in
    if i == k.sleep_queue.tail
    then false
    else if ltb (time_at k i) (k.process_table pid).time_remaining
    then true
    else rest

-- The body of the loops that sort: swap two entries that are in the wrong order.
abbrev pub order_pair : (i j : ℕ) → Kernel → Kernel
order_pair i j k =
    let q = k.sleep_queue in
    if ltb (time_at k j) (time_at k i)
    then record k {
      sleep_queue = record q { slots = update (update q.slots i (q.slots j)) j (q.slots i) };
    }
    else k

-- The inner loop, from index `j` on.
pub sort_behind : (fuel i j : ℕ) → Kernel → Kernel
sort_behind zero i j k = k
sort_behind (suc fuel) i j k =
    let rest = sort_behind fuel i ((j + 1) % max_processes) (order_pair i j k) in
    if j == k.sleep_queue.tail then k else rest

-- The outer loop, from index `i` on.
pub sort_from : (fuel i : ℕ) → Kernel → Kernel
sort_from zero i k = k
sort_from (suc fuel) i k =
    let rest = sort_from fuel ((i + 1) % max_processes) (sort_behind max_processes i i k) in
    if i == k.sleep_queue.tail then k else rest

-- The part before the loops.
abbrev pub fall_asleep : (time : ℕ) → Kernel → Kernel
fall_asleep time k =
    let k' =
      set_process k k.current_pid
        (record (current k) { time_remaining = time; state = sleeping }) in
    record k' { sleep_queue = enqueue k.sleep_queue k.current_pid }

-- `time` is a uint32_t. An array of 128 entries takes fewer rounds than the fuel.
pub sleep_process : (time : ℕ) → Kernel → Kernel
sleep_process time k =
    let k' = fall_asleep time k in
    if any_shorter max_processes k'.sleep_queue.head k' k.current_pid
    then sort_from max_processes k'.sleep_queue.head k'
    else k'

-- If no entry has less time left, the first loop says that the queue is sorted.
any_shorter-window :
    (fuel n i : ℕ) (k : Kernel) (pid : ℕ)
    → i < max_processes
    → n < max_processes
    → k.sleep_queue.tail ≡ (i + n) % max_processes
    → All
        (λ p. (k.process_table pid).time_remaining ≤ (k.process_table p).time_remaining)
        (window k.sleep_queue.slots i n)
    → any_shorter fuel i k pid ≡ false
unfolding any_shorter window
any_shorter-window zero n i k pid lo few e h = refl
any_shorter-window (suc fuel) zero i k pid lo few e h = ground arith
any_shorter-window (suc fuel) (suc n) i k pid lo few e h =
    let rest =
      any_shorter-window fuel n ((i + 1) % max_processes) k pid (omega arith) (omega arith)
        (omega arith) h.1 in
    ground (arith, rest, h.0)

All-append : (P : ℕ → Type 0) (xs ys : List ℕ) → All P xs → All P ys → All P (xs ++ ys)
All-append P [] ys h g = g
All-append P (x ∷ xs) ys h g = (h.0, All-append P xs ys h.1 g)

-- Other entries than the current process keep their time.
fall_asleep-All :
    (time : ℕ) (k : Kernel) (ps : List ℕ)
    → All (λ p. (p ≢ k.current_pid) × (time ≤ (k.process_table p).time_remaining)) ps
    → All
        (λ p.
          ((fall_asleep time k).process_table k.current_pid).time_remaining
          ≤ ((fall_asleep time k).process_table p).time_remaining)
        ps
fall_asleep-All time k [] h = tt
fall_asleep-All time k (p ∷ ps) h = (ground (arith, h.0), fall_asleep-All time k ps h.1)

-- When no process in the queue has less time left than the new one asks for, the code takes the queue
-- for sorted: the new process stays at its end.
pub sleep_process-early :
    (time : ℕ) (k : Kernel)
    → IsInRange k.sleep_queue
    → length (contents k.sleep_queue) < 127
    → k.current_pid < max_processes
    → All
        (λ p. (p ≢ k.current_pid) × (time ≤ (k.process_table p).time_remaining))
        (contents k.sleep_queue)
    → (sleep_process time k ≡ fall_asleep time k)
      × (contents (fall_asleep time k).sleep_queue ≡ contents k.sleep_queue ++ (k.current_pid ∷ []))
unfolding sleep_process enqueue
sleep_process-early time k v few in_table h =
    let k' = fall_asleep time k in
    let q = enqueue k.sleep_queue k.current_pid in
    let e : contents q ≡ contents k.sleep_queue ++ (k.current_pid ∷ []) =
      contents-enqueue k.current_pid v few ∙ ground arith in
    let all =
      subst
        (All (λ p.
          (k'.process_table k.current_pid).time_remaining ≤ (k'.process_table p).time_remaining))
        (sym e)
        (All-append _ (contents k.sleep_queue) (k.current_pid ∷ [])
          (fall_asleep-All time k (contents k.sleep_queue) h) (ground arith, tt)) in
    let w = enqueue-IsInRange k.current_pid v in
    let sorted =
      any_shorter-window max_processes (used q) q.head k' k.current_pid w.head_in (omega arith)
        (omega (arith, w.head_in, w.tail_in)) all in
    (rw sorted refl, e)
