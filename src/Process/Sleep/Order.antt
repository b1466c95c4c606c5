-- ===== src/Process/Sleep/Order.antt =====
-- process.c: the sort of `sleep_process` keeps the entries of the sleep queue.
use frog_os.Prelude.{
  ℕ, zero, suc, ◌+◌, ◌%◌, ◌<◌, ◌≡◌, ◌≢◌, refl, ap, ◌∙◌, ◌∷◌, update, update_ne, ltb, ◌==◌,
  if◌then◌else◌, count, arith, ap₂,
}
use frog_os.Queue.{max_processes}
use frog_os.Queue.Contents.{window}
use frog_os.Process.{Kernel}
use frog_os.Process.Sleep.{time_at, order_pair}

-- 1 if the numbers are the same.
abbrev same : ℕ → ℕ → ℕ
same x p = if x == p then 1 else 0

-- A write outside a window does not show in it.
window-update_outside :
    (slots : ℕ → ℕ) (h n i x : ℕ)
    → ((c : ℕ) → c < n → i ≢ (h + c) % max_processes)
    → h < max_processes
    → window (update slots i x) h n ≡ window slots h n
unfolding window
window-update_outside slots h zero i x out lt = refl
window-update_outside slots h (suc n) i x out lt =
    ap₂ ◌∷◌ (update_ne slots i x h (λ e. out 0 (omega arith) (omega arith))) (
      window-update_outside slots ((h + 1) % max_processes) n i x
        (λ c lo e. out (c + 1) (omega arith) (omega arith)) (omega arith))

-- A write trades the old entry for the new one.
count-update :
    (slots : ℕ → ℕ) (h n i a x p : ℕ)
    → h < max_processes
    → n < max_processes
    → a < n
    → i ≡ (h + a) % max_processes
    → count p (window (update slots i x) h n) + same (slots i) p
      ≡ count p (window slots h n) + same x p
unfolding window
count-update slots h zero i a x p lt few inside e = absurd (omega arith)
count-update slots h (suc n) i zero x p lt few inside e =
    let here : i ≡ h = omega arith in
    let rest =
      window-update_outside slots ((h + 1) % max_processes) n i x (λ c lo. omega arith)
        (omega arith) in
    ground (arith, ap (count p) rest, ap slots here)
count-update slots h (suc n) i (suc a) x p lt few inside e =
    let other : i ≢ h = omega arith in
    let rest =
      count-update slots ((h + 1) % max_processes) n i a x p (omega arith) (omega arith)
        (omega arith) (omega arith) in
    ground (arith, rest)

-- Swapping two entries of a window keeps how often each stands in it.
count-swap :
    (slots : ℕ → ℕ) (h n a b p : ℕ)
    → h < max_processes
    → n < max_processes
    → a < n
    → b < n
    → let i = (h + a) % max_processes in
      let j = (h + b) % max_processes in
      count p (window (update (update slots i (slots j)) j (slots i)) h n)
      ≡ count p (window slots h n)
count-swap slots h n a b p lt few ha hb =
    let i = (h + a) % max_processes in
    let j = (h + b) % max_processes in
    let first = update slots i (slots j) in
    let kept : first j ≡ slots j = ground arith in
    omega (
      arith,
      rw kept at (count-update first h n j b (slots i) p lt few hb refl),
      count-update slots h n i a (slots j) p lt few ha refl,
    )

-- What sorting leaves: head, tail and the process table, and how often each entry stands in the
-- queue, which has `n` entries from index `h` on.
pub record Keeps (h n : ℕ) (k k' : Kernel) : Type 0 where
  pub head_same : k'.sleep_queue.head ≡ k.sleep_queue.head
  pub tail_same : k'.sleep_queue.tail ≡ k.sleep_queue.tail
  pub table_same : k'.process_table ≡ k.process_table
  pub counts :
      (p : ℕ) → count p (window k'.sleep_queue.slots h n) ≡ count p (window k.sleep_queue.slots h n)

pub Keeps-refl : {h n : ℕ} (k : Kernel) → Keeps h n k k
Keeps-refl k = record { head_same = refl; tail_same = refl; table_same = refl; counts = λ p. refl }

pub Keeps-trans :
    {h n : ℕ} (k k' k'' : Kernel) → Keeps h n k k' → Keeps h n k' k'' → Keeps h n k k''
Keeps-trans k k' k'' f g = record {
  head_same = g.head_same ∙ f.head_same;
  tail_same = g.tail_same ∙ f.tail_same;
  table_same = g.table_same ∙ f.table_same;
  counts = λ p. g.counts p ∙ f.counts p;
}

module _ (h n : ℕ) (lt : h < max_processes) (few : n < max_processes) where
  pub order_pair-Keeps :
      (a b : ℕ) (k : Kernel)
      → a < n
      → b < n
      → Keeps h n k (order_pair ((h + a) % max_processes) ((h + b) % max_processes) k)
  order_pair-Keeps a b k ha hb = record {
    head_same = ground arith;
    tail_same = ground arith;
    table_same = ground arith;
    counts = λ p. ground (arith, count-swap k.sleep_queue.slots h n a b p lt few ha hb);
  }

  -- The time left of the entry at offset `c` from the head.
  abbrev pub time_of : Kernel → ℕ → ℕ
  time_of k c = time_at k ((h + c) % max_processes)

  pub time_of-order_pair :
      (a b c : ℕ) (k : Kernel)
      → a < n
      → b < n
      → c < n
      → time_of (order_pair ((h + a) % max_processes) ((h + b) % max_processes) k) c ≡ (
          if ltb (time_of k b) (time_of k a)
          then (if c == b then time_of k a else if c == a then time_of k b else time_of k c)
          else time_of k c)
  time_of-order_pair a b c k ha hb hc = ground arith
