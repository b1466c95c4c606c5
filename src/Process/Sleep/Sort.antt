-- ===== src/Process/Sleep/Sort.antt =====
-- process.c: the loops of `sleep_process` that sort the sleep queue end, and sort it.
use frog_os.Prelude.{
  ℕ, zero, suc, ◌+◌, ◌%◌, ◌≤◌, ◌<◌, ◌≡◌, ◌∙◌, List, [], ◌∷◌, ◌==◌, All, arith, Bool-cases, inl, inr,
  eq_of_==, ne_of_==,
}
use frog_os.Queue.{max_processes}
use frog_os.Queue.Contents.{window}
use frog_os.Process.{Kernel}
use frog_os.Process.Sleep.{order_pair, sort_behind, sort_from}
use frog_os.Process.Sleep.Order.{
  Keeps, Keeps-refl, Keeps-trans, order_pair-Keeps, time_of, time_of-order_pair,
}

module _ (h n : ℕ) (lt : h < max_processes) (few : n < max_processes) where
  -- The entries before offset `a` are in order, and none behind them has less time left.
  abbrev pub SortedBelow : ℕ → Kernel → Type 0
  SortedBelow a k =
      (c d : ℕ) → c < a → c < d → d < n → time_of h n lt few k c ≤ time_of h n lt few k d

  -- The entry at offset `a` has the least time of those from there to before `b`.
  abbrev LeastTo : (a b : ℕ) → Kernel → Type 0
  LeastTo a b k = (d : ℕ) → a ≤ d → d < b → time_of h n lt few k a ≤ time_of h n lt few k d

  record Round (a b : ℕ) (k k' : Kernel) : Type 0 where
    keeps : Keeps h n k k'
    below : SortedBelow a k'
    least : LeastTo a b k'

  order_pair-Round :
      (a b : ℕ) (k : Kernel)
      → a ≤ b
      → b < n
      → SortedBelow a k
      → LeastTo a b k
      → Round a (suc b) k (order_pair ((h + a) % max_processes) ((h + b) % max_processes) k)
  order_pair-Round a b k le hb sorted least = record {
    keeps = order_pair-Keeps h n lt few a b k (omega arith) hb;
    below = λ c d hc hd hn. ground (
      arith,
      time_of-order_pair h n lt few a b c k (omega arith) hb (omega arith),
      time_of-order_pair h n lt few a b d k (omega arith) hb hn,
      sorted c d,
      sorted c a,
      sorted c b,
    );
    least = λ d lo hi. ground (
      arith,
      time_of-order_pair h n lt few a b a k (omega arith) hb (omega arith),
      time_of-order_pair h n lt few a b d k (omega arith) hb (omega arith),
      least d,
      least b,
    );
  }

  sort_behind-Round :
      (fuel a b i j : ℕ) (k : Kernel)
      → i ≡ (h + a) % max_processes
      → j ≡ (h + b) % max_processes
      → k.sleep_queue.tail ≡ (h + n) % max_processes
      → a ≤ b
      → b ≤ n
      → n < b + fuel
      → SortedBelow a k
      → LeastTo a b k
      → Round a n k (sort_behind fuel i j k)
  unfolding sort_behind
  sort_behind-Round zero a b i j k ei ej et le hb more sorted least = absurd (omega arith)
  sort_behind-Round (suc fuel) a b i j k ei ej et le hb more sorted least =
      elim (Bool-cases (j == k.sleep_queue.tail)) [
        | inl at_end ↦
            let done : b ≡ n = ground arith in
            rw at_end (record { keeps = Keeps-refl k; below = sorted; least = rw done at least })
        | inr on ↦
            let inside : b < n = ground arith in
            let k' = order_pair i j k in
            let step : Round a (suc b) k k' =
              rw (ei, ej) (order_pair-Round a b k le inside sorted least) in
            let rest =
              sort_behind-Round fuel a (suc b) i ((j + 1) % max_processes) k' ei (omega arith)
                (step.keeps.tail_same ∙ et) (omega arith) inside (omega arith) step.below
                step.least in
            rw on (record {
              keeps =
                  Keeps-trans k k' (sort_behind fuel i ((j + 1) % max_processes) k') step.keeps
                    rest.keeps;
              below = rest.below;
              least = rest.least;
            })
      ]

  -- Behind offset `a` too, once no entry from there on has less time left.
  SortedBelow-suc : (a : ℕ) (k : Kernel) → SortedBelow a k → LeastTo a n k → SortedBelow (suc a) k
  SortedBelow-suc a k sorted least c d hc hd hn = elim (Bool-cases (c == a)) [
    | inl same ↦ let e = eq_of_== c a same in rw e (least d (omega arith) hn)
    | inr other ↦ let ne = ne_of_== c a other in sorted c d (omega arith) hd hn
  ]

  pub sort_from-SortedBelow :
      (fuel a i : ℕ) (k : Kernel)
      → i ≡ (h + a) % max_processes
      → k.sleep_queue.tail ≡ (h + n) % max_processes
      → a ≤ n
      → n < a + fuel
      → SortedBelow a k
      → Keeps h n k (sort_from fuel i k) × SortedBelow n (sort_from fuel i k)
  unfolding sort_from
  sort_from-SortedBelow zero a i k ei et le more sorted = absurd (omega arith)
  sort_from-SortedBelow (suc fuel) a i k ei et le more sorted =
      elim (Bool-cases (i == k.sleep_queue.tail)) [
        | inl at_end ↦
            let done : a ≡ n = ground arith in rw at_end (Keeps-refl k, rw done at sorted)
        | inr on ↦
            let inside : a < n = ground arith in
            let k' = sort_behind max_processes i i k in
            let round =
              sort_behind-Round max_processes a a i i k ei ei et (omega arith) le (omega arith)
                sorted (λ d lo hi. absurd (omega arith)) in
            let rest =
              sort_from-SortedBelow fuel (suc a) ((i + 1) % max_processes) k' (omega arith)
                (round.keeps.tail_same ∙ et) inside (omega arith)
                (SortedBelow-suc a k' round.below round.least) in
            rw on (
              Keeps-trans k k' (sort_from fuel ((i + 1) % max_processes) k') round.keeps rest.0,
              rest.1,
            )
      ]

-- In the order of the time left.
abbrev pub IsSorted : (ℕ → ℕ) → List ℕ → Type 0
IsSorted f [] = Unit {0}
IsSorted f (p ∷ ps) = All (λ q. f p ≤ f q) ps × IsSorted f ps

All-window :
    (f slots : ℕ → ℕ) (h n bound : ℕ)
    → h < max_processes
    → ((c : ℕ) → c < n → bound ≤ f (slots ((h + c) % max_processes)))
    → All (λ q. bound ≤ f q) (window slots h n)
unfolding window
All-window f slots h zero bound lt low = tt
All-window f slots h (suc n) bound lt low =
    let here : (h + 0) % max_processes ≡ h = omega arith in
    (
      rw here at (low 0 (omega arith)),
      All-window f slots ((h + 1) % max_processes) n bound (omega arith) (λ c hc.
          let e : (h + (c + 1)) % max_processes ≡ ((h + 1) % max_processes + c) % max_processes =
            omega arith in
          rw e at (low (c + 1) (omega arith))),
    )

pub window-IsSorted :
    (f slots : ℕ → ℕ) (h n : ℕ)
    → h < max_processes
    → ((c d : ℕ)
        → c < d
        → d < n
        → f (slots ((h + c) % max_processes)) ≤ f (slots ((h + d) % max_processes)))
    → IsSorted f (window slots h n)
unfolding window
window-IsSorted f slots h zero lt order = tt
window-IsSorted f slots h (suc n) lt order =
    let here : (h + 0) % max_processes ≡ h = omega arith in
    let shift : (c : ℕ)
        → (h + (c + 1)) % max_processes ≡ ((h + 1) % max_processes + c) % max_processes =
      λ c. omega arith in
    (
      All-window f slots ((h + 1) % max_processes) n (f (slots h)) (omega arith)
          (λ c hc. rw (here, shift c) at (order 0 (c + 1) (omega arith) (omega arith))),
      window-IsSorted f slots ((h + 1) % max_processes) n (omega arith) (λ c d hd hn.
          rw (shift c, shift d) at (order (c + 1) (d + 1) (omega arith) (omega arith))),
    )
