-- ===== src/Queue/Contents.antt =====
-- The circular queues of process.c as lists of pids, oldest first.
use frog_os.Prelude.{
  ℕ, zero, suc, ◌+◌, ◌-◌, ◌%◌, ◌<◌, ◌≡◌, ◌≢◌, refl, ap, List, [], ◌∷◌, ◌++◌, u16, update, length,
  true, false, arith, update_ne, ap₂, ◌∙◌, sym,
}
use frog_os.Queue.{Queue, max_processes, is_empty, enqueue, advance}

-- Both indices lie in the array.
pub record IsInRange (q : Queue) : Type 0 where
  pub head_in : q.head < max_processes
  pub tail_in : q.tail < max_processes

-- How many pids stand between head and tail.
abbrev pub used : Queue → ℕ
used q = (q.tail + max_processes - q.head) % max_processes

-- The `n` slots from index `h` on, round the end of the array.
unfoldable pub window : (ℕ → ℕ) → ℕ → ℕ → List ℕ
window slots h zero = []
window slots h (suc n) = slots h ∷ window slots ((h + 1) % max_processes) n

abbrev pub contents : Queue → List ℕ
contents q = window q.slots q.head (used q)

length-window : (slots : ℕ → ℕ) (h n : ℕ) → length (window slots h n) ≡ n
unfolding window
length-window slots h zero = refl
length-window slots h (suc n) = ap suc (length-window slots ((h + 1) % max_processes) n)

pub length-contents : (q : Queue) → length (contents q) ≡ used q
length-contents q = length-window q.slots q.head (used q)

pub contents_of_empty : {q : Queue} → IsInRange q → is_empty q ≡ true → contents q ≡ []
unfolding window
contents_of_empty {q} v e = let z : used q ≡ 0 = ground arith in rw z refl

window_of_ne_zero :
    (slots : ℕ → ℕ) (h n : ℕ)
    → n ≢ 0
    → window slots h n ≡ slots h ∷ window slots ((h + 1) % max_processes) (n - 1)
unfolding window
window_of_ne_zero slots h zero p = absurd (p refl)
window_of_ne_zero slots h (suc n) p =
    ap (λ k. slots h ∷ window slots ((h + 1) % max_processes) k) (omega arith)

-- A write just past a window extends it.
window-update :
    (slots : ℕ → ℕ) (h n i x : ℕ)
    → h < max_processes
    → n < max_processes
    → i ≡ (h + n) % max_processes
    → window (update slots i x) h (suc n) ≡ window slots h n ++ (x ∷ [])
unfolding window
window-update slots h zero i x hh hn e = ground arith
window-update slots h (suc n) i x hh hn e =
    ap₂ ◌∷◌ (update_ne slots i x h (omega arith)) (
      window-update slots ((h + 1) % max_processes) n i x (omega arith) (omega arith) (omega arith))

pub enqueue-IsInRange : {q : Queue} (x : ℕ) → IsInRange q → IsInRange (enqueue q x)
unfolding enqueue
enqueue-IsInRange x v = omega arith

pub advance-IsInRange : {q : Queue} → IsInRange q → IsInRange (advance q)
unfolding advance
advance-IsInRange v = omega arith

pub used-enqueue :
    {q : Queue} (x : ℕ) → IsInRange q → used q < 127 → used (enqueue q x) ≡ suc (used q)
unfolding enqueue
used-enqueue x v h = omega arith

-- With fewer than 127 pids in the queue, `enqueue` appends the pid (converted to uint16_t).
pub contents-enqueue :
    {q : Queue} (x : ℕ)
    → IsInRange q
    → length (contents q) < 127
    → contents (enqueue q x) ≡ contents q ++ (u16 x ∷ [])
unfolding enqueue
contents-enqueue {q} x v h =
    let few : used q < 127 = omega (arith, length-contents q) in
    ap (window (update q.slots q.tail (u16 x)) q.head) (used-enqueue x v few)
    ∙ window-update q.slots q.head (used q) q.tail (u16 x) v.head_in (omega arith) (omega arith)

-- With 127 pids in it, one more makes the queue empty: every pid is lost.
pub contents-enqueue_full :
    {q : Queue} (x : ℕ) → IsInRange q → length (contents q) ≡ 127 → contents (enqueue q x) ≡ []
unfolding enqueue window
contents-enqueue_full {q} x v h =
    let full : used q ≡ 127 = sym (length-contents q) ∙ h in
    let z : used (enqueue q x) ≡ 0 = omega arith in
    ap (window (update q.slots q.tail (u16 x)) q.head) z

-- A queue that is not empty has the pid at `head` first, and `advance` removes it.
pub contents-advance :
    {q : Queue}
    → IsInRange q
    → is_empty q ≡ false
    → contents q ≡ q.slots q.head ∷ contents (advance q)
unfolding advance
contents-advance {q} v h =
    let ne : used q ≢ 0 = ground arith in
    window_of_ne_zero q.slots q.head (used q) ne
    ∙ ap₂ (λ k n. q.slots q.head ∷ window q.slots k n) (omega arith) (omega arith)
