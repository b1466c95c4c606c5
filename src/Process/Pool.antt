-- ===== src/Process/Pool.antt =====
-- process.c: the processes that want the CPU, whatever their order: a specification that forgets whose
-- turn it is.
use mathlib.Core.Quot
use mathlib.Core.Quot.{Quot, Quot-set}
use frog_os.Prelude.{ℕ, zero, suc, ◌+◌, ◌≡◌, ◌⊎◌, inl, inr, refl, ap₂, ◌∙◌, List, ◌∷◌, count, arith}
use frog_os.Process.{Kernel}
use frog_os.Process.Valid.{view_ring}
use frog_os.Process.Reach.{Step, Later, here, after, Ready, Step-Ready, count-Step, Step-number}

-- The same pids, each as often.
abbrev pub SamePids : List ℕ → List ℕ → Type 0
SamePids ring ring' = (pid : ℕ) → count pid ring ≡ count pid ring'

abbrev pub Pool : Type 0
Pool = Quot SamePids

pub admit : ℕ → Pool → Pool
admit pid =
    Quot.lift Quot-set (λ ring. Quot.mk (pid ∷ ring))
      (λ ring ring' h. Quot.sound (λ p. omega (arith, h p)))

-- A kernel's pool.
abbrev pub view_pool : Kernel → Pool
view_pool k = Quot.mk (view_ring k)

-- The pool with the pids from `n` on, `created` of them.
pub admit_all : (created n : ℕ) → Pool → Pool
admit_all zero n pool = pool
admit_all (suc created) n pool = admit (n + created) (admit_all created n pool)

pool-Step :
    {n m : ℕ} {k k' : Kernel}
    → Step n k m k'
    → Ready n k
    → ((m ≡ n) × (view_pool k' ≡ view_pool k))
      ⊎ ((m ≡ n + 1) × (view_pool k' ≡ admit n (view_pool k)))
unfolding admit
pool-Step {n} s r = elim (Step-number s) [
  | inl e ↦ inl (e, Quot.sound (λ p. ground (arith, count-Step p s r, e)))
  | inr e ↦ inr (e, Quot.sound (λ p. ground (arith, count-Step p s r, e)))
]

-- What scheduling is allowed to do: after any timer ticks, creations, and running processes that give
-- up their slice with no interrupt within, in any order, the pool of a valid kernel that runs a process
-- is the one before with the created processes in it, once more each. Nothing else enters or leaves it.
pub Later-pool :
    {n : ℕ} {k : Kernel} {m : ℕ} {k' : Kernel}
    → Later n k m k'
    → Ready n k
    → (created : ℕ) × (m ≡ n + created)
      × (view_pool k' ≡ admit_all created n (view_pool k))
      × Ready m k'
unfolding admit_all
Later-pool {n} here r = (0, omega arith, refl, r)
Later-pool {n} (after l s) r =
    let (created, e, same, r') = Later-pool l r in
    elim (pool-Step s r') [
      | inl (e', same') ↦ (created, omega arith, same' ∙ same, Step-Ready s r')
      | inr (e', same') ↦ (suc created, omega arith, same' ∙ ap₂ admit e same, Step-Ready s r')
    ]
