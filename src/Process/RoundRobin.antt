-- ===== src/Process/RoundRobin.antt =====
-- The abstract scheduler: a ring of pids that take turns of 100 ticks.
use frog_os.Prelude.{ℕ, ◌-◌, List, [], ◌∷◌, ◌++◌, ◌==◌, if◌then◌else◌}

-- The processes that want the CPU, in the order of their turns. With a slice above 0 the first one
-- is on the CPU and has that many ticks left; with slice 0 none is, and the first is next.
pub record RoundRobin : Type 0 where
  pub ring : List ℕ
  pub slice : ℕ

abbrev pub rotate : List ℕ → List ℕ
rotate [] = []
rotate (p ∷ ps) = ps ++ (p ∷ [])

-- Put the first process on the CPU.
abbrev pub dispatch : List ℕ → RoundRobin
dispatch [] = record { ring = []; slice = 0 }
dispatch (p ∷ ps) = record { ring = p ∷ ps; slice = 100 }

unfoldable pub tick : RoundRobin → RoundRobin
tick r =
    if r.slice == 0
    then dispatch r.ring
    else if r.slice == 1
    then dispatch (rotate r.ring)
    else record r { slice = r.slice - 1 }
