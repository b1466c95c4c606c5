-- ===== src/Init/Tests.antt =====
-- Tests of init.c.
use frog_os.Prelude.{◌^◌, ◌<◌, ◌≡◌, refl, [], ◌∷◌, All, arith}
use frog_os.Init.{first_seed, next_seed, seeds, requests}
use frog_os.Init.Seeds.{InRange, seeds-InRange}

requests_of_first : requests (seeds 3 (first_seed 1)) ≡ 1137 ∷ 1302 ∷ 8855 ∷ []
unfolding next_seed
requests_of_first = refl

seeds-InRange_example :
    (first_seed 4 < 2 ^ 31) × InRange (first_seed 4) × All InRange (seeds 100 (first_seed 4))
seeds-InRange_example = seeds-InRange 100 4 (omega arith)
