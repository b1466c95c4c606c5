-- ===== src/Division/Tests.antt =====
-- Tests of `__udivmoddi4`.
use frog_os.Prelude.{
  ℕ, ◌+◌, ◌-◌, ◌*◌, ◌^◌, ◌<◌, ◌≡◌, refl, some, none, true, false, if◌then◌else◌, arith,
}
use frog_os.Division.{done, divide_error, udivmoddi4, justify, reduce, finish}
use frog_os.Division.Correct.{udivmoddi4_lem}

udivmoddi4_runs : udivmoddi4 (2 ^ 64 - 1) 10 true ≡ done 1844674407370955161 (some 5)
unfolding udivmoddi4 justify reduce finish
udivmoddi4_runs = refl

udivmoddi4_zero : udivmoddi4 7 0 true ≡ divide_error
unfolding udivmoddi4
udivmoddi4_zero = refl

udivmoddi4_lem_example :
    (q : ℕ) × (r : ℕ) × (udivmoddi4 1000 7 false ≡ done q (if false then some r else none))
    × (q * 7 + r ≡ 1000)
    × (r < 7)
udivmoddi4_lem_example = udivmoddi4_lem 1000 7 false (omega arith) (omega arith) (omega arith)
