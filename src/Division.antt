-- ===== src/Division.antt =====
-- lib/gcc.c: `__udivmoddi4`, division of 64-bit numbers by shifting and subtracting.
pub mod Correct
mod Tests
use frog_os.Prelude.{
  ℕ, zero, suc, ◌+◌, ◌-◌, ◌*◌, ◌/◌, ◌^◌, Option, none, some, Bool, u64, sub64, ltb, leb, ◌==◌,
  if◌then◌else◌,
}

-- `divide_error` is the trap of the intentional division by zero. `remainder` is what is stored
-- through `rem_p`, if that is not null. `no_fuel` is no outcome of the code: a loop met its bound.
pub data Division : Type 0 where
  divide_error : Division
  done : (quotient : ℕ) (remainder : Option ℕ) → Division
  no_fuel : Division

-- The first loop, which shifts `den` until its top bit is set: `den` and `qbit` at its end.
-- `(int64_t)den >= 0` says that the top bit is clear.
pub justify : (fuel den qbit : ℕ) → Option (ℕ × ℕ)
justify zero den qbit = none
justify (suc fuel) den qbit =
    let next = justify fuel (u64 (den * 2)) (u64 (qbit * 2)) in
    if ltb den (2 ^ 63) then next else some (den, qbit)

-- The second loop: `quot` and `num` at its end.
pub reduce : (fuel num den quot qbit : ℕ) → Option (ℕ × ℕ)
reduce zero num den quot qbit = none
reduce (suc fuel) num den quot qbit =
    let num' = if leb den num then sub64 num den else num in
    let quot' = if leb den num then u64 (quot + qbit) else quot in
    let next = reduce fuel num' (den / 2) quot' (qbit / 2) in
    if qbit == 0 then some (quot, num) else next

pub finish : (rem_p : Bool) → Option (ℕ × ℕ) → Division
finish rem_p none = no_fuel
finish rem_p (some (quot, num)) = done quot (if rem_p then some num else none)

-- 64 rounds are enough for the first loop, and 65 for the second.
pub udivmoddi4 : (num den : ℕ) (rem_p : Bool) → Division
udivmoddi4 num den rem_p = if den == 0 then divide_error else elim (justify 64 den 1) [
  | none ↦ no_fuel
  | some (den', qbit) ↦ finish rem_p (reduce 65 num den' 0 qbit)
]
