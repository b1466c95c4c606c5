-- ===== src/Division/Correct.antt =====
-- lib/gcc.c: both loops of `__udivmoddi4` end, and it computes quotient and remainder.
use native.Mathlib.Nat.{pow-suc, pow-le-pow_right}
use frog_os.Prelude.{
  ℕ, zero, suc, ◌+◌, ◌-◌, ◌*◌, ◌/◌, ◌^◌, ◌≤◌, ◌<◌, ◌≡◌, inl, inr, refl, ap, Option, none, some,
  Bool, false, u64, sub64, ltb, leb, ◌==◌, if◌then◌else◌, arith, Bool-cases, ==_of_ne,
}
use frog_os.Division.{done, justify, reduce, finish, udivmoddi4}

-- What the first loop returns: the divisor shifted left by `k`, with the top bit set, and 2^k.
record Justified (d : ℕ) (out : Option (ℕ × ℕ)) : Type 0 where
  k : ℕ
  den : ℕ
  result : out ≡ some (den, 2 ^ k)
  shifted : den ≡ d * 2 ^ k
  low : 2 ^ 63 ≤ den
  high : den < 2 ^ 64

le-mul_left : (d p : ℕ) → 0 < d → p ≤ d * p
le-mul_left d p pos = grind arith

justify_stop :
    (f d k den : ℕ)
    → den ≡ d * 2 ^ k
    → den < 2 ^ 64
    → ltb den (2 ^ 63) ≡ false
    → Justified d (justify (suc f) den (2 ^ k))
unfolding justify
justify_stop f d k den e high top =
    rw top record { k = k; den = den; result = refl; shifted = e; low = ground arith; high = high }

justify-Justified :
    (f d k den : ℕ)
    → 0 < d
    → den ≡ d * 2 ^ k
    → den < 2 ^ 64
    → 2 ^ 63 ≤ den * 2 ^ f
    → Justified d (justify (suc f) den (2 ^ k))
unfolding justify
justify-Justified zero d k den pos e high enough = justify_stop zero d k den e high (ground arith)
justify-Justified (suc f) d k den pos e high enough = elim (Bool-cases (ltb den (2 ^ 63))) [
  | inl low ↦
      let below : den < 2 ^ 63 = ground arith in
      let no_wrap : u64 (den * 2) ≡ den * 2 = omega arith in
      let bit_fits : 2 ^ k ≤ den = rw e (le-mul_left d (2 ^ k) pos) in
      let bit : u64 (2 ^ k * 2) ≡ 2 ^ suc k = omega (arith, pow-suc 2 k) in
      rw (low, no_wrap, bit)
        (justify-Justified f d (suc k) (den * 2) pos (omega (arith, ap (λ t. d * t) (pow-suc 2 k)))
          (omega arith) (omega (arith, ap (λ t. den * t) (pow-suc 2 f))))
  | inr top ↦ justify_stop (suc f) d k den e high top
]

-- What the second loop has to reach: a quotient and a remainder of `n` by `d`.
record Reduced (n d : ℕ) (out : Option (ℕ × ℕ)) : Type 0 where
  quot : ℕ
  num : ℕ
  result : out ≡ some (quot, num)
  product : quot * d + num ≡ n
  small : num < d

two_pow_pos : (k : ℕ) → 0 < 2 ^ k
two_pow_pos zero = omega arith
two_pow_pos (suc k) = omega (arith, pow-suc 2 k, two_pow_pos k)

-- One round of the second loop: what it subtracts it adds to the quotient.
record Round (n d num den quot qbit : ℕ) : Type 0 where
  num' : ℕ
  quot' : ℕ
  num_eq : (if leb den num then sub64 num den else num) ≡ num'
  quot_eq : (if leb den num then u64 (quot + qbit) else quot) ≡ quot'
  product : quot' * d + num' ≡ n
  below : num' < den

round :
    (n d num den quot qbit : ℕ)
    → n < 2 ^ 64
    → 0 < d
    → den ≡ d * qbit
    → num < 2 * den
    → quot * d + num ≡ n
    → Round n d num den quot qbit
round n d num den quot qbit big pos e small prod = elim (Bool-cases (leb den num)) [
  | inl fits ↦
      let le : den ≤ num = ground arith in
      let after : (quot + qbit) * d + (num - den) ≡ n = omega (arith, e) in
      record {
        num' = num - den;
        quot' = quot + qbit;
        num_eq = ground arith;
        quot_eq = rw fits (omega (arith, le-mul_left d (quot + qbit) pos, after));
        product = after;
        below = ground arith;
      }
  | inr less ↦ record {
    num' = num;
    quot' = quot;
    num_eq = rw less;
    quot_eq = rw less;
    product = prod;
    below = ground arith;
  }
]

reduce-Reduced :
    (f k n d num den quot : ℕ)
    → n < 2 ^ 64
    → 0 < d
    → den ≡ d * 2 ^ k
    → num < 2 * den
    → quot * d + num ≡ n
    → k < f
    → Reduced n d (reduce (suc f) num den quot (2 ^ k))
unfolding reduce
reduce-Reduced zero k n d num den quot big pos e small prod fuel = absurd (omega arith)
reduce-Reduced (suc f) zero n d num den quot big pos e small prod fuel =
    let r = round n d num den quot 1 big pos e small prod in
    rw (r.num_eq, r.quot_eq)
      record {
        quot = r.quot';
        num = r.num';
        result = refl;
        product = r.product;
        small = omega (arith, r.below, e);
      }
reduce-Reduced (suc f) (suc k) n d num den quot big pos e small prod fuel =
    let r = round n d num den quot (2 ^ suc k) big pos e small prod in
    let nonzero : (2 ^ suc k == 0) ≡ false = ==_of_ne _ _ (omega (arith, two_pow_pos (suc k))) in
    let half : 2 ^ suc k / 2 ≡ 2 ^ k = omega (arith, pow-suc 2 k) in
    let shifted : den / 2 ≡ d * 2 ^ k = omega (arith, ap (λ t. d * t) (pow-suc 2 k)) in
    rw (nonzero, r.num_eq, r.quot_eq, half)
      (reduce-Reduced f k n d r.num' (den / 2) r.quot' big pos shifted
        (omega (arith, r.below, shifted, ap (λ t. d * t) (pow-suc 2 k))) r.product (omega arith))

below_64 : (k : ℕ) → 2 ^ k < 2 ^ 64 → k < 64
below_64 k h = elim (Bool-cases (ltb k 64)) [
  | inl lt ↦ ground arith
  | inr ge ↦
      let le : 64 ≤ k = ground arith in
      let two : 0 < 2 = omega arith in absurd (omega (arith, pow-le-pow_right two le))
]

-- For a divisor other than 0, both loops end within the rounds that the model gives them, and the
-- quotient, with the remainder if it is asked for, are those of the division.
pub udivmoddi4_lem :
    (num den : ℕ) (rem_p : Bool)
    → num < 2 ^ 64
    → den < 2 ^ 64
    → 0 < den
    → (q : ℕ) × (r : ℕ) × (udivmoddi4 num den rem_p ≡ done q (if rem_p then some r else none))
      × (q * den + r ≡ num)
      × (r < den)
unfolding udivmoddi4 finish
udivmoddi4_lem num den rem_p hn hd pos =
    let nonzero : (den == 0) ≡ false = ==_of_ne _ _ (omega arith) in
    let j = justify-Justified 63 den 0 den pos (omega arith) hd (omega arith) in
    let r =
      reduce-Reduced 64 j.k num den num j.den 0 hn pos j.shifted (omega (arith, j.low))
        (omega arith)
        (below_64 j.k (omega (arith, j.high, j.shifted, le-mul_left den (2 ^ j.k) pos))) in
    (r.quot, r.num, rw (nonzero, j.result, r.result) refl, r.product, r.small)
