-- ===== src/Process/Turns.antt =====
-- The abstract scheduler of process.c: what a tick does to the ring and to the slice.
use frog_os.Prelude.{
  ℕ, ◌≤◌, ◌<◌, ◌≡◌, ◌⊎◌, inl, inr, refl, List, [], ◌∷◌, count, length, arith, count-append,
  length-append,
}
use frog_os.Process.RoundRobin.{RoundRobin, dispatch, rotate, tick}

pub count-rotate : (p : ℕ) (ps : List ℕ) → count p (rotate ps) ≡ count p ps
count-rotate p [] = refl
count-rotate p (q ∷ ps) = omega (arith, count-append p ps (q ∷ []))

pub length-rotate : (ps : List ℕ) → length (rotate ps) ≡ length ps
length-rotate [] = refl
length-rotate (q ∷ ps) = omega (arith, length-append ps (q ∷ []))

pub ring-dispatch : (ps : List ℕ) → (dispatch ps).ring ≡ ps
ring-dispatch [] = refl
ring-dispatch (p ∷ ps) = refl

pub slice-dispatch :
    (ps : List ℕ)
    → ((dispatch ps).slice ≤ 100) × ((0 < (dispatch ps).slice) ⊎ ((dispatch ps).ring ≡ []))
slice-dispatch [] = (omega arith, inr refl)
slice-dispatch (p ∷ ps) = (omega arith, inl (omega arith))

pub ring-tick : (r : RoundRobin) → ((tick r).ring ≡ r.ring) ⊎ ((tick r).ring ≡ rotate r.ring)
unfolding tick
ring-tick r = ground (arith, ring-dispatch r.ring, ring-dispatch (rotate r.ring))

pub slice-tick :
    (r : RoundRobin)
    → r.slice ≤ 100
    → ((tick r).slice ≤ 100) × ((0 < (tick r).slice) ⊎ ((tick r).ring ≡ []))
unfolding tick
slice-tick r h = ground (arith, slice-dispatch r.ring, slice-dispatch (rotate r.ring))
