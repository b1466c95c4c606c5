-- ===== src/Process/Fair.antt =====
-- process.c: every process that waits for the CPU gets it, and when.
use frog_os.Prelude.{
  ℕ, zero, suc, ◌+◌, ◌*◌, ◌≤◌, ◌<◌, ◌≡◌, ◌≢◌, refl, sym, ap, ◌∙◌, subst, List, [], ◌∷◌, ◌++◌, true,
  some, minus_one, length, get_elem?, arith,
}
use frog_os.Context.{Context}
use frog_os.Process.{Kernel, schedule_process}
use frog_os.Process.RoundRobin.{RoundRobin, dispatch, rotate, tick}
use frog_os.Process.Valid.{view, view_ring, on_cpu, IsValid}
use frog_os.Process.Refine.{schedule_process-view}
use frog_os.Process.Preserve.{
  schedule_process-IsValid, schedule_process-started, length-schedule_process,
}

-- `n` ticks of the abstract scheduler.
ticks : ℕ → RoundRobin → RoundRobin
ticks zero r = r
ticks (suc n) r = ticks n (tick r)

ticks-add : (m n : ℕ) (r : RoundRobin) → ticks (m + n) r ≡ ticks n (ticks m r)
unfolding ticks
ticks-add zero n r = let e : 0 + n ≡ n = omega arith in ap (λ k. ticks k r) e
ticks-add (suc m) n r =
    let e : suc m + n ≡ suc (m + n) = omega arith in ap (λ k. ticks k r) e ∙ ticks-add m n (tick r)

tick-spend :
    (s : ℕ) (ring : List ℕ)
    → tick (record { ring = ring; slice = suc (suc s) }) ≡ record { ring = ring; slice = suc s }
unfolding tick
tick-spend s ring = ground arith

-- A whole slice of `s + 1` ticks moves the first process to the end of the ring.
ticks-slice :
    (s : ℕ) (ring : List ℕ)
    → ticks (suc s) (record { ring = ring; slice = suc s }) ≡ dispatch (rotate ring)
unfolding ticks tick
ticks-slice zero ring = refl
ticks-slice (suc s) ring = ap (ticks (suc s)) (tick-spend s ring) ∙ ticks-slice s ring

-- The number of ticks after which the process at index `i` of the ring is on the CPU.
abbrev pub wait : ℕ → ℕ → ℕ
wait zero zero = 1
wait zero (suc s) = 0
wait (suc i) zero = 101 + 100 * i
wait (suc i) (suc s) = suc s + 100 * i

pub wait-le : (i s : ℕ) → s ≤ 100 → wait i s ≤ 100 * i + 1
wait-le zero zero h = omega arith
wait-le zero (suc s) h = omega arith
wait-le (suc i) zero h = omega arith
wait-le (suc i) (suc s) h = omega arith

-- The first process of the ring is `p`, and it is on the CPU.
abbrev IsRunning : ℕ → RoundRobin → Type 0
IsRunning p r = (get_elem? r.ring 0 ≡ some p) × (0 < r.slice)

get_elem?-append :
    (xs : List ℕ) (i p y : ℕ) → get_elem? xs i ≡ some p → get_elem? (xs ++ (y ∷ [])) i ≡ some p
get_elem?-append [] i p y h = cc
get_elem?-append (x ∷ xs) zero p y h = h
get_elem?-append (x ∷ xs) (suc i) p y h = get_elem?-append xs i p y h

-- With the first process just started, the one at index `i` runs after `i` whole slices.
ticks-IsRunning_fresh :
    (i p : ℕ) (ring : List ℕ)
    → get_elem? ring i ≡ some p
    → IsRunning p (ticks (100 * i) (dispatch ring))
unfolding ticks
ticks-IsRunning_fresh zero p [] h = cc
ticks-IsRunning_fresh zero p (x ∷ ring) h = (h, omega arith)
ticks-IsRunning_fresh (suc i) p [] h = cc
ticks-IsRunning_fresh (suc i) p (x ∷ ring) h =
    let e : 100 * suc i ≡ 100 + 100 * i = omega arith in
    rw (e, ticks-add, ticks-slice 99 (x ∷ ring))
      (ticks-IsRunning_fresh i p (ring ++ (x ∷ [])) (get_elem?-append ring i p x h))

-- From any point of a slice.
ticks-IsRunning :
    (i p s : ℕ) (ring : List ℕ)
    → get_elem? ring i ≡ some p
    → IsRunning p (ticks (wait i s) (record { ring = ring; slice = s }))
unfolding ticks tick
ticks-IsRunning zero p zero ring h = ticks-IsRunning_fresh 0 p ring h
ticks-IsRunning zero p (suc s) ring h = (h, omega arith)
ticks-IsRunning (suc i) p zero ring h =
    let e : 101 + 100 * i ≡ suc (100 * suc i) = omega arith in
    rw e (ticks-IsRunning_fresh (suc i) p ring h)
ticks-IsRunning (suc i) p (suc s) [] h = cc
ticks-IsRunning (suc i) p (suc s) (x ∷ ring) h =
    rw (ticks-add, ticks-slice s (x ∷ ring))
      (ticks-IsRunning_fresh i p (ring ++ (x ∷ [])) (get_elem?-append ring i p x h))

-- The kernel after one timer tick for each interrupt frame of the list.
unfoldable pub timer_ticks : Kernel → List Context → Kernel
timer_ticks k [] = k
timer_ticks k (frame ∷ frames) = timer_ticks (schedule_process k frame).0 frames

timer_ticks-view :
    {n : ℕ} (k : Kernel) (frames : List Context)
    → IsValid n k
    → k.current_pid ≢ minus_one
    → view (timer_ticks k frames) ≡ ticks (length frames) (view k)
unfolding timer_ticks ticks
timer_ticks-view k [] v started = refl
timer_ticks-view k (frame ∷ frames) v started =
    timer_ticks-view (schedule_process k frame).0 frames (schedule_process-IsValid frame v)
      (schedule_process-started frame v)
    ∙ ap (ticks (length frames)) (schedule_process-view frame v started)

IsRunning-current :
    (p : ℕ) (k : Kernel) → IsRunning p (view k) → (k.current_pid ≡ p) × (on_cpu k ≡ true)
IsRunning-current p k h = ground arith

-- Bounded waiting, once a process is current: the one at index `i` of the ring is on the CPU after exactly
-- `wait i slice` timer ticks, whatever frames they interrupt, where `slice` is what is left of the
-- slice of the process on the CPU, or 0. If it is at the front it needs 1 tick at most, and else at
-- most 100 for each process before it, and 1 more.
pub timer_ticks-fair :
    {n : ℕ} {k : Kernel} (i p : ℕ) (frames : List Context)
    → IsValid n k
    → k.current_pid ≢ minus_one
    → get_elem? (view_ring k) i ≡ some p
    → length frames ≡ wait i (view k).slice
    → ((timer_ticks k frames).current_pid ≡ p)
      × (on_cpu (timer_ticks k frames) ≡ true)
      × (length frames ≤ 100 * i + 1)
timer_ticks-fair {k} i p frames v started h e =
    let after = timer_ticks-view k frames v started ∙ ap (λ t. ticks t (view k)) e in
    let runs : IsRunning p (view (timer_ticks k frames)) =
      subst (IsRunning p) (sym after) (ticks-IsRunning i p (view k).slice (view_ring k) h) in
    let now = IsRunning-current p (timer_ticks k frames) runs in
    (now.0, now.1, rw e (wait-le i (view k).slice (ground (arith, v.slice_left))))

-- Timer ticks keep the scheduler's invariant, and the length of the ring.
pub timer_ticks-IsValid :
    {n : ℕ} (k : Kernel) (frames : List Context) → IsValid n k → IsValid n (timer_ticks k frames)
unfolding timer_ticks
timer_ticks-IsValid k [] v = v
timer_ticks-IsValid k (frame ∷ frames) v =
    timer_ticks-IsValid (schedule_process k frame).0 frames (schedule_process-IsValid frame v)

pub length-timer_ticks :
    {n : ℕ} (k : Kernel) (frames : List Context)
    → IsValid n k
    → length (view_ring (timer_ticks k frames)) ≡ length (view_ring k)
unfolding timer_ticks
length-timer_ticks k [] v = refl
length-timer_ticks k (frame ∷ frames) v =
    length-timer_ticks (schedule_process k frame).0 frames (schedule_process-IsValid frame v)
    ∙ length-schedule_process frame v
