-- ===== src/Process/Branches.antt =====
-- process.c: the branches of `schedule_process`, as a family to match on.
use frog_os.Prelude.{
  ◌≡◌, ◌≢◌, Bool, true, false, minus_one, ◌==◌, arith, eq_of_==, ne_of_==, sym, ◌∙◌, refl,
  if◌then◌else◌,
}
use frog_os.Context.{Context}
use frog_os.Queue.{is_empty}
use frog_os.Process.{
  Kernel, current, running, start_process, start_next, schedule_process, run_slice, count_tick,
}

pub data Scheduled (k : Kernel) (frame : Context) : Kernel × Context → Type 0 where
  boot : k.current_pid ≡ minus_one → Scheduled k frame (start_process (count_tick k) 0 frame)
  idle : k.current_pid ≡ 0 → is_empty k.run_queue ≡ true → Scheduled k frame (count_tick k, frame)
  wake :
      k.current_pid ≡ 0
      → is_empty k.run_queue ≡ false
      → Scheduled k frame (start_next (count_tick k) frame)
  slice :
      k.current_pid ≢ minus_one
      → k.current_pid ≢ 0
      → (current k).state ≡ running
      → Scheduled k frame (run_slice (count_tick k) frame)
  switch :
      k.current_pid ≢ minus_one
      → k.current_pid ≢ 0
      → (current k).state ≢ running
      → Scheduled k frame (start_next (count_tick k) frame)

state-count_tick : (k : Kernel) → (current (count_tick k)).state ≡ (current k).state
state-count_tick k = ground arith

-- The four tests of `schedule_process`, as variables.
pick :
    (k : Kernel) (frame : Context) (at_boot at_zero none runs : Bool)
    → (k.current_pid == minus_one) ≡ at_boot
    → (k.current_pid == 0) ≡ at_zero
    → is_empty k.run_queue ≡ none
    → ((current (count_tick k)).state == running) ≡ runs
    → Scheduled k frame (
        if at_boot
        then start_process (count_tick k) 0 frame
        else if at_zero
        then (if none then (count_tick k, frame) else start_next (count_tick k) frame)
        else if runs
        then run_slice (count_tick k) frame
        else start_next (count_tick k) frame)
pick k frame true z e r hb hz he hr = boot (eq_of_== _ _ hb)
pick k frame false true true r hb hz he hr = idle (eq_of_== _ _ hz) he
pick k frame false true false r hb hz he hr = wake (eq_of_== _ _ hz) he
pick k frame false false e true hb hz he hr =
    slice (ne_of_== _ _ hb) (ne_of_== _ _ hz) (sym (state-count_tick k) ∙ eq_of_== _ _ hr)
pick k frame false false e false hb hz he hr =
    switch (ne_of_== _ _ hb) (ne_of_== _ _ hz) (λ same. ne_of_== _ _ hr (state-count_tick k ∙ same))

pub schedule_process-Scheduled :
    (k : Kernel) (frame : Context) → Scheduled k frame (schedule_process k frame)
unfolding schedule_process
schedule_process-Scheduled k frame = pick k frame _ _ _ _ refl refl refl refl
