-- ===== src/Queue.antt =====
-- The circular queues of process.c: `free_queue`, `run_queue` and `sleep_queue`, each an array of
-- MAX_PROCESSES pids with the indices `_head` and `_tail`.
pub mod Contents
mod Tests
use frog_os.Prelude.{ℕ, zero, suc, ◌+◌, ◌-◌, ◌%◌, List, [], ◌∷◌, Bool, u16, update, ◌==◌}

abbrev pub max_processes : ℕ
max_processes = 128

pub record Queue : Type 0 where
  pub slots : ℕ → ℕ
  pub head : ℕ
  pub tail : ℕ

-- The zeroed globals.
abbrev pub empty_queue : Queue
empty_queue = record { slots = λ _. 0; head = 0; tail = 0 }

-- The test `head == tail`.
abbrev pub is_empty : Queue → Bool
is_empty q = q.head == q.tail

-- `queue[tail] = pid; tail = (tail + 1) % MAX_PROCESSES;`
unfoldable pub enqueue : Queue → ℕ → Queue
enqueue q pid = record q {
  slots = update q.slots q.tail (u16 pid);
  tail = u16 ((q.tail + 1) % max_processes);
}

-- `head = (head + 1) % MAX_PROCESSES;`
unfoldable pub advance : Queue → Queue
advance q = record q { head = u16 ((q.head + 1) % max_processes) }
