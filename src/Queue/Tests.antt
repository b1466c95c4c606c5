-- ===== src/Queue/Tests.antt =====
-- Tests of the circular queues.
use frog_os.Prelude.{◌+◌, ◌≡◌, refl, [], ◌∷◌, arith}
use frog_os.Queue.{Queue, enqueue}
use frog_os.Queue.Contents.{contents, window, contents-enqueue_full}

-- Pids 7 and 8, round the end of the array.
abbrev wrapped : Queue
wrapped = record { slots = λ i. i + 1; head = 127; tail = 1 }

contents-wrapped : contents wrapped ≡ 128 ∷ 1 ∷ []
unfolding window
contents-wrapped = refl

abbrev full : Queue
full = record { slots = λ i. i; head = 5; tail = 4 }

contents-enqueue_full_example : contents (enqueue full 9) ≡ []
unfolding window
contents-enqueue_full_example = contents-enqueue_full 9 (omega arith) refl
