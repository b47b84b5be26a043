-- ===== src/Net/TaskQueue/Tests.antt =====
-- Runs of the queue between threads.
use just_for_test_and_try.Base.{ℕ, ◌≡◌, Option, List, [], ◌∷◌, arith}
use just_for_test_and_try.Net.Packet.{returned}
use just_for_test_and_try.Net.TaskQueue.{TaskQueue, Attempt, pushing, popping, run, pop}
use just_for_test_and_try.Net.TaskQueue.Order.{Ordered, run-Ordered, pop-returned}

abbrev queue : TaskQueue ℕ
queue = record { data_queue = 1 ∷ []; limit = 2 }

abbrev history : List (Attempt ℕ)
history = pushing 2 ∷ pushing 3 ∷ popping ∷ popping ∷ popping ∷ pushing 4 ∷ []

run-Ordered_example : Ordered queue (run history queue)
run-Ordered_example = run-Ordered history queue (omega arith)

pop-returned_example :
    (found : Option ℕ) × (q' : TaskQueue ℕ) × (pop 15 0
        ((popping ∷ []) ∷ (pushing 5 ∷ []) ∷ [])
        queue
      ≡ returned (found, q'))
pop-returned_example =
    pop-returned 15 0 ((popping ∷ []) ∷ (pushing 5 ∷ []) ∷ []) queue (omega arith) (omega arith)
      (omega arith) (omega arith)
