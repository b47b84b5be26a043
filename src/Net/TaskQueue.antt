-- ===== src/Net/TaskQueue.antt =====
-- single_fs/depends/net/task_queue.h: the queue between threads. A call of Push or Pop tries
-- again until it succeeds; each try holds the lock, so the tries of all threads stand in one
-- order, and a history is a list of them.
pub mod Order
mod Tests
use just_for_test_and_try.Base.{
  ℕ, ◌+◌, Bool, true, false, Option, none, some, List, [], ◌∷◌, ◌++◌, ltb, leb, if◌then◌else◌,
  length, int_limit,
}
use just_for_test_and_try.Net.Packet.{Outcome, waiting, returned, undefined}

pub record TaskQueue {ℓ} (A : Type ℓ) : Type ℓ where
  pub data_queue : List A
  pub limit : ℕ

module _ {ℓ} {A : Type ℓ} where
  unfoldable pub new_task_queue : ℕ → TaskQueue A
  new_task_queue limit = record { data_queue = []; limit = limit }

  -- What is done under the lock in one round of `Push`, and if it was a success.
  unfoldable pub try_push : A → TaskQueue A → TaskQueue A × Bool
  try_push node q =
      if ltb (length q.data_queue) q.limit
      then (record q { data_queue = q.data_queue ++ node ∷ [] }, true)
      else (q, false)

  -- The same in one round of `Pop`.
  unfoldable pub try_pop : TaskQueue A → TaskQueue A × Option A
  try_pop q = elim q.data_queue [
    | [] ↦ (q, none)
    | node ∷ rest ↦ (record q { data_queue = rest }, some node)
  ]

-- A try of some thread.
pub data Attempt {ℓ} (A : Type ℓ) : Type ℓ where
  pushing : A → Attempt A
  popping : Attempt A

module _ {ℓ} {A : Type ℓ} where
  -- A history of tries: the queue behind it, the tasks pushed and the tasks popped, in order.
  unfoldable pub run : List (Attempt A) → TaskQueue A → TaskQueue A × List A × List A
  run [] q = (q, [], [])
  run (pushing node ∷ history) q =
      let (q1, success) = try_push node q in
      let (q2, pushed, popped) = run history q1 in
      (q2, if success then node ∷ pushed else pushed, popped)
  run (popping ∷ history) q =
      let (q1, found) = try_pop q in
      let (q2, pushed, popped) = run history q1 in
      (q2, pushed, elim found [ none ↦ popped | some node ↦ node ∷ popped ])

  -- `Pop(timeout)`: before each of its tries the other threads do some of theirs. The count of
  -- the time is an int, and its overflow undefined.
  unfoldable pub pop :
      ℕ → ℕ → List (List (Attempt A)) → TaskQueue A → Outcome (Option A × TaskQueue A)
  pop timeout time_cost [] q = waiting
  pop timeout time_cost (others ∷ history) q =
      let (q1, _, _) = run others q in
      let (q2, found) = try_pop q1 in
      let rest = pop timeout (time_cost + 10) history q2 in
      elim found [
        | some node ↦ returned (some node, q2)
        | none ↦
            if ltb (time_cost + 10) int_limit
            then (if leb timeout (time_cost + 10) then returned (none, q2) else rest)
            else undefined
      ]

  -- `Push`, which waits as long as the queue is full.
  unfoldable pub push : A → List (List (Attempt A)) → TaskQueue A → Outcome (TaskQueue A)
  push node [] q = waiting
  push node (others ∷ history) q =
      let (q1, _, _) = run others q in
      let (q2, success) = try_push node q1 in
      let rest = push node history q2 in if success then returned q2 else rest
