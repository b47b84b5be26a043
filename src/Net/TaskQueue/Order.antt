-- ===== src/Net/TaskQueue/Order.antt =====
-- The order of tasks in the queue between threads, and its bound.
use just_for_test_and_try.Base.{
  ℕ, ◌+◌, ◌*◌, ◌≤◌, ◌<◌, ◌≡◌, refl, ap, sym, ◌∙◌, Option, none, some, inl, inr, List, [], ◌∷◌, ◌++◌,
  append_assoc, append-nil, arith, ltb, leb, length, length-append, Bool-cases, Option-cases,
  leb→lt, lt→ltb, ltb→lt, ltb→le, le→ltb, int_limit,
}
use just_for_test_and_try.Net.Packet.{returned}
use just_for_test_and_try.Net.TaskQueue.{
  TaskQueue, try_push, try_pop, Attempt, pushing, popping, run, pop,
}

module _ {ℓ} {A : Type ℓ} where
  -- What a history does to a queue that keeps its bound: the tasks that were in the queue and
  -- those pushed are those popped and those left, in order.
  pub record Ordered (q : TaskQueue A) (out : TaskQueue A × List A × List A) : Type ℓ where
    pub limit_of : out.0.limit ≡ q.limit
    pub bound : length out.0.data_queue ≤ q.limit
    pub order : q.data_queue ++ out.1 ≡ out.2 ++ out.0.data_queue

  push_first :
      (node : A) (history : List (Attempt A)) (q : TaskQueue A)
      → length q.data_queue < q.limit
      → Ordered
          (record q { data_queue = q.data_queue ++ node ∷ [] })
          (run history (record q { data_queue = q.data_queue ++ node ∷ [] }))
      → Ordered q (run (pushing node ∷ history) q)
  unfolding run try_push
  push_first node history q h o = rw (lt→ltb (length q.data_queue) q.limit h) record {
    limit_of = o.limit_of;
    bound = o.bound;
    order = sym (append_assoc q.data_queue (node ∷ []) _) ∙ o.order;
  }

  refuse_first :
      (node : A) (history : List (Attempt A)) (q : TaskQueue A)
      → q.limit ≤ length q.data_queue
      → Ordered q (run history q)
      → Ordered q (run (pushing node ∷ history) q)
  unfolding run try_push
  refuse_first node history q h o = rw (le→ltb (length q.data_queue) q.limit h) o

  of : List A → ℕ → TaskQueue A
  of nodes limit = record { data_queue = nodes; limit = limit }

  ordered :
      (history : List (Attempt A)) (nodes : List A) (limit : ℕ)
      → length nodes ≤ limit
      → Ordered (of nodes limit) (run history (of nodes limit))
  unfolding run try_pop of
  ordered [] nodes limit h = record { limit_of = refl; bound = h; order = append-nil nodes }
  ordered (pushing node ∷ history) nodes limit h = elim (Bool-cases (ltb (length nodes) limit)) [
    | inl e ↦
        let l = ltb→lt (length nodes) limit e in
        push_first node history (of nodes limit) l (
          ordered history (nodes ++ node ∷ []) limit
            (omega (arith, length-append nodes (node ∷ []))))
    | inr e ↦
        refuse_first node history (of nodes limit) (ltb→le _ _ e) (ordered history nodes limit h)
  ]
  ordered (popping ∷ history) [] limit h = ordered history [] limit h
  ordered (popping ∷ history) (node ∷ rest) limit h =
      let o = ordered history rest limit (omega arith) in
      record { limit_of = o.limit_of; bound = o.bound; order = ap (λ k. node ∷ k) o.order }

  -- Whatever the threads do, in whatever order, a queue that keeps its bound keeps it, and the
  -- tasks leave it in the order in which they came: those in it before and those pushed are
  -- those popped and those left.
  pub run-Ordered :
      (history : List (Attempt A)) (q : TaskQueue A)
      → length q.data_queue ≤ q.limit
      → Ordered q (run history q)
  unfolding of
  run-Ordered history q h = ordered history q.data_queue q.limit h

  -- A Pop with a timeout of at most 2 ^ 31 - 10, whose count of the time is below 2 ^ 31 - 10 so
  -- far, comes to an end without an overflow of the count, in a history with enough tries: one for
  -- each 10 of the time left, and one at least.
  pub pop-returned :
      (timeout time_cost : ℕ) (history : List (List (Attempt A))) (q : TaskQueue A)
      → timeout + 9 < int_limit
      → time_cost + 10 < int_limit
      → 0 < length history
      → timeout ≤ time_cost + 10 * length history
      → (found : Option A) × (q' : TaskQueue A) × (pop timeout time_cost history q
          ≡ returned (found, q'))
  unfolding pop
  pop-returned timeout time_cost [] q b s h e = elim h [ ]
  pop-returned timeout time_cost (others ∷ history) q b s h e =
      let in_range = lt→ltb (time_cost + 10) int_limit s in
      let q1 = (run others q).0 in
      let q2 = (try_pop q1).0 in
      elim (Option-cases (try_pop q1).1) [
        | inr (node, f) ↦ (some node, q2, rw (f, pop) refl)
        | inl f ↦ elim (Bool-cases (leb timeout (time_cost + 10))) [
          | inl l ↦ (none, q2, rw (f, pop, in_range, l) refl)
          | inr l ↦
              let (found, q', r) =
                pop-returned timeout (time_cost + 10) history q2 b (omega (arith, leb→lt _ _ l))
                  (omega (arith, leb→lt _ _ l)) (omega arith) in
              (found, q', rw (f, pop, in_range, l) r)
        ]
      ]
