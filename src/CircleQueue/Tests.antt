-- ===== src/CircleQueue/Tests.antt =====
-- Queues of circle_queue.h in small arrays.
use just_for_test_and_try.Base.{
  ℕ, zero, suc, ◌+◌, ◌<◌, ◌≡◌, refl, inl, some, [], ◌∷◌, arith, get_elem?, replicate,
}
use just_for_test_and_try.CircleQueue.{CircleQueue, push, pop, peek}
use just_for_test_and_try.CircleQueue.Window.{wrap, IsValid, Holds}
use just_for_test_and_try.CircleQueue.Ends.{push-Holds, pop-Holds}
use just_for_test_and_try.CircleQueue.Sliding.{IsSliding, slide-Holds}

-- Two values from the start of four cells on.
abbrev straight : CircleQueue ℕ
straight = record { cells = 5 ∷ 6 ∷ 0 ∷ 0 ∷ []; size = 2; capacity = 4; front = 0; end = 2 }

straight_cell :
    (i : ℕ) → i < 2 → get_elem? straight.cells (wrap 4 (0 + i)) ≡ get_elem? (5 ∷ 6 ∷ []) i
straight_cell zero h = refl
straight_cell (suc zero) h = refl
straight_cell (suc (suc i)) h = absurd (omega (arith, h))

straight-Holds : Holds straight (5 ∷ 6 ∷ [])
straight-Holds = record {
  valid = record { length_cells = refl; front_in = omega arith; room = omega arith; end_at = refl };
  count = refl;
  cell = straight_cell;
}

-- The same two values, round the end of the cells.
abbrev wrapped : CircleQueue ℕ
wrapped = record { cells = 6 ∷ 0 ∷ 0 ∷ 5 ∷ []; size = 2; capacity = 4; front = 3; end = 1 }

wrapped_cell : (i : ℕ) → i < 2 → get_elem? wrapped.cells (wrap 4 (3 + i)) ≡ get_elem? (5 ∷ 6 ∷ []) i
wrapped_cell zero h = refl
wrapped_cell (suc zero) h = refl
wrapped_cell (suc (suc i)) h = absurd (omega (arith, h))

wrapped-Holds : Holds wrapped (5 ∷ 6 ∷ [])
wrapped-Holds = record {
  valid = record { length_cells = refl; front_in = omega arith; room = omega arith; end_at = refl };
  count = refl;
  cell = wrapped_cell;
}

push-Holds_example : (q' : CircleQueue ℕ) × (push 0 wrapped 7 ≡ some q') × Holds q' (5 ∷ 6 ∷ 7 ∷ [])
push-Holds_example =
    push-Holds 0 wrapped (5 ∷ 6 ∷ []) 7 wrapped-Holds (inl (omega arith)) (omega arith)

pop-Holds_example :
    (peek wrapped ≡ some 5) × ((q' : CircleQueue ℕ) × (pop 0 wrapped ≡ some q') × Holds q' (6 ∷ []))
pop-Holds_example = pop-Holds 0 wrapped 5 (6 ∷ []) wrapped-Holds (inl (omega arith)) (omega arith)

-- Three values in four cells, round their end.
abbrev full : CircleQueue ℕ
full = record { cells = 6 ∷ 7 ∷ 0 ∷ 5 ∷ []; size = 3; capacity = 4; front = 3; end = 2 }

full-IsValid : IsValid full
full-IsValid = record {
  length_cells = refl;
  front_in = omega arith;
  room = omega arith;
  end_at = refl;
}

-- Two values in eighteen cells, round their end.
abbrev loose : CircleQueue ℕ
loose = record { cells = replicate 18 5; size = 2; capacity = 18; front = 17; end = 1 }

loose-IsValid : IsValid loose
loose-IsValid = record {
  length_cells = refl;
  front_in = omega arith;
  room = omega arith;
  end_at = refl;
}

slide-Holds_example :
    (p : CircleQueue ℕ) × (q' : CircleQueue ℕ) × (push 0 straight 7 ≡ some p)
    × (peek p ≡ some 5)
    × (pop 0 p ≡ some q')
    × Holds q' (6 ∷ 7 ∷ [])
    × IsSliding 2 q'
slide-Holds_example =
    slide-Holds 0 2 straight 5 7 (6 ∷ []) straight-Holds refl
      (record { fits = omega arith; settled = inl (omega arith); small = omega arith })
