-- ===== src/CircleQueue/Ends.antt =====
-- `push` and `pop` of circle_queue.h: when they are defined, and that they add and remove at the
-- two ends.
use just_for_test_and_try.Base.{
  ◌+◌, ◌-◌, ◌*◌, ◌/◌, ◌≤◌, ◌<◌, ◌≡◌, refl, ◌∙◌, ◌⊎◌, inl, inr, ◌&&◌, none, some, List, [], ◌∷◌,
  ◌++◌, arith, ltb, leb, Bool-cases, replicate, memmove_outside, lt→ltb, le→ltb, le→leb, lt→leb,
  leb→le, leb→lt, int_limit,
}
use just_for_test_and_try.CircleQueue.{
  CircleQueue, realloc, realloc_cells, realloc_wrapped, push, pop, advance, peek,
}
use just_for_test_and_try.CircleQueue.Window.{IsValid, Holds, put-Holds, advance-Holds, peek-Holds}
use just_for_test_and_try.CircleQueue.Growth.{IsStraight, realloc-Holds}

module _ {ℓ} {A : Type ℓ} (junk : A) where
  -- push adds a value as the newest, if the queue has room or lies in one piece and twice its
  -- capacity is below 2 ^ 31.
  pub push-Holds :
      (q : CircleQueue A) (xs : List A) (t : A)
      → Holds q xs
      → (q.size + 1 < q.capacity) ⊎ IsStraight q
      → q.capacity * 2 < int_limit
      → (q' : CircleQueue A) × (push junk q t ≡ some q') × Holds q' (xs ++ (t ∷ []))
  unfolding push
  push-Holds q xs t h fit small = elim (Bool-cases (leb (q.capacity - 1) q.size)) [
    | inl full ↦
        let v : IsValid q = h.valid in
        let le : q.capacity - 1 ≤ q.size = leb→le _ _ full in
        let st : IsStraight q = ground arith in
        let (r, e, hr, c, n, _) =
          realloc-Holds junk q xs (q.capacity * 2) h st (omega (arith, v.room)) small in
        let (q', e', h', _, _, _) = put-Holds r xs t hr (omega (arith, v.room)) in
        (q', rw (full, e) e', h')
    | inr room ↦
        let lt : q.size < q.capacity - 1 = leb→lt _ _ room in
        let (q', e', h', _, _, _) = put-Holds q xs t h (omega arith) in (q', rw room e', h')
  ]

  -- With room nothing is moved.
  pub push_roomy :
      (q : CircleQueue A) (xs : List A) (t : A)
      → Holds q xs
      → q.size + 1 < q.capacity
      → (q' : CircleQueue A) × (push junk q t ≡ some q')
        × Holds q' (xs ++ (t ∷ []))
        × (q'.capacity ≡ q.capacity)
        × (q'.size ≡ q.size + 1)
        × (q'.front ≡ q.front)
  unfolding push
  push_roomy q xs t h more =
      rw (lt→leb (q.capacity - 1) q.size (omega arith)) (put-Holds q xs t h more)

  -- push is undefined on a full queue whose end has gone round its array: Realloc copies from
  -- behind the end of the old one.
  pub push_undefined :
      (q : CircleQueue A) (t : A)
      → IsValid q
      → q.end < q.front
      → q.capacity ≤ q.size + 1
      → push junk q t ≡ none
  unfolding push realloc realloc_cells realloc_wrapped
  push_undefined q t v wraps full =
      rw
        (
          le→leb (q.capacity - 1) q.size (omega arith),
          le→ltb q.front q.end (omega arith),
          lt→ltb q.end q.front wraps,
          le→leb q.front (q.capacity * 2) (omega (arith, v.front_in)),
          memmove_outside (replicate (q.capacity * 2) junk) 0 q.cells q.front
              (q.capacity * 2 - q.front) (omega (arith, v.front_in, v.length_cells)),
        )
        (elim (Bool-cases (ltb (q.capacity * 2) int_limit)) [ inl e ↦ rw e | inr e ↦ rw e ])

  -- How `pop` leaves the array: halved and laid out from its start, or as it was.
  pub data After (q q' : CircleQueue A) : Type 0 where
    halved : q.size < q.capacity / 3 → q'.capacity ≡ q.capacity / 2 → q'.front ≤ 1 → After q q'
    kept : (q.capacity ≤ 15) ⊎ (q.capacity / 3 ≤ q.size) → q'.capacity ≡ q.capacity → After q q'

  advance_front : (q : CircleQueue A) → q.front ≡ 0 → (advance q).front ≤ 1
  unfolding advance
  advance_front q e = ground arith

  advance_capacity : (q : CircleQueue A) → (advance q).capacity ≡ q.capacity
  unfolding advance
  advance_capacity q = refl

  pub pop-After :
      (q : CircleQueue A) (x : A) (xs : List A)
      → Holds q (x ∷ xs)
      → (q.capacity ≤ 15) ⊎ (q.capacity / 3 ≤ q.size) ⊎ IsStraight q
      → q.capacity < int_limit
      → (q' : CircleQueue A) × (pop junk q ≡ some q') × Holds q' xs × After q q'
  unfolding pop
  pop-After q x xs h fit small =
      let v : IsValid q = h.valid in
      let pos : 0 < q.size = omega (arith, h.count) in
      elim (Bool-cases (ltb q.size (q.capacity / 3) && ltb 15 q.capacity)) [
        | inl loose ↦
            let lt : (q.size < q.capacity / 3) × (15 < q.capacity) = ground arith in
            let st : IsStraight q = ground arith in
            let (r, e, hr, c, n, z) =
              realloc-Holds junk q (x ∷ xs) (q.capacity / 2) h st (omega arith) (omega arith) in
            (
              advance r,
              rw (lt→leb q.size 0 pos, loose, e),
              advance-Holds r x xs hr,
              halved lt.0 (advance_capacity r ∙ c) (advance_front r z),
            )
        | inr tight ↦ (
          advance q,
          rw (lt→leb q.size 0 pos, tight),
          advance-Holds q x xs h,
          kept (ground arith) (advance_capacity q),
        )
      ]

  -- front gives the oldest value of a queue and pop leaves the others, if the capacity is at most
  -- 15, the queue is at least a third full or lies in one piece, and the capacity is below 2 ^
  -- 31.
  pub pop-Holds :
      (q : CircleQueue A) (x : A) (xs : List A)
      → Holds q (x ∷ xs)
      → (q.capacity ≤ 15) ⊎ (q.capacity / 3 ≤ q.size) ⊎ IsStraight q
      → q.capacity < int_limit
      → (peek q ≡ some x) × ((q' : CircleQueue A) × (pop junk q ≡ some q') × Holds q' xs)
  pop-Holds q x xs h fit small =
      let (q', e, h', _) = pop-After q x xs h fit small in (peek-Holds q x xs h, (q', e, h'))

  -- pop is undefined on a queue that is not empty and less than a third full, has more than 15
  -- cells and whose end has gone round its array.
  pub pop_undefined :
      (q : CircleQueue A)
      → IsValid q
      → q.end < q.front
      → 0 < q.size
      → q.size < q.capacity / 3
      → 15 < q.capacity
      → pop junk q ≡ none
  unfolding pop realloc realloc_cells realloc_wrapped
  pop_undefined q v wraps pos few large =
      let round : q.capacity ≤ q.front + q.size = ground (arith, v) in
      rw
        (
          lt→leb q.size 0 pos,
          lt→ltb q.size (q.capacity / 3) few,
          lt→ltb 15 q.capacity large,
          le→ltb q.front q.end (omega arith),
          lt→ltb q.end q.front wraps,
          lt→leb q.front (q.capacity / 2) (omega arith),
        )
        (elim (Bool-cases (ltb (q.capacity / 2) int_limit)) [ inl e ↦ rw e | inr e ↦ rw e ])
