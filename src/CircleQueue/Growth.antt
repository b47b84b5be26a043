-- ===== src/CircleQueue/Growth.antt =====
-- `Realloc`, and so `push`, `pop` and `GetData`, of circle_queue.h. A queue that lies in one piece
-- survives it. One that goes round the end of its array does not, unless the size stays.
use just_for_test_and_try.Base.{
  ℕ, ◌+◌, ◌≤◌, ◌<◌, ◌≡◌, refl, ◌∙◌, inl, inr, some, List, ◌++◌, arith, ltb, Bool-cases, get_elem?,
  length, drop, slice, length-append, length-slice, length-drop, replicate, length-replicate,
  memmove_to_start, lt→ltb, le→ltb, int_limit, get_elem?-drop, get_elem?-take,
}
use just_for_test_and_try.CircleQueue.{CircleQueue, realloc, realloc_cells}
use just_for_test_and_try.CircleQueue.Window.{wrap, IsValid, Holds, get_elem?-append_left}

-- The queue lies in one piece, and its end has not gone round.
abbrev pub IsStraight {ℓ} : {A : Type ℓ} → CircleQueue A → Type 0
IsStraight q = q.front + q.size < q.capacity

module _ {ℓ} {A : Type ℓ} (junk : A) where
  -- The array that `realloc` makes holds the queue from cell 0 on.
  abbrev Copied : CircleQueue A → List A → ℕ → List A → Type ℓ
  Copied q xs n cells =
      (length cells ≡ n) × ((i : ℕ) → i < q.size → get_elem? cells i ≡ get_elem? xs i)

  straight_cells : CircleQueue A → ℕ → List A
  straight_cells q n = slice q.front q.size q.cells ++ drop q.size (replicate n junk)

  realloc_straight_cells :
      (q : CircleQueue A) (n : ℕ)
      → IsValid q
      → IsStraight q
      → 0 < q.size
      → q.size ≤ n
      → realloc_cells junk q n ≡ some (straight_cells q n)
  unfolding realloc_cells straight_cells
  realloc_straight_cells q n v st pos fits =
      let e : q.end ≡ q.front + q.size = ground (arith, v) in
      let lt : q.front < q.end = omega arith in
      rw (lt→ltb q.front q.end lt) (
        memmove_to_start (replicate n junk) q.cells q.front q.size
          (omega (arith, length-replicate n junk)) (omega (arith, v.length_cells)))

  straight_Copied :
      (q : CircleQueue A) (xs : List A) (n : ℕ)
      → Holds q xs
      → IsStraight q
      → q.size ≤ n
      → Copied q xs n (straight_cells q n)
  unfolding straight_cells
  straight_Copied q xs n h st fits =
      let v : IsValid q = h.valid in
      let len : length (slice q.front q.size q.cells) ≡ q.size =
        length-slice q.front q.size q.cells (omega (arith, v.length_cells)) in
      (
        omega (
          arith,
          length-append (slice q.front q.size q.cells) (drop q.size (replicate n junk)),
          length-drop q.size (replicate n junk),
          length-replicate n junk,
        ),
        λ i lt.
            let e : wrap q.capacity (q.front + i) ≡ q.front + i = ground arith in
            get_elem?-append_left (slice q.front q.size q.cells) (drop q.size (replicate n junk)) i
              (omega arith)
            ∙ get_elem?-take q.size i (drop q.front q.cells) lt
            ∙ get_elem?-drop q.front i q.cells
            ∙ rw (← e) (h.cell i lt),
      )

  moved : CircleQueue A → ℕ → List A → CircleQueue A
  moved q n cells = record { cells = cells; size = q.size; capacity = n; front = 0; end = q.size }

  moved-Holds :
      (q : CircleQueue A) (xs : List A) (n : ℕ) (cells : List A)
      → Holds q xs
      → q.size < n
      → Copied q xs n cells
      → Holds (moved q n cells) xs
  unfolding moved
  moved-Holds q xs n cells h fits c = record {
    valid = record {
      length_cells = c.0;
      front_in = omega arith;
      room = fits;
      end_at = ground arith;
    };
    count = h.count;
    cell = λ i lt. let e : wrap n (0 + i) ≡ i = ground arith in rw e (c.1 i lt);
  }

  realloc_of_cells :
      (q : CircleQueue A) (n : ℕ) (cells : List A)
      → n < int_limit
      → realloc_cells junk q n ≡ some cells
      → realloc junk q n ≡ some (moved q n cells)
  unfolding realloc moved
  realloc_of_cells q n cells small e = rw (lt→ltb n int_limit small, e)

  empty_cells :
      (q : CircleQueue A) (n : ℕ)
      → IsValid q
      → q.size ≡ 0
      → realloc_cells junk q n ≡ some (replicate n junk)
  unfolding realloc_cells
  empty_cells q n v e =
      let same : q.end ≡ q.front = ground (arith, v) in
      rw (le→ltb q.front q.end (omega arith), le→ltb q.end q.front (omega arith))

  -- The array after `Realloc` of a straight queue, the empty one included.
  straight_copy :
      (q : CircleQueue A) (xs : List A) (n : ℕ)
      → Holds q xs
      → IsStraight q
      → q.size < n
      → (cells : List A) × (realloc_cells junk q n ≡ some cells) × Copied q xs n cells
  straight_copy q xs n h st fits = elim (Bool-cases (ltb 0 q.size)) [
    | inl pos ↦ (
      straight_cells q n,
      realloc_straight_cells q n h.valid st (ground arith) (omega arith),
      straight_Copied q xs n h st (omega arith),
    )
    | inr nil ↦
        let e : q.size ≡ 0 = ground arith in
        (
          replicate n junk,
          empty_cells q n h.valid e,
          (length-replicate n junk, λ i lt. absurd (omega arith)),
        )
  ]

  pub realloc-Holds :
      (q : CircleQueue A) (xs : List A) (n : ℕ)
      → Holds q xs
      → IsStraight q
      → q.size < n
      → n < int_limit
      → (q' : CircleQueue A) × (realloc junk q n ≡ some q')
        × Holds q' xs
        × (q'.capacity ≡ n)
        × (q'.size ≡ q.size)
        × (q'.front ≡ 0)
  unfolding moved
  realloc-Holds q xs n h st fits small =
      let (cells, e, c) = straight_copy q xs n h st fits in
      (
        moved q n cells,
        realloc_of_cells q n cells small e,
        moved-Holds q xs n cells h fits c,
        refl,
        refl,
        refl,
      )
