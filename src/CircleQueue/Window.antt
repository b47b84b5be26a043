-- ===== src/CircleQueue/Window.antt =====
-- circle_queue.h against a list: what the array holds, and the operations that leave its size.
use just_for_test_and_try.Base.{
  ℕ, zero, suc, ◌+◌, ◌-◌, ◌<◌, ◌≡◌, ◌≢◌, refl, sym, ◌∙◌, inl, inr, some, List, [], ◌∷◌, ◌++◌, arith,
  ltb, leb, if◌then◌else◌, Bool-cases, get_elem?, length, set, length-append, length-set,
  get_elem?-set_self, get_elem?-set_ne, length-replicate, store, lt→ltb,
}
use just_for_test_and_try.CircleQueue.{CircleQueue, new_queue, put, advance, peek, clear}

-- An index into an array of `capacity` cells, where `k` is less than twice that.
abbrev pub wrap : ℕ → ℕ → ℕ
wrap capacity k = if ltb k capacity then k else k - capacity

module _ {ℓ} {A : Type ℓ} where
  -- The fields are consistent, and one cell at least is free.
  pub record IsValid (q : CircleQueue A) : Type 0 where
    pub length_cells : length q.cells ≡ q.capacity
    pub front_in : q.front < q.capacity
    pub room : q.size < q.capacity
    pub end_at : q.end ≡ wrap q.capacity (q.front + q.size)

  -- The queue holds the list, oldest first.
  pub record Holds (q : CircleQueue A) (xs : List A) : Type ℓ where
    pub valid : IsValid q
    pub count : length xs ≡ q.size
    pub cell :
        (i : ℕ) → i < q.size → get_elem? q.cells (wrap q.capacity (q.front + i)) ≡ get_elem? xs i

  pub get_elem?-append_left :
      (xs ys : List A) (i : ℕ) → i < length xs → get_elem? (xs ++ ys) i ≡ get_elem? xs i
  get_elem?-append_left [] ys i h = elim h [ ]
  get_elem?-append_left (x ∷ xs) ys zero h = refl
  get_elem?-append_left (x ∷ xs) ys (suc i) h = get_elem?-append_left xs ys i (omega arith)

  pub get_elem?-append_last :
      (xs : List A) (x : A) (i : ℕ) → i ≡ length xs → get_elem? (xs ++ (x ∷ [])) i ≡ some x
  get_elem?-append_last [] x i h = rw h
  get_elem?-append_last (y ∷ ys) x i h = rw h (get_elem?-append_last ys x (length ys) refl)

  -- Writing at the end and moving it on adds the value as the newest.
  abbrev put_queue : CircleQueue A → A → CircleQueue A
  put_queue q t = record q {
    cells = set q.cells q.end t;
    end = if leb (q.capacity - 1) q.end then 0 else q.end + 1;
    size = q.size + 1;
  }

  put_eq : (q : CircleQueue A) (t : A) → IsValid q → put q t ≡ some (put_queue q t)
  unfolding put store
  put_eq q t v =
      let lt : q.end < length q.cells = ground arith in rw (lt→ltb q.end (length q.cells) lt)

  put_cell :
      (q : CircleQueue A) (xs : List A) (t : A) (i : ℕ)
      → Holds q xs
      → i < q.size + 1
      → get_elem? (set q.cells q.end t) (wrap q.capacity (q.front + i))
        ≡ get_elem? (xs ++ (t ∷ [])) i
  put_cell q xs t i h lt = elim (Bool-cases (ltb i q.size)) [
    | inl old ↦
        let old' : i < q.size = ground arith in
        let v : IsValid q = h.valid in
        let ne : q.end ≢ wrap q.capacity (q.front + i) = ground arith in
        get_elem?-set_ne q.cells q.end (wrap q.capacity (q.front + i)) t ne
        ∙ h.cell i old'
        ∙ sym (get_elem?-append_left xs (t ∷ []) i (omega (arith, h.count)))
    | inr new ↦
        let e : i ≡ q.size = ground arith in
        let v : IsValid q = h.valid in
        let at : wrap q.capacity (q.front + i) ≡ q.end = ground arith in
        let lt : q.end < length q.cells = ground arith in
        rw at (get_elem?-set_self q.cells q.end t lt)
        ∙ sym (get_elem?-append_last xs t i (omega (arith, h.count)))
  ]

  pub put-Holds :
      (q : CircleQueue A) (xs : List A) (t : A)
      → Holds q xs
      → q.size + 1 < q.capacity
      → (q' : CircleQueue A) × (put q t ≡ some q')
        × Holds q' (xs ++ (t ∷ []))
        × (q'.capacity ≡ q.capacity)
        × (q'.size ≡ q.size + 1)
        × (q'.front ≡ q.front)
  put-Holds q xs t h more =
      let v : IsValid q = h.valid in
      (
        put_queue q t,
        put_eq q t v,
        record {
          valid = record {
            length_cells = length-set q.cells q.end t ∙ v.length_cells;
            front_in = v.front_in;
            room = more;
            end_at = ground arith;
          };
          count = omega (arith, length-append xs (t ∷ []), h.count);
          cell = λ i lt. put_cell q xs t i h lt;
        },
        refl,
        refl,
        refl,
      )

  -- `front` is the oldest value.
  pub peek-Holds : (q : CircleQueue A) (x : A) (xs : List A) → Holds q (x ∷ xs) → peek q ≡ some x
  unfolding peek
  peek-Holds q x xs h =
      let v : IsValid q = h.valid in
      let e : wrap q.capacity (q.front + 0) ≡ q.front = ground arith in
      rw (← e) (h.cell 0 (omega (arith, h.count)))

  -- Moving the front on drops the oldest value.
  pub advance-Holds :
      (q : CircleQueue A) (x : A) (xs : List A) → Holds q (x ∷ xs) → Holds (advance q) xs
  unfolding advance
  advance-Holds q x xs h =
      let v : IsValid q = h.valid in
      let n : q.size ≡ length xs + 1 = omega (arith, h.count) in
      record {
        valid = record {
          length_cells = v.length_cells;
          front_in = ground arith;
          room = omega (arith, v.room);
          end_at = ground arith;
        };
        count = omega arith;
        cell = λ i lt.
            let e : wrap q.capacity ((if leb (q.capacity - 1) q.front then 0 else q.front + 1) + i)
                ≡ wrap q.capacity (q.front + suc i) =
              ground arith in
            rw e (h.cell (suc i) (omega arith));
      }

  pub clear-Holds :
      (q : CircleQueue A) → length q.cells ≡ q.capacity → 0 < q.capacity → Holds (clear q) []
  unfolding clear
  clear-Holds q e h = record {
    valid = record { length_cells = e; front_in = h; room = h; end_at = ground arith };
    count = refl;
    cell = λ i lt. elim lt [ ];
  }

  pub new_queue-Holds : (junk : A) (n : ℕ) → Holds (new_queue junk n) []
  unfolding new_queue
  new_queue-Holds junk n = record {
    valid = record {
      length_cells = length-replicate (n + 10) junk;
      front_in = omega arith;
      room = omega arith;
      end_at = ground arith;
    };
    count = refl;
    cell = λ i lt. elim lt [ ];
  }
