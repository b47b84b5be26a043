-- ===== src/CircleQueue/Sliding.antt =====
-- A circle_queue.h queue used as a window of `n` values: filled once, and then given one value and
-- relieved of one, over and over. The array shrinks at most while its front is at its start.
use just_for_test_and_try.Base.{
  ℕ, zero, suc, ◌+◌, ◌/◌, ◌≤◌, ◌<◌, ◌≡◌, refl, ◌∙◌, ◌⊎◌, inl, Option, some, List, [], ◌∷◌, ◌++◌,
  append-nil, append_assoc, arith, length, slice, get_elem?, get_elem?-lt, drop-suc, ◌>>=◌,
  int_limit,
}
use just_for_test_and_try.CircleQueue.{CircleQueue, push, pop, peek, clear}
use just_for_test_and_try.CircleQueue.Window.{Holds, peek-Holds, clear-Holds}
use just_for_test_and_try.CircleQueue.Growth.{IsStraight}
use just_for_test_and_try.CircleQueue.Ends.{push_roomy, pop-After, After, halved, kept}

module _ {ℓ} {A : Type ℓ} (junk : A) where
  -- The loop `for (i = ...; left > 0; ++i) push(buf[i])`.
  unfoldable pub fill : ℕ → ℕ → List A → CircleQueue A → Option (CircleQueue A)
  fill zero i buf q = some q
  fill (suc left) i buf q = do b ← get_elem? buf i; q' ← push junk q b; fill left (i + 1) buf q'

  pub fill-Holds :
      (left i : ℕ) (buf : List A) (q : CircleQueue A) (xs : List A)
      → Holds q xs
      → i + left ≤ length buf
      → q.size + left < q.capacity
      → (q' : CircleQueue A) × (fill left i buf q ≡ some q')
        × Holds q' (xs ++ slice i left buf)
        × (q'.capacity ≡ q.capacity)
        × (q'.front ≡ q.front)
  unfolding fill
  fill-Holds zero i buf q xs h inside room = (q, refl, rw (append-nil xs) h, refl, refl)
  fill-Holds (suc left) i buf q xs h inside room =
      let (b, eb) = get_elem?-lt buf i (omega arith) in
      let (p, ep, hp, cp, np, fp) = push_roomy junk q xs b h (omega arith) in
      let (r, er, hr, cr, fr) =
        fill-Holds left (i + 1) buf p (xs ++ (b ∷ [])) hp (omega arith) (omega arith) in
      let same : suc i ≡ i + 1 = omega arith in
      let cut : slice i (suc left) buf ≡ b ∷ slice (i + 1) left buf =
        rw (drop-suc i buf b eb, same) in
      (
        r,
        rw (eb, ep) er,
        rw (cut, ← append_assoc xs (b ∷ []) (slice (i + 1) left buf)) hr,
        cr ∙ cp,
        fr ∙ fp,
      )

-- `n` values fit beside one more, and a shrinking array starts at its front.
pub record IsSliding {ℓ} {A : Type ℓ} (n : ℕ) (q : CircleQueue A) : Type 0 where
  pub fits : n + 2 ≤ q.capacity
  pub settled : (q.front ≤ 1) ⊎ (q.capacity / 3 ≤ n + 1) ⊎ (q.capacity ≤ 15)
  pub small : q.capacity < int_limit

module _ {ℓ} {A : Type ℓ} (junk : A) where
  After-IsSliding :
      (n : ℕ) (q p q' : CircleQueue A)
      → IsSliding n q
      → p.capacity ≡ q.capacity
      → p.size ≡ n + 1
      → After junk p q'
      → IsSliding n q'
  After-IsSliding n q p q' s c m (halved few c' f') = record {
    fits = omega arith;
    settled = inl f';
    small = omega arith;
  }
  After-IsSliding n q p q' s c m (kept tight c') = record {
    fits = omega arith;
    settled = ground arith;
    small = omega arith;
  }

  -- A queue that holds a window of n values, with two cells more than that and a front that lets
  -- the array shrink safely, can be given a value and relieved of one: front gives the oldest
  -- value in between, the result holds the window moved on, and it is such a queue again.
  pub slide-Holds :
      (n : ℕ) (q : CircleQueue A) (x t : A) (xs : List A)
      → Holds q (x ∷ xs)
      → length (x ∷ xs) ≡ n
      → IsSliding n q
      → (p : CircleQueue A) × (q' : CircleQueue A) × (push junk q t ≡ some p)
        × (peek p ≡ some x)
        × (pop junk p ≡ some q')
        × Holds q' (xs ++ (t ∷ []))
        × IsSliding n q'
  slide-Holds n q x t xs h len s =
      let m : q.size ≡ n = omega (arith, h.count) in
      let (p, ep, hp, cp, np, fp) = push_roomy junk q (x ∷ xs) t h (omega (arith, s.fits)) in
      let fit : (p.capacity ≤ 15) ⊎ (p.capacity / 3 ≤ p.size) ⊎ IsStraight p =
        ground (arith, s.settled, s.fits, h.valid) in
      let (q', eq', hq', after) =
        pop-After junk p x (xs ++ (t ∷ [])) hp fit (omega (arith, s.small)) in
      (
        p,
        q',
        ep,
        peek-Holds p x (xs ++ (t ∷ [])) hp,
        eq',
        hq',
        After-IsSliding n q p q' s cp (omega arith) after,
      )

  clear_fields :
      (q : CircleQueue A)
      → ((clear q).size ≡ 0) × ((clear q).capacity ≡ q.capacity) × ((clear q).front ≡ 0)
  unfolding clear
  clear_fields q = (refl, refl, refl)

  -- Clearing a queue of at least n + 2 and fewer than 2 ^ 31 cells and pushing the first n values
  -- of a block makes it hold just these, as a window that can be moved on.
  pub refill-Holds :
      (n : ℕ) (q : CircleQueue A) (buf : List A)
      → length q.cells ≡ q.capacity
      → n + 2 ≤ q.capacity
      → q.capacity < int_limit
      → n ≤ length buf
      → (q' : CircleQueue A) × (fill junk n 0 buf (clear q) ≡ some q')
        × Holds q' (slice 0 n buf)
        × IsSliding n q'
  refill-Holds n q buf e fits small inside =
      let cleared : Holds (clear q) [] = clear-Holds q e (omega arith) in
      let same : ((clear q).size ≡ 0) × ((clear q).capacity ≡ q.capacity) × ((clear q).front ≡ 0) =
        clear_fields q in
      let (q', eq', hq', cq', fq') =
        fill-Holds junk n 0 buf (clear q) [] cleared (omega arith) (omega arith) in
      (
        q',
        eq',
        hq',
        record { fits = omega arith; settled = inl (omega arith); small = omega arith },
      )
