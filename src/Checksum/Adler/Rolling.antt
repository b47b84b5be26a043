-- ===== src/Checksum/Adler/Rolling.antt =====
-- A Checksum3 object over its life: `Init` on a block, then `Update` for each byte that follows.
use just_for_test_and_try.Base.{
  ℕ, zero, suc, ◌+◌, ◌-◌, ◌≤◌, ◌<◌, ◌≡◌, refl, sym, ◌∙◌, Option, some, List, [], ◌∷◌, ◌++◌, arith,
  length, length-append, length-slice, slice, drop, take-length, append-nil, append_assoc, ◌>>=◌,
  int_limit, le→leb, length-replicate, subst,
}
use just_for_test_and_try.CircleQueue.{CircleQueue, new_queue, clear}
use just_for_test_and_try.CircleQueue.Window.{Holds}
use just_for_test_and_try.CircleQueue.Sliding.{fill, IsSliding, slide-Holds, refill-Holds}
use just_for_test_and_try.Checksum.{IsByte, AllBytes}
use just_for_test_and_try.Checksum.Adler.{
  Checksum3, new_checksum, window_room, init, update, sum1, roll,
}
use just_for_test_and_try.Checksum.Adler.Digest.{sum1-digest, roll-digest}

-- The object is set up for a window of `n` bytes: its array has room for them.
pub record CanInit (n : ℕ) (s : Checksum3) : Type 0 where
  pub length_cells : length s.buf_list.cells ≡ s.buf_list.capacity
  pub fits : n + 2 ≤ s.buf_list.capacity
  pub small : s.buf_list.capacity < int_limit

-- The object's window is `bytes`.
pub record Windowed (n : ℕ) (s : Checksum3) (bytes : List ℕ) : Type 0 where
  pub holds : Holds s.buf_list bytes
  pub sliding : IsSliding n s.buf_list
  pub window : length bytes ≡ n
  pub length_kept : s.length_of ≡ n

-- And its sum is theirs.
pub record Rolls (n : ℕ) (s : Checksum3) (bytes : List ℕ) : Type 0 where
  pub windowed : Windowed n s bytes
  pub sum : s.tmp_sum ≡ sum1 bytes

pub Windowed-CanInit : {n : ℕ} {s : Checksum3} {bytes : List ℕ} → Windowed n s bytes → CanInit n s
Windowed-CanInit w = record {
  length_cells = w.holds.valid.length_cells;
  fits = w.sliding.fits;
  small = w.sliding.small;
}

AllBytes-snoc : (bs : List ℕ) (b : ℕ) → AllBytes bs → IsByte b → AllBytes (bs ++ (b ∷ []))
AllBytes-snoc [] b h k = (k, tt)
AllBytes-snoc (a ∷ bs) b h k = (h.0, AllBytes-snoc bs b h.1 k)

module _ (junk : ℕ) where
  pub new_checksum-CanInit :
      (room n : ℕ) → n ≤ room → room ≤ window_room → CanInit n (new_checksum junk room)
  unfolding new_checksum new_queue
  new_checksum-CanInit room n h k = record {
    length_cells = length-replicate (room + 10) junk;
    fits = omega arith;
    small = omega arith;
  }

  fill_split :
      (k : ℕ) (buf : List ℕ) (q : CircleQueue ℕ)
      → fill junk (suc k) 0 buf q ≡ (fill junk 1 0 buf q >>= λ first. fill junk k 1 buf first)
  unfolding fill
  fill_split k buf q = ground arith

  -- `Init` on a block of `n` bytes or more makes them the window.
  pub init-Rolls :
      (n : ℕ) (s : Checksum3) (buf : List ℕ)
      → CanInit n s
      → 0 < n
      → n ≤ length buf
      → (s' : Checksum3) × (init junk s buf n ≡ some s') × Rolls n s' (slice 0 n buf)
  unfolding init
  init-Rolls zero s buf c pos inside = elim pos [ ]
  init-Rolls (suc k) s buf c pos inside =
      let (q, e, h, sl) =
        refill-Holds junk (suc k) s.buf_list buf c.length_cells c.fits c.small inside in
      let same : suc k - 1 ≡ k = omega arith in
      let split : (fill junk 1 0 buf (clear s.buf_list) >>= λ first. fill junk k 1 buf first)
          ≡ some q =
        sym (fill_split k buf (clear s.buf_list)) ∙ e in
      (
        record { buf_list = q; length_of = suc k; tmp_sum = sum1 (slice 0 (suc k) buf) },
        ground (arith, split, le→leb (suc k) (length buf) inside, same),
        record {
          windowed = record {
            holds = h;
            sliding = sl;
            window = length-slice 0 (suc k) buf (omega arith);
            length_kept = refl;
          };
          sum = refl;
        },
      )

  -- `Update` moves the window on by one byte, and rolls the sum.
  pub update-Windowed :
      (n next gone : ℕ) (s : Checksum3) (bytes : List ℕ)
      → Windowed n s (gone ∷ bytes)
      → (s' : Checksum3) × (update junk s next ≡ some s')
        × Windowed n s' (bytes ++ (next ∷ []))
        × (s'.tmp_sum ≡ roll s.tmp_sum s.length_of next gone)
  unfolding update
  update-Windowed n next gone s bytes w =
      let (p, q, e1, e2, e3, h, sl) =
        slide-Holds junk n s.buf_list gone next bytes w.holds w.window w.sliding in
      (
        record s { buf_list = q; tmp_sum = roll s.tmp_sum s.length_of next gone },
        rw (e1, e2, e3),
        record {
          holds = h;
          sliding = sl;
          window = omega (arith, length-append bytes (next ∷ []), w.window);
          length_kept = w.length_kept;
        },
        refl,
      )

  pub update-Rolls :
      (n next gone : ℕ) (s : Checksum3) (bytes : List ℕ)
      → Rolls n s (gone ∷ bytes)
      → IsByte gone
      → (s' : Checksum3) × (update junk s next ≡ some s') × Rolls n s' (bytes ++ (next ∷ []))
  update-Rolls n next gone s bytes r b =
      let (s', e, w, t) = update-Windowed n next gone s bytes r.windowed in
      (
        s',
        e,
        record {
          windowed = w;
          sum =
              rw
                (
                  t,
                  r.windowed.length_kept,
                  r.sum,
                  sum1-digest (gone ∷ bytes),
                  sum1-digest (bytes ++ (next ∷ [])),
                )
                (roll-digest n next gone bytes b (sym r.windowed.window));
        },
      )

  -- `Update` on each byte of a list in turn.
  pub update_all : Checksum3 → List ℕ → Option Checksum3
  update_all s [] = some s
  update_all s (b ∷ bs) = do s' ← update junk s b; update_all s' bs

  pub update_all-Rolls :
      (n : ℕ) (later : List ℕ) (s : Checksum3) (bytes : List ℕ)
      → Rolls n s bytes
      → 0 < n
      → AllBytes bytes
      → AllBytes later
      → (s' : Checksum3) × (update_all s later ≡ some s')
        × Rolls n s' (drop (length later) (bytes ++ later))
  unfolding update_all
  update_all-Rolls n [] s bytes r pos b c = (s, refl, subst (Rolls n s) (sym (append-nil bytes)) r)
  update_all-Rolls n (t ∷ ts) s [] r pos b c = absurd (omega (arith, r.windowed.window))
  update_all-Rolls n (t ∷ ts) s (x ∷ bytes) r pos b c =
      let (p, e, rp) = update-Rolls n t x s bytes r b.0 in
      let (s', e', r') =
        update_all-Rolls n ts p (bytes ++ (t ∷ [])) rp pos (AllBytes-snoc bytes t b.1 c.0) c.1 in
      (s', rw e e', rw (append_assoc bytes (t ∷ []) ts) at r')

  -- From Init on a block of n bytes on, after any number of calls of Update, the rolled sum is
  -- Sum1 of the last n bytes: for n above 0, an object whose queue has two cells more than that,
  -- and lists of bytes.
  pub tmp_sum-update_all :
      (n : ℕ) (s : Checksum3) (block later : List ℕ)
      → CanInit n s
      → 0 < n
      → length block ≡ n
      → AllBytes block
      → AllBytes later
      → (s' : Checksum3) × ((init junk s block n >>= λ s1. update_all s1 later) ≡ some s')
        × (s'.tmp_sum ≡ sum1 (drop (length later) (block ++ later)))
  tmp_sum-update_all n s block later c pos len b bl =
      let (s1, e1, r1) = init-Rolls n s block c pos (omega arith) in
      let whole : slice 0 n block ≡ block = take-length block n (omega arith) in
      let (s2, e2, r2) = update_all-Rolls n later s1 block (subst (Rolls n s1) whole r1) pos b bl in
      (s2, rw e1 e2, r2.sum)
