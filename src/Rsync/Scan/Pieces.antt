-- ===== src/Rsync/Scan/Pieces.antt =====
-- The pieces that `ScanNewFile` pushes, against the new file: while none is longer than an int32_t
-- can say and all together are no longer than the file, they make up its front.
use just_for_test_and_try.Base.{
  ℕ, ◌+◌, ◌-◌, ◌^◌, ◌≤◌, ◌<◌, ◌≡◌, refl, sym, ◌∙◌, inl, inr, Bool-cases, true, false, List, [], ◌∷◌,
  ◌++◌, append-nil, append_assoc, arith, ltb, ◌==◌, length, take, slice, take-add, slice-add,
  int_limit,
}
use just_for_test_and_try.Rsync.{ChunkInfo, OffsetNode}
use just_for_test_and_try.Rsync.Patch.Apply.{rebuild, rebuild_node, AllInside}
use just_for_test_and_try.Rsync.Scan.{int_sub, found_nodes, last_nodes}

abbrev pub AllSmall : List OffsetNode → Type 0
AllSmall [] = Unit {0}
AllSmall (n ∷ ns) = (n.length_of < int_limit) × AllSmall ns

abbrev pub total : List OffsetNode → ℕ
total [] = 0
total (n ∷ ns) = n.length_of + total ns

-- No piece has a negative length, and together they are no longer than the file.
pub record IsForward (new : List ℕ) (ns : List OffsetNode) : Type 0 where
  pub small : AllSmall ns
  pub short : total ns ≤ length new

module _ (old new : List ℕ) where
  -- The pieces make up the first `offset` bytes of the new file.
  pub record Makes (ns : List OffsetNode) (offset : ℕ) : Type 0 where
    pub bytes : rebuild old new ns ≡ take offset new
    pub length_of : total ns ≡ offset
    pub inside : AllInside old new ns

  abbrev pub Covers : List OffsetNode → ℕ → Type 0
  Covers ns offset = IsForward new ns → Makes ns offset

rebuild-append :
    (old new : List ℕ) (xs ys : List OffsetNode)
    → rebuild old new (xs ++ ys) ≡ rebuild old new xs ++ rebuild old new ys
rebuild-append old new [] ys = refl
rebuild-append old new (x ∷ xs) ys =
    rw (rebuild-append old new xs ys)
      (sym (append_assoc (rebuild_node old new x) (rebuild old new xs) (rebuild old new ys)))

total-append : (xs ys : List OffsetNode) → total (xs ++ ys) ≡ total xs + total ys
total-append [] ys = omega arith
total-append (x ∷ xs) ys = omega (arith, total-append xs ys)

AllSmall-append : (xs ys : List OffsetNode) → AllSmall (xs ++ ys) → AllSmall xs × AllSmall ys
AllSmall-append [] ys h = (tt, h)
AllSmall-append (x ∷ xs) ys h = let (a, b) = AllSmall-append xs ys h.1 in ((h.0, a), b)

AllInside-append :
    (old new : List ℕ) (xs ys : List OffsetNode)
    → AllInside old new xs
    → AllInside old new ys
    → AllInside old new (xs ++ ys)
AllInside-append old new [] ys h k = k
AllInside-append old new (x ∷ xs) ys h k = (h.0, AllInside-append old new xs ys h.1 k)

-- More pieces, that go on where the others end.
append-Makes :
    (old new : List ℕ) (xs ys : List OffsetNode) (offset n : ℕ)
    → Makes old new xs offset
    → rebuild old new ys ≡ slice offset n new
    → total ys ≡ n
    → AllInside old new ys
    → Makes old new (xs ++ ys) (offset + n)
append-Makes old new xs ys offset n m b t i = record {
  bytes = rw (rebuild-append old new xs ys, m.bytes, b) (sym (take-add offset n new));
  length_of = omega (arith, total-append xs ys, m.length_of);
  inside = AllInside-append old new xs ys m.inside i;
}

prefix-IsForward :
    (new : List ℕ) (xs ys : List OffsetNode) → IsForward new (xs ++ ys) → IsForward new xs
prefix-IsForward new xs ys f = record {
  small = (AllSmall-append xs ys f.small).0;
  short = omega (arith, total-append xs ys, f.short);
}

-- What a block found at `at` has to be: a block of the old file, and, where the window lies in the
-- new file, the bytes of the window.
pub record IsFound (c : ℕ) (old new : List ℕ) (at : ℕ) (ch : ChunkInfo) : Type 0 where
  pub in_old : ch.offset + c ≤ length old
  pub same : at + c ≤ length new → slice ch.offset c old ≡ slice at c new

gap :
    (at offset : ℕ)
    → at < 2 ^ 30
    → offset < 2 ^ 30
    → int_sub at offset < int_limit
    → (offset ≤ at) × (int_sub at offset ≡ at - offset)
gap at offset h k small = omega arith

block_of : ℕ → ChunkInfo → OffsetNode
block_of c ch = record { from = false; offset = ch.offset; length_of = c }

literal_of : ℕ → ℕ → OffsetNode
literal_of offset n = record { from = true; offset = offset; length_of = n }

found_here :
    (c : ℕ) (old new : List ℕ) (ns : List OffsetNode) (at : ℕ) (ch : ChunkInfo)
    → IsFound c old new at ch
    → Covers old new ns at
    → Covers old new (ns ++ (block_of c ch ∷ [])) (at + c)
unfolding block_of
found_here c old new ns at ch f k forward =
    let ys = block_of c ch ∷ [] in
    let m = k (prefix-IsForward new ns ys forward) in
    let fits : at + c ≤ length new =
      omega (arith, total-append ns ys, forward.short, m.length_of) in
    append-Makes old new ns ys at c m (append-nil (slice ch.offset c old) ∙ f.same fits)
      (omega arith) (f.in_old, tt)

found_later :
    (c : ℕ) (old new : List ℕ) (ns : List OffsetNode) (offset at : ℕ) (ch : ChunkInfo)
    → at < 2 ^ 30
    → offset < 2 ^ 30
    → IsFound c old new at ch
    → Covers old new ns offset
    → Covers old new (ns ++ (literal_of offset (int_sub at offset) ∷ block_of c ch ∷ [])) (at + c)
unfolding block_of literal_of
found_later c old new ns offset at ch ha ho f k forward =
    let ys = literal_of offset (int_sub at offset) ∷ block_of c ch ∷ [] in
    let m = k (prefix-IsForward new ns ys forward) in
    let (le, e) = gap at offset ha ho (AllSmall-append ns ys forward.small).1.0 in
    let fits : at + c ≤ length new =
      omega (arith, total-append ns ys, forward.short, m.length_of) in
    let end : offset + (at - offset + c) ≡ at + c = omega arith in
    let start : offset + (at - offset) ≡ at = omega arith in
    let bytes : rebuild old new ys ≡ slice offset (at - offset + c) new = rw (
      e,
      slice-add offset (at - offset) c new,
      start,
      append-nil (slice ch.offset c old),
      f.same fits,
    ) in
    rw end at (
      append-Makes old new ns ys offset (at - offset + c) m bytes (omega arith)
        (omega arith, (f.in_old, tt)))

-- The pieces pushed for a block keep making up the front of the new file.
pub found-Covers :
    (c : ℕ) (old new : List ℕ) (ns : List OffsetNode) (offset at : ℕ) (ch : ChunkInfo)
    → at < 2 ^ 30
    → offset < 2 ^ 30
    → IsFound c old new at ch
    → Covers old new ns offset
    → Covers old new (ns ++ found_nodes c offset at ch) (at + c)
unfolding found_nodes block_of literal_of
found-Covers c old new ns offset at ch ha ho f k = elim (Bool-cases (offset == at)) [
  | inl here ↦
      let e : offset ≡ at = ground arith in
      let k' : Covers old new ns at = rw e at k in rw here (found_here c old new ns at ch f k')
  | inr later ↦ rw later (found_later c old new ns offset at ch ha ho f k)
]

-- With what is left of the new file they make up all of it.
pub last-Covers :
    (old new : List ℕ) (ns : List OffsetNode) (offset : ℕ)
    → Covers old new ns offset
    → Covers old new (ns ++ last_nodes (length new) offset) (length new)
unfolding last_nodes literal_of
last-Covers old new ns offset k forward = elim (Bool-cases (ltb offset (length new))) [
  | inl more ↦
      let lt : offset < length new = ground arith in
      let ys = literal_of offset (length new - offset) ∷ [] in
      let m = k (prefix-IsForward new ns (last_nodes (length new) offset) forward) in
      let end : offset + (length new - offset) ≡ length new = omega arith in
      rw more (
        rw end at (
          append-Makes old new ns ys offset (length new - offset) m (append-nil _) (omega arith)
            (omega arith, tt)))
  | inr done ↦
      let le : length new ≤ offset = ground arith in
      let m = k (prefix-IsForward new ns (last_nodes (length new) offset) forward) in
      let e : offset ≡ length new =
        omega
          (arith, total-append ns (last_nodes (length new) offset), forward.short, m.length_of) in
      rw (done, append-nil ns) (rw e at m)
]
