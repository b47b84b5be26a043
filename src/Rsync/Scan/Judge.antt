-- ===== src/Rsync/Scan/Judge.antt =====
-- The lines under `// judge` of `ScanNewFile` keep the invariant, and a block found is one.
use just_for_test_and_try.Base.{
  ℕ, ◌+◌, ◌%◌, ◌≤◌, ◌≡◌, refl, ap, sym, ◌∙◌, inl, inr, Bool-cases, Option-cases, Bool, false, some,
  List, arith, length, slice, le→leb,
}
use just_for_test_and_try.Checksum.{strong_sum}
use just_for_test_and_try.Checksum.Hex.{hex_cancel}
use just_for_test_and_try.FileMap.{FileMap, read_block}
use just_for_test_and_try.FileMap.Contents.{Maps, map_file_content-Maps}
use just_for_test_and_try.Rsync.{ChunkInfo, bytes_eq, bytes_eq→eq}
use just_for_test_and_try.Rsync.Copy.{Reads}
use just_for_test_and_try.Rsync.Scan.{
  Scan, Judged, skipped, differs, matched, emit, compare_block, judge,
}
use just_for_test_and_try.Rsync.Scan.State.{
  IsDigest, NoCollision, Describes, put_chunk-Describes, Inv, Sizes,
}
use just_for_test_and_try.Rsync.Scan.Pieces.{IsFound, found-Covers}

-- Where the bytes under `buf` are afterwards.
abbrev pub Pointer : ℕ → Scan → Judged → Scan → Type 0
Pointer c s skipped s' = s'.map ≡ s.map
Pointer c s (differs buf) s' = (p : ℕ) × (buf ≡ some p) × (p + c ≤ length s'.map.buffer)
Pointer c s matched s' = Unit {0}

module _ {room : ℕ} (c : ℕ) (md4 : List ℕ → List ℕ) (old new : List ℕ) (table : ℕ → Bool)
    (digest : IsDigest md4) (distinct : NoCollision c md4 old new) (sizes : Sizes room c new) where
  strong_sum_cancel : (xs ys : List ℕ) → strong_sum md4 xs ≡ strong_sum md4 ys → md4 xs ≡ md4 ys
  unfolding strong_sum
  strong_sum_cancel xs ys h = hex_cancel (md4 xs) (md4 ys) (digest.bytes xs) (digest.bytes ys) h

  -- A window with a block's strong sum is the block.
  IsFound-of_eq :
      (m m' : FileMap) (at p : ℕ) (ch : ChunkInfo)
      → Maps m m' new at c p
      → Describes c md4 old ch
      → strong_sum md4 (slice p c m'.buffer) ≡ ch.strong_sum
      → IsFound c old new at ch
  IsFound-of_eq m m' at p ch t d e = record {
    in_old = d.in_old;
    same = λ fits.
        let f : strong_sum md4 (slice at c new) ≡ strong_sum md4 (slice ch.offset c old) =
          ap (strong_sum md4) (sym (t.contents fits)) ∙ e ∙ d.strong in
        sym (distinct at ch.offset fits d.in_old (strong_sum_cancel _ _ f));
  }

  emit-Inv :
      (s : Scan) (ch : ChunkInfo) (at : ℕ)
      → Inv c md4 old new s
      → Describes c md4 old ch
      → at ≤ length new
      → IsFound c old new at ch
      → Inv c md4 old new (emit c md4 new table s ch at)
  unfolding emit
  emit-Inv s ch at v d le f = record {
    reads = v.reads;
    can = v.can;
    sums =
        put_chunk-Describes c md4 old s.sums (record ch { from = false })
          (record { in_old = d.in_old; strong = d.strong }) v.sums;
    bound = omega arith;
    covers =
        found-Covers c old new s.nodes s.offset at ch (omega (arith, sizes.file_limit))
          (omega (arith, sizes.file_limit, sizes.chunk_limit, sizes.room_limit, v.bound)) f
          v.covers;
  }

  -- What a look at a window leaves.
  pub record Looked (s : Scan) (found : Judged) (s' : Scan) : Type 0 where
    pub inv : Inv c md4 old new s'
    pub curr : s'.curr ≡ s.curr
    pub summer : s'.summer ≡ s.summer
    pub pointer : Pointer c s found s'

  compare_block-Looked :
      (s : Scan) (ch : ChunkInfo) (at : ℕ)
      → Inv c md4 old new s
      → Describes c md4 old ch
      → at ≤ length new
      → c ≤ length new
      → (found : Judged) × (s' : Scan) × (compare_block c md4 new table s ch at ≡ some (found, s'))
        × Looked s found s'
  unfolding compare_block read_block emit
  compare_block-Looked s ch at v d le fits =
      let r = v.reads in
      let (p, m, e, t) =
        map_file_content-Maps s.map new at c r.valid (omega (arith, r.valid.size))
          (omega (arith, r.whole)) in
      let r' : Reads m new = record { valid = t.valid; whole = t.same_room ∙ r.whole } in
      let moved : Scan = record s { map = m } in
      let v' : Inv c md4 old new moved = record {
        reads = r';
        can = v.can;
        sums = v.sums;
        bound = v.bound;
        covers = v.covers;
      } in
      let inside = le→leb (p + c) (length m.buffer) t.in_buffer in
      elim (Bool-cases (bytes_eq (strong_sum md4 (slice p c m.buffer)) ch.strong_sum)) [
        | inl same ↦
            let f = IsFound-of_eq s.map m at p ch t d (bytes_eq→eq _ _ same) in
            (
              matched,
              emit c md4 new table moved ch at,
              rw (e, inside, same),
              record {
                inv = emit-Inv moved ch at v' d le f;
                curr = refl;
                summer = refl;
                pointer = tt;
              },
            )
        | inr other ↦ (
          differs (some p),
          moved,
          rw (e, inside, other),
          record { inv = v'; curr = refl; summer = refl; pointer = (p, refl, t.in_buffer) },
        )
      ]

  pub judge-Looked :
      (s : Scan) (at : ℕ)
      → Inv c md4 old new s
      → at ≤ length new
      → c ≤ length new
      → (found : Judged) × (s' : Scan) × (judge c md4 new table s at ≡ some (found, s'))
        × Looked s found s'
  unfolding judge
  judge-Looked s at v le fits =
      let none_found : Looked s skipped s = record {
        inv = v;
        curr = refl;
        summer = refl;
        pointer = refl;
      } in
      elim (Bool-cases (table (s.summer.tmp_sum % 4096))) [
        | inl bit ↦ (elim (Option-cases (s.sums s.summer.tmp_sum)) [
          | inl miss ↦ (skipped, s, rw (bit, miss), none_found)
          | inr (ch, hit) ↦
              let (found, s', e, l) =
                compare_block-Looked s ch at v (v.sums s.summer.tmp_sum ch hit) le fits in
              (found, s', rw (bit, hit) e, l)
        ])
        | inr clear ↦ (skipped, s, rw clear, none_found)
      ]
