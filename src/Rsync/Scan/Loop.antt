-- ===== src/Rsync/Scan/Loop.antt =====
-- `ScanNewFile` as a whole: it ends, it is defined, and its pieces make up the new file.
use just_for_test_and_try.Base.{
  ℕ, zero, suc, ◌+◌, ◌≤◌, ◌<◌, ◌≡◌, refl, sym, ◌∙◌, inl, inr, Bool, Bool-cases, false, none, some,
  List, [], ◌++◌, arith, ltb, length, take-length,
}
use just_for_test_and_try.Checksum.Adler.{new_checksum}
use just_for_test_and_try.Checksum.Adler.Rolling.{new_checksum-CanInit}
use just_for_test_and_try.Rsync.{ChunkInfo, OffsetNode}
use just_for_test_and_try.Rsync.Copy.{new_reader}
use just_for_test_and_try.Rsync.Patch.Apply.{rebuild, AllInside}
use just_for_test_and_try.Rsync.Scan.{
  Scan, build_table, build_sums, scan_loop, last_nodes, scan_new_file,
}
use just_for_test_and_try.Rsync.Scan.State.{
  IsDigest, NoCollision, AllDescribe, build_sums-Describes, Inv, Sizes,
}
use just_for_test_and_try.Rsync.Scan.Pieces.{IsForward, Makes, Covers, last-Covers}
use just_for_test_and_try.Rsync.Scan.Roll.{scan_round-Inv}

module _ {room : ℕ} (c : ℕ) (md4 : List ℕ → List ℕ) (old new : List ℕ) (digest : IsDigest md4)
    (distinct : NoCollision c md4 old new) (sizes : Sizes room c new) (junk : ℕ) where
  scan_loop-Inv :
      (table : ℕ → Bool) (fuel : ℕ) (s : Scan)
      → Inv c md4 old new s
      → 0 < fuel
      → length new < fuel + s.curr
      → (s' : Scan) × (scan_loop c md4 new table junk fuel s ≡ some s') × Inv c md4 old new s'
  unfolding scan_loop
  scan_loop-Inv table zero s v pos enough = elim pos [ ]
  scan_loop-Inv table (suc fuel) s v pos enough =
      elim (Bool-cases (ltb (length new) (s.curr + c))) [
        | inl stop ↦ (s, rw stop, v)
        | inr more ↦
            let fits : s.curr + c ≤ length new = ground arith in
            let (s1, e1, v1, moved) =
              scan_round-Inv c md4 old new table digest distinct sizes junk s v fits in
            let (s', e', v') =
              scan_loop-Inv table fuel s1 v1 (omega (arith, sizes.chunk))
                (omega (arith, sizes.chunk)) in
            (s', rw (more, e1) e', v')
      ]

  -- The scan ends within its rounds and is defined, for any signature of the old file.
  scan_new_file_lem :
      (garbage : ℕ) (chunks : List ChunkInfo)
      → AllDescribe c md4 old chunks
      → (ns : List OffsetNode) × (scan_new_file room c md4 junk garbage chunks new ≡ some ns)
        × Covers old new ns (length new)
  unfolding scan_new_file
  scan_new_file_lem garbage chunks d =
      let (m, e, r) = new_reader junk garbage new sizes.file_limit in
      let table = build_table chunks (λ _. false) in
      let start : Scan = record {
        map = m;
        summer = new_checksum junk room;
        sums = build_sums chunks (λ _. none);
        curr = 0;
        offset = 0;
        nodes = [];
      } in
      let v : Inv c md4 old new start = record {
        reads = r;
        can = new_checksum-CanInit junk room c sizes.chunk_limit sizes.room_limit;
        sums = build_sums-Describes c md4 old chunks (λ _. none) d (λ k ch h. cc);
        bound = omega arith;
        covers = λ f. record { bytes = refl; length_of = refl; inside = tt };
      } in
      let (s, e', v') =
        scan_loop-Inv table (suc (length new)) start v (omega arith) (omega arith) in
      (
        s.nodes ++ last_nodes (length new) s.offset,
        rw (e, e'),
        last-Covers old new s.nodes s.offset v'.covers,
      )

some_cancel : (xs ys : List OffsetNode) → some xs ≡ some ys → xs ≡ ys
some_cancel xs ys h = cc

module _ (room c : ℕ) (md4 : List ℕ → List ℕ) (old new : List ℕ) (digest : IsDigest md4)
    (distinct : NoCollision c md4 old new) (sizes : Sizes room c new) (junk garbage : ℕ)
    (chunks : List ChunkInfo) (describe : AllDescribe c md4 old chunks) where
  -- ScanNewFile returns: its rounds are never used up and every step of it is defined, for
  -- entries that describe blocks of the old file, a digest of 16 bytes that no window of the new
  -- file shares with a differing block of the old one, a block size above 0 and within the
  -- summer's room, and a new file below 20 MiB.
  pub scan_new_file-total :
      (ns : List OffsetNode) × (scan_new_file room c md4 junk garbage chunks new ≡ some ns)
  scan_new_file-total =
      let (ns, e, k) =
        scan_new_file_lem c md4 old new digest distinct sizes junk garbage chunks describe in
      (ns, e)

  -- The pieces that ScanNewFile returns, if none has a negative length and their total is no
  -- longer than the new file, make up the new file and lie in the two files: for entries that
  -- describe blocks of the old file, a digest of 16 bytes that no window of the new file shares
  -- with a differing block of the old one, and a new file below 20 MiB.
  pub scan_new_file-rebuild :
      (ns : List OffsetNode)
      → scan_new_file room c md4 junk garbage chunks new ≡ some ns
      → IsForward new ns
      → (rebuild old new ns ≡ new) × AllInside old new ns
  scan_new_file-rebuild ns h f =
      let (found, e, k) =
        scan_new_file_lem c md4 old new digest distinct sizes junk garbage chunks describe in
      let same : found ≡ ns = some_cancel found ns (sym e ∙ h) in
      let m : Makes old new ns (length new) = rw same at (k (rw same f)) in
      (m.bytes ∙ take-length new (length new) (omega arith), m.inside)
