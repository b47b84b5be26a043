-- ===== src/Rsync/Patch/Apply.antt =====
-- `PatchFile` on a delta that describes a file: the pieces, as they stand in the delta, and what
-- the patched file holds.
use just_for_test_and_try.Base.{
  ℕ, suc, ◌+◌, ◌^◌, ◌≤◌, ◌<◌, ◌≡◌, refl, ap, sym, ◌∙◌, Bool, true, false, Option, some, List, [],
  ◌∷◌, ◌++◌, append-nil, append_assoc, arith, lt→ltb, if◌then◌else◌, length, drop, slice,
  length-slice, peel, int_limit,
}
use just_for_test_and_try.FileMap.{FileMap, default_buffer_length}
use just_for_test_and_try.FileWriter.{WriteFileMap, new_writer}
use just_for_test_and_try.FileWriter.Output.{output, close-output, new_writer-IsValid}
use just_for_test_and_try.Rsync.{
  OffsetNode, delta_magic, htonl, ntohl-htonl, length-htonl, read_at, read_word,
}
use just_for_test_and_try.Rsync.Copy.{
  Reads, Writes, read_at-Reads, copy_range-Copied, new_reader, new_writer-Writes,
}
use just_for_test_and_try.Rsync.Patch.{
  Stop, finished, patched, rounds, patch_loop, outcome, patch_file,
}

-- The bytes of a piece in the delta.
abbrev pub encode_node : List ℕ → OffsetNode → List ℕ
encode_node new n =
    if n.from
    then (0 ∷ []) ++ (htonl n.length_of ++ slice n.offset n.length_of new)
    else (0xff ∷ []) ++ (htonl n.offset ++ htonl n.length_of)

abbrev pub encode_nodes : List ℕ → List OffsetNode → List ℕ
encode_nodes new [] = []
encode_nodes new (n ∷ ns) = encode_node new n ++ encode_nodes new ns

-- The bytes that a piece stands for.
abbrev pub rebuild_node : List ℕ → List ℕ → OffsetNode → List ℕ
rebuild_node old new n = slice n.offset n.length_of (if n.from then new else old)

abbrev pub rebuild : List ℕ → List ℕ → List OffsetNode → List ℕ
rebuild old new [] = []
rebuild old new (n ∷ ns) = rebuild_node old new n ++ rebuild old new ns

-- A piece lies in its file.
abbrev pub Inside : List ℕ → List ℕ → OffsetNode → Type 0
Inside old new n = n.offset + n.length_of ≤ length (if n.from then new else old)

abbrev pub AllInside : List ℕ → List ℕ → List OffsetNode → Type 0
AllInside old new [] = Unit {0}
AllInside old new (n ∷ ns) = Inside old new n × AllInside old new ns

-- A word that stands at a place is read from there.
pub read_word-htonl :
    (m : FileMap) (file : List ℕ) (at v : ℕ) (rest : List ℕ)
    → Reads m file
    → at ≤ length file
    → v < 2 ^ 32
    → drop at file ≡ htonl v ++ rest
    → (m' : FileMap) × (read_word m file at ≡ some (v, m'))
      × Reads m' file
      × (drop (at + 4) file ≡ rest)
      × (at + 4 ≤ length file)
unfolding read_word
read_word-htonl m file at v rest r h small e =
    let (cut, more, le) = peel at file (htonl v) rest h e in
    let four = length-htonl v in
    let le4 : at + 4 ≤ length file = omega arith in
    let cut4 : slice at 4 file ≡ htonl v = ap (λ k. slice at k file) (sym four) ∙ cut in
    let more4 : drop (at + 4) file ≡ rest = ap (λ k. drop (at + k) file) (sym four) ∙ more in
    let (m', e', r') = read_at-Reads m file at 4 r le4 in
    (m', rw (e', cut4, ntohl-htonl v small), r', more4, le4)

read_tag :
    (m : FileMap) (file : List ℕ) (at b : ℕ) (rest : List ℕ)
    → Reads m file
    → at ≤ length file
    → drop at file ≡ b ∷ rest
    → (m' : FileMap) × (read_at m file at 1 ≡ some (b ∷ [], m'))
      × Reads m' file
      × (drop (at + 1) file ≡ rest)
      × (at + 1 ≤ length file)
read_tag m file at b rest r h e =
    let (cut, more, le) = peel at file (b ∷ []) rest h e in
    let (m', e', r') = read_at-Reads m file at 1 r le in
    (m', e' ∙ ap (λ k. some (k, m')) cut, r', more, le)

pub rounds_small : (n : ℕ) → n < int_limit → rounds n ≡ n
unfolding rounds
rounds_small n h = rw (lt→ltb n int_limit h)

-- The state of the loop before the pieces `ns`.
record Ready (old new delta : List ℕ) (ns : List OffsetNode) (dm om : FileMap) (w : WriteFileMap)
    (at : ℕ) : Type 0 where
  delta_reads : Reads dm delta
  old_reads : Reads om old
  writes : Writes w
  at_in : at ≤ length delta
  rest : drop at delta ≡ encode_nodes new ns

-- The loop is left with `bytes` added.
abbrev Ends : Option Stop → WriteFileMap → List ℕ → Type 0
Ends r w bytes = (w' : WriteFileMap) × (r ≡ some (finished w')) × (output w' ≡ output w ++ bytes)

module _ (old new delta : List ℕ) (old_small : length old < int_limit)
    (new_small : length new < int_limit) where
  patch_literal :
      (offset n : ℕ) (ns : List OffsetNode) (dm om : FileMap) (w : WriteFileMap) (at : ℕ)
      → offset + n ≤ length new
      → Ready old new delta (record { from = true; offset = offset; length_of = n } ∷ ns) dm om w at
      → ((dm' om' : FileMap) (w' : WriteFileMap) (at' : ℕ)
          → Ready old new delta ns dm' om' w' at'
          → Ends (patch_loop (length ns) dm' delta at' om' old w') w' (rebuild old new ns))
      → Ends
          (patch_loop (suc (length ns)) dm delta at om old w)
          w
          (slice offset n new ++ rebuild old new ns)
  unfolding patch_loop
  patch_literal offset n ns dm om w at inside y next =
      let body = slice offset n new in
      let (m1, e1, r1, d1, l1) =
        read_tag dm delta at 0 ((htonl n ++ body) ++ encode_nodes new ns) y.delta_reads y.at_in
          y.rest in
      let (m2, e2, r2, d2, l2) =
        read_word-htonl m1 delta (at + 1) n (body ++ encode_nodes new ns) r1 l1 (omega arith)
          (d1 ∙ append_assoc (htonl n) body (encode_nodes new ns)) in
      let five : at + 1 + 4 ≡ at + 5 = omega arith in
      let len : length body ≡ n = length-slice offset n new inside in
      let (cut, d3, l3) =
        peel (at + 5) delta body (encode_nodes new ns) (omega arith) (rw five at d2) in
      let (m3, w3, e3, c) = copy_range-Copied m2 delta (at + 5) n w r2 y.writes (omega arith) in
      let (w', e', o) = next m3 om w3 (at + 5 + n) (record {
        delta_reads = c.reads;
        old_reads = y.old_reads;
        writes = c.writes;
        at_in = omega arith;
        rest = rw len at d3;
      }) in
      let added : slice (at + 5) n delta ≡ body = rw len at cut in
      (
        w',
        rw (e1, e2, rounds_small n (omega arith), e3) e',
        o ∙ rw (c.added, added) (append_assoc (output w) body (rebuild old new ns)),
      )

  patch_copy :
      (offset n : ℕ) (ns : List OffsetNode) (dm om : FileMap) (w : WriteFileMap) (at : ℕ)
      → offset + n ≤ length old
      → Ready old new delta
          (record { from = false; offset = offset; length_of = n } ∷ ns)
          dm
          om
          w
          at
      → ((dm' om' : FileMap) (w' : WriteFileMap) (at' : ℕ)
          → Ready old new delta ns dm' om' w' at'
          → Ends (patch_loop (length ns) dm' delta at' om' old w') w' (rebuild old new ns))
      → Ends
          (patch_loop (suc (length ns)) dm delta at om old w)
          w
          (slice offset n old ++ rebuild old new ns)
  unfolding patch_loop
  patch_copy offset n ns dm om w at inside y next =
      let (m1, e1, r1, d1, l1) =
        read_tag dm delta at 0xff ((htonl offset ++ htonl n) ++ encode_nodes new ns) y.delta_reads
          y.at_in y.rest in
      let (m2, e2, r2, d2, l2) =
        read_word-htonl m1 delta (at + 1) offset (htonl n ++ encode_nodes new ns) r1 l1
          (omega arith) (d1 ∙ append_assoc (htonl offset) (htonl n) (encode_nodes new ns)) in
      let five : at + 1 + 4 ≡ at + 5 = omega arith in
      let (m3, e3, r3, d3, l3) =
        read_word-htonl m2 delta (at + 5) n (encode_nodes new ns) r2 (omega arith) (omega arith)
          (rw five at d2) in
      let nine : at + 5 + 4 ≡ at + 9 = omega arith in
      let (om', w3, e4, c) = copy_range-Copied om old offset n w y.old_reads y.writes inside in
      let (w', e', o) = next m3 om' w3 (at + 9) (record {
        delta_reads = r3;
        old_reads = c.reads;
        writes = c.writes;
        at_in = omega arith;
        rest = rw nine at d3;
      }) in
      (
        w',
        rw (e1, e2, e3, lt→ltb offset int_limit (omega arith), rounds_small n (omega arith), e4) e',
        o ∙ rw c.added (append_assoc (output w) (slice offset n old) (rebuild old new ns)),
      )

  patch_piece :
      (b : Bool) (offset n : ℕ) (ns : List OffsetNode) (dm om : FileMap) (w : WriteFileMap) (at : ℕ)
      → let piece : OffsetNode = record { from = b; offset = offset; length_of = n } in
        Inside old new piece
        → Ready old new delta (piece ∷ ns) dm om w at
        → ((dm' om' : FileMap) (w' : WriteFileMap) (at' : ℕ)
            → Ready old new delta ns dm' om' w' at'
            → Ends (patch_loop (length ns) dm' delta at' om' old w') w' (rebuild old new ns))
        → Ends (patch_loop (suc (length ns)) dm delta at om old w) w (rebuild old new (piece ∷ ns))
  patch_piece true offset n ns dm om w at i y next = patch_literal offset n ns dm om w at i y next
  patch_piece false offset n ns dm om w at i y next = patch_copy offset n ns dm om w at i y next

  patch_loop-rebuild :
      (ns : List OffsetNode) (dm om : FileMap) (w : WriteFileMap) (at : ℕ)
      → AllInside old new ns
      → Ready old new delta ns dm om w at
      → Ends (patch_loop (length ns) dm delta at om old w) w (rebuild old new ns)
  unfolding patch_loop
  patch_loop-rebuild [] dm om w at i y = (w, refl, sym (append-nil (output w)))
  patch_loop-rebuild (n ∷ ns) dm om w at i y =
      patch_piece n.from n.offset n.length_of ns dm om w at i.0 y
        (λ dm' om' w' at' y'. patch_loop-rebuild ns dm' om' w' at' i.1 y')

-- A delta file of some pieces.
abbrev pub delta_of : List ℕ → List OffsetNode → List ℕ
delta_of new ns = htonl delta_magic ++ (htonl (length ns) ++ encode_nodes new ns)

-- PatchFile of the delta of some pieces, each of which lies in its file, writes the bytes that
-- the pieces stand for, if the old file, the new file and the delta are below 20 MiB and the
-- pieces are fewer than 2 ^ 31.
pub patch_file-rebuild :
    (junk garbage : ℕ) (old new : List ℕ) (ns : List OffsetNode)
    → length old < default_buffer_length
    → length new < default_buffer_length
    → length (delta_of new ns) < default_buffer_length
    → length ns < int_limit
    → AllInside old new ns
    → patch_file junk garbage old (delta_of new ns) ≡ some (patched (rebuild old new ns))
unfolding patch_file outcome
patch_file-rebuild junk garbage old new ns ho hn hd hc inside =
    let delta = delta_of new ns in
    let (dm, e0, r0) = new_reader junk garbage delta hd in
    let (om, e1, r1) = new_reader junk garbage old ho in
    let (m1, e2, r2, d2, l2) =
      read_word-htonl dm delta 0 delta_magic (htonl (length ns) ++ encode_nodes new ns) r0
        (omega arith) (omega arith) refl in
    let (m2, e3, r3, d3, l3) =
      read_word-htonl m1 delta 4 (length ns) (encode_nodes new ns) r2 l2 (omega arith) d2 in
    let (w, e4, o) =
      patch_loop-rebuild old new delta (omega arith) (omega arith) ns m2 om (new_writer junk) 8
        inside
        (record {
          delta_reads = r3;
          old_reads = r1;
          writes = new_writer-Writes junk;
          at_in = l3;
          rest = d3;
        }) in
    rw (
      e0,
      e2,
      e3,
      e1,
      rounds_small (length ns) hc,
      e4,
      close-output w,
      o,
      (new_writer-IsValid junk).1,
    )
