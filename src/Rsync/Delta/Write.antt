-- ===== src/Rsync/Delta/Write.antt =====
-- The delta that `GenerateDeltaFile` writes for a list of pieces.
use just_for_test_and_try.Base.{
  ℕ, ◌≤◌, ◌≡◌, refl, sym, ◌∙◌, Bool, true, false, Option, some, List, [], ◌∷◌, ◌++◌, append-nil,
  append_assoc, arith, length, length-slice, slice,
}
use just_for_test_and_try.FileMap.{FileMap}
use just_for_test_and_try.FileWriter.{WriteFileMap, default_capacity, new_writer, append_data}
use just_for_test_and_try.FileWriter.Output as Output
use just_for_test_and_try.FileWriter.Output.{
  output, append_data-added, new_writer-IsValid, close-output,
}
use just_for_test_and_try.Rsync.{OffsetNode, delta_magic, htonl, length-htonl}
use just_for_test_and_try.Rsync.Copy.{Reads, read_at-Reads, new_reader}
use just_for_test_and_try.Rsync.Patch.Apply.{encode_node, encode_nodes, Inside, AllInside, delta_of}
use just_for_test_and_try.Rsync.Delta.{append_node, append_nodes, delta, write_delta}

-- A writer with its full buffer.
record Writes (w : WriteFileMap) : Type 0 where
  valid : Output.IsValid w
  room : w.capacity ≡ default_capacity

abbrev Adds : Option WriteFileMap → WriteFileMap → List ℕ → Type 0
Adds r w bytes = (w' : WriteFileMap) × (r ≡ some w') × Writes w' × (output w' ≡ output w ++ bytes)

append-Adds :
    (w : WriteFileMap) (bytes : List ℕ)
    → Writes w
    → length bytes ≤ default_capacity
    → Adds (append_data w bytes) w bytes
append-Adds w bytes h fits =
    let (w', e, v, o, c) = append_data-added w bytes h.valid (omega (arith, h.room)) in
    (w', e, record { valid = v; room = c ∙ h.room }, o)

word-Adds : (w : WriteFileMap) (v : ℕ) → Writes w → Adds (append_data w (htonl v)) w (htonl v)
word-Adds w v h = append-Adds w (htonl v) h (omega (arith, length-htonl v))

abbrev AddsNode : Option (FileMap × WriteFileMap) → List ℕ → WriteFileMap → List ℕ → Type 0
AddsNode r new w bytes =
    (m' : FileMap) × (w' : WriteFileMap) × (r ≡ some (m', w'))
    × Reads m' new
    × Writes w'
    × (output w' ≡ output w ++ bytes)

new_writer-room : (junk : ℕ) → (new_writer junk).capacity ≡ default_capacity
unfolding new_writer
new_writer-room junk = refl

module _ (old new : List ℕ) (short : length new ≤ default_capacity) where
  append_node-Adds :
      (b : Bool) (offset n : ℕ) (m : FileMap) (w : WriteFileMap)
      → let node : OffsetNode = record { from = b; offset = offset; length_of = n } in
        Reads m new
        → Writes w
        → Inside old new node
        → AddsNode (append_node m new w node) new w (encode_node new node)
  unfolding append_node
  append_node-Adds true offset n m w r h inside =
      let (w1, e1, h1, o1) = append-Adds w (0 ∷ []) h (omega arith) in
      let (w2, e2, h2, o2) = word-Adds w1 n h1 in
      let (m', e3, r') = read_at-Reads m new offset n r inside in
      let (w3, e4, h3, o3) =
        append-Adds w2 (slice offset n new) h2 (omega (arith, length-slice offset n new inside)) in
      (m', w3, rw (e1, e2, e3, e4), r', h3, rw (o3, o2, o1) (simp append_assoc))
  append_node-Adds false offset n m w r h inside =
      let (w1, e1, h1, o1) = append-Adds w (0xff ∷ []) h (omega arith) in
      let (w2, e2, h2, o2) = word-Adds w1 offset h1 in
      let (w3, e3, h3, o3) = word-Adds w2 n h2 in
      (m, w3, rw (e1, e2, e3), r, h3, rw (o3, o2, o1) (simp append_assoc))

  append_nodes-Adds :
      (ns : List OffsetNode) (m : FileMap) (w : WriteFileMap)
      → Reads m new
      → Writes w
      → AllInside old new ns
      → Adds (append_nodes m new w ns) w (encode_nodes new ns)
  unfolding append_nodes
  append_nodes-Adds [] m w r h i = (w, refl, h, sym (append-nil (output w)))
  append_nodes-Adds (n ∷ ns) m w r h i =
      let (m1, w1, e1, r1, h1, o1) = append_node-Adds n.from n.offset n.length_of m w r h i.0 in
      let (w2, e2, h2, o2) = append_nodes-Adds ns m1 w1 r1 h1 i.1 in
      (
        w2,
        rw e1 e2,
        h2,
        rw (o2, o1) (append_assoc (output w) (encode_node new n) (encode_nodes new ns)),
      )

  -- The delta of pieces that lie in their files is written as it is read.
  pub write_delta_lem :
      (junk garbage : ℕ) (ns : List OffsetNode)
      → AllInside old new ns
      → write_delta junk garbage new ns ≡ some (delta (delta_of new ns))
  unfolding write_delta
  write_delta_lem junk garbage ns inside =
      let (m, e, r) = new_reader junk garbage new (omega arith) in
      let start : Writes (new_writer junk) = record {
        valid = (new_writer-IsValid junk).0;
        room = new_writer-room junk;
      } in
      let (w1, e1, h1, o1) = word-Adds (new_writer junk) delta_magic start in
      let (w2, e2, h2, o2) = word-Adds w1 (length ns) h1 in
      let (w3, e3, h3, o3) = append_nodes-Adds ns m w2 r h2 inside in
      rw (e, e1, e2, e3, close-output w3, o3, o2, o1, (new_writer-IsValid junk).1)
        (simp append_assoc)
