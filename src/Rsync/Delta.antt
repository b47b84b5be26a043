-- ===== src/Rsync/Delta.antt =====
-- `GenerateDeltaFile` of rsync_core.cpp. `none` is undefined behaviour: a null list of blocks, a
-- piece of negative length, or one longer than the writer's buffer.
pub mod Write
pub mod RoundTrip
use just_for_test_and_try.Base.{
  ℕ, zero, suc, ◌+◌, ◌≡◌, Option, none, some, List, [], ◌∷◌, ◌++◌, ltb, if◌then◌else◌, length,
  ◌>>=◌,
}
use just_for_test_and_try.FileMap.{FileMap, new_file_map}
use just_for_test_and_try.FileWriter.{WriteFileMap, new_writer, append_data, close}
use just_for_test_and_try.Rsync.{OffsetNode, delta_magic, htonl, read_at}
use just_for_test_and_try.Rsync.Sig.{parse_meta_list}
use just_for_test_and_try.Rsync.Scan.{scan_new_file}

-- The body of the loop over `offset_list`. A negative length is a number of 2 ^ 31 or more, which
-- `read_at` refuses.
unfoldable pub append_node :
    FileMap → List ℕ → WriteFileMap → OffsetNode → Option (FileMap × WriteFileMap)
append_node m new w node =
    let literal = (do
      w1 ← append_data w (0 ∷ [])
      w2 ← append_data w1 (htonl node.length_of)
      (content, m') ← read_at m new node.offset node.length_of
      w3 ← append_data w2 content
      some (m', w3)) in
    let copy = (do
      w1 ← append_data w (0xff ∷ [])
      w2 ← append_data w1 (htonl node.offset)
      w3 ← append_data w2 (htonl node.length_of)
      some (m, w3)) in
    if node.from then literal else copy

unfoldable pub append_nodes :
    FileMap → List ℕ → WriteFileMap → List OffsetNode → Option WriteFileMap
append_nodes m new w [] = some w
append_nodes m new w (node ∷ nodes) = do
  (m', w') ← append_node m new w node
  append_nodes m' new w' nodes

-- A new file below CHUNK_SIZE gets no delta file, and the call reports success.
pub data DeltaResult : Type 0 where
  no_sig : DeltaResult
  too_small : DeltaResult
  delta : List ℕ → DeltaResult

-- The writing half of `GenerateDeltaFile`.
unfoldable pub write_delta : ℕ → ℕ → List ℕ → List OffsetNode → Option DeltaResult
write_delta junk garbage new nodes = do
  m ← new_file_map junk garbage new
  w1 ← append_data (new_writer junk) (htonl delta_magic)
  w2 ← append_data w1 (htonl (length nodes))
  w3 ← append_nodes m new w2 nodes
  some (delta (close w3))

-- `GenerateDeltaFile(new_file, sig_file, delta_file)`. `sig` is the signature file, if there is
-- one; it is read into a block that has two bytes more, `spare`.
unfoldable pub generate_delta_file :
    ℕ → ℕ → (List ℕ → List ℕ) → ℕ → ℕ → List ℕ → List ℕ → Option (List ℕ) → Option DeltaResult
generate_delta_file room chunk_size md4 junk garbage spare new none = some no_sig
generate_delta_file room chunk_size md4 junk garbage spare new (some sig) = do
  parsed ← parse_meta_list (sig ++ spare)
  chunks ← parsed
  nodes ← scan_new_file room chunk_size md4 junk garbage chunks new
  if ltb (length new) chunk_size then some too_small else write_delta junk garbage new nodes
