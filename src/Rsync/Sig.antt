-- ===== src/Rsync/Sig.antt =====
-- `GenerateMetaList`, `GenerateSigFile` and `ParseMetaList` of rsync_core.cpp. `none` is undefined
-- behaviour.
pub mod Chunks
pub mod RoundTrip
use just_for_test_and_try.Base.{
  ℕ, zero, suc, ◌+◌, ◌*◌, ◌/◌, ◌≡◌, Bool, true, false, not, Option, none, some, List, [], ◌∷◌, ltb,
  ◌==◌, if◌then◌else◌, length, take, drop, ◌>>=◌,
}
use just_for_test_and_try.Checksum.{strong_sum}
use just_for_test_and_try.Checksum.Adler.{sum1}
use just_for_test_and_try.FileMap.{FileMap, new_file_map}
use just_for_test_and_try.FileWriter.{WriteFileMap, new_writer, append_data, close}
use just_for_test_and_try.Rsync.{ChunkInfo, sig_magic, htonl, ntohl, read_at}
use just_for_test_and_try.Rsync.Patch.{rounds}

module _ (chunk_size : ℕ) (md4 : List ℕ → List ℕ) where
  -- The loop of `GenerateMetaList` from block `i` on. What is left of the file behind its last
  -- whole block is passed over (`last > 0 && false`).
  unfoldable pub generate_chunks : ℕ → ℕ → FileMap → List ℕ → Option (List ChunkInfo)
  generate_chunks zero i m old = some []
  generate_chunks (suc left) i m old = do
    (block, m') ← read_at m old (i * chunk_size) chunk_size
    rest ← generate_chunks left (i + 1) m' old
    some (
        record {
          weak_sum = sum1 block;
          from = true;
          offset = i * chunk_size;
          length_of = chunk_size;
          strong_sum = strong_sum md4 block;
        }
        ∷ rest)

  unfoldable pub generate_meta_list : ℕ → ℕ → List ℕ → Option (List ChunkInfo)
  generate_meta_list junk garbage old = do
    m ← new_file_map junk garbage old
    generate_chunks (length old / chunk_size) 0 m old

-- The `AppendData` calls of `GenerateSigFile` for one block.
unfoldable pub append_chunk : WriteFileMap → ChunkInfo → Option WriteFileMap
append_chunk w chunk = do
  w1 ← append_data w ((if chunk.from then 0xff else 0) ∷ [])
  w2 ← append_data w1 (htonl chunk.weak_sum)
  w3 ← append_data w2 (htonl chunk.offset)
  w4 ← append_data w3 (htonl chunk.length_of)
  append_data w4 chunk.strong_sum

unfoldable pub append_chunks : WriteFileMap → List ChunkInfo → Option WriteFileMap
append_chunks w [] = some w
append_chunks w (chunk ∷ chunks) = do w' ← append_chunk w chunk; append_chunks w' chunks

-- `GenerateSigFile(old_file, sig_file)`: the signature file.
unfoldable pub generate_sig_file : ℕ → (List ℕ → List ℕ) → ℕ → ℕ → List ℕ → Option (List ℕ)
generate_sig_file chunk_size md4 junk garbage old = do
  chunks ← generate_meta_list chunk_size md4 junk garbage old
  w1 ← append_data (new_writer junk) (htonl sig_magic)
  w2 ← append_data w1 (htonl chunk_size)
  w3 ← append_data w2 (htonl (length chunks))
  w4 ← append_chunks w3 chunks
  some (close w4)

-- The text at a `char*`, up to its NUL; a block with none is read past its end.
unfoldable pub c_string : List ℕ → Option (List ℕ)
c_string [] = none
c_string (b ∷ bs) =
    let rest = c_string bs in if b == 0 then some [] else (do s ← rest; some (b ∷ s))

-- One round of the loop of `ParseMetaList`. `string(buf, 0, 32)` makes a string of the whole text
-- at `buf` first, and takes its first 32 characters.
unfoldable pub parse_chunk : List ℕ → Option (ChunkInfo × List ℕ)
parse_chunk [] = none
parse_chunk (tag ∷ buf) = do
  weak_sum ← ntohl buf
  offset ← ntohl (drop 4 buf)
  length_of ← ntohl (drop 8 buf)
  text ← c_string (drop 12 buf)
  some (
    record {
      weak_sum = weak_sum;
      from = not (tag == 0);
      offset = offset;
      length_of = length_of;
      strong_sum = take 32 text;
    },
    drop 44 buf,
  )

unfoldable pub parse_chunks : ℕ → List ℕ → Option (List ChunkInfo)
parse_chunks zero buf = some []
parse_chunks (suc left) buf = do
  (chunk, rest) ← parse_chunk buf
  chunks ← parse_chunks left rest
  some (chunk ∷ chunks)

-- `ParseMetaList(buf)`: `some none` is NULL, for a wrong magic number.
unfoldable pub parse_meta_list : List ℕ → Option (Option (List ChunkInfo))
parse_meta_list buf = do
  magic ← ntohl buf
  let go = (do
    chunk_size ← ntohl (drop 4 buf)
    count ← ntohl (drop 8 buf)
    chunks ← parse_chunks (rounds count) (drop 12 buf)
    some (some chunks))
  if magic == sig_magic then go else some none
