-- ===== src/Rsync/Sig/Chunks.antt =====
-- What `GenerateMetaList` and `GenerateSigFile` make of a file.
use native.Mathlib.Nat.{div-mul-le_self}
use just_for_test_and_try.Base.{
  ℕ, zero, suc, ◌+◌, ◌*◌, ◌/◌, ◌≤◌, ◌<◌, ◌≡◌, refl, sym, true, Option, some, List, [], ◌∷◌, ◌++◌,
  append-nil, append_assoc, arith, if◌then◌else◌, length, slice,
}
use just_for_test_and_try.Checksum.{strong_sum}
use just_for_test_and_try.Checksum.Adler.{sum1}
use just_for_test_and_try.FileMap.{FileMap, default_buffer_length}
use just_for_test_and_try.FileWriter.{WriteFileMap, new_writer, append_data}
use just_for_test_and_try.FileWriter.Output.{output, close-output, new_writer-IsValid}
use just_for_test_and_try.Rsync.{ChunkInfo, sig_magic, htonl, length-htonl}
use just_for_test_and_try.Rsync.Copy.{
  Reads, Writes, copy_length, read_at-Reads, append-Writes, new_reader, new_writer-Writes,
}
use just_for_test_and_try.Rsync.Sig.{
  generate_chunks, generate_meta_list, append_chunk, append_chunks, generate_sig_file,
}

-- Block `i` of a file, and `n` blocks from it on.
abbrev pub chunk_at : ℕ → (List ℕ → List ℕ) → List ℕ → ℕ → ChunkInfo
chunk_at c md4 old i = record {
  weak_sum = sum1 (slice (i * c) c old);
  from = true;
  offset = i * c;
  length_of = c;
  strong_sum = strong_sum md4 (slice (i * c) c old);
}

abbrev pub chunks_from : ℕ → (List ℕ → List ℕ) → List ℕ → ℕ → ℕ → List ChunkInfo
chunks_from c md4 old i zero = []
chunks_from c md4 old i (suc n) = chunk_at c md4 old i ∷ chunks_from c md4 old (i + 1) n

abbrev pub chunks_of : ℕ → (List ℕ → List ℕ) → List ℕ → List ChunkInfo
chunks_of c md4 old = chunks_from c md4 old 0 (length old / c)

-- The bytes of a block's entry in a signature.
abbrev pub encode_chunk : ChunkInfo → List ℕ
encode_chunk ch =
    (if ch.from then 0xff else 0)
    ∷ (htonl ch.weak_sum ++ (htonl ch.offset ++ (htonl ch.length_of ++ ch.strong_sum)))

abbrev pub encode_chunks : List ChunkInfo → List ℕ
encode_chunks [] = []
encode_chunks (ch ∷ chs) = encode_chunk ch ++ encode_chunks chs

abbrev pub sig_of : ℕ → List ChunkInfo → List ℕ
sig_of c chunks = htonl sig_magic ++ (htonl c ++ (htonl (length chunks) ++ encode_chunks chunks))

generate_chunks_lem :
    (c : ℕ) (md4 : List ℕ → List ℕ) (old : List ℕ) (n i : ℕ) (m : FileMap)
    → Reads m old
    → i * c + n * c ≤ length old
    → generate_chunks c md4 n i m old ≡ some (chunks_from c md4 old i n)
unfolding generate_chunks
generate_chunks_lem c md4 old zero i m r h = refl
generate_chunks_lem c md4 old (suc n) i m r h =
    let (m', e, r') = read_at-Reads m old (i * c) c r (omega arith) in
    rw (e, generate_chunks_lem c md4 old n (i + 1) m' r' (omega arith))

pub generate_meta_list_lem :
    (c : ℕ) (md4 : List ℕ → List ℕ) (junk garbage : ℕ) (old : List ℕ)
    → length old < default_buffer_length
    → generate_meta_list c md4 junk garbage old ≡ some (chunks_of c md4 old)
unfolding generate_meta_list
generate_meta_list_lem c md4 junk garbage old small =
    let (m, e, r) = new_reader junk garbage old small in
    rw e (
      generate_chunks_lem c md4 old (length old / c) 0 m r
        (omega (arith, div-mul-le_self (length old) c)))

-- A strong sum is short enough for a writer.
abbrev ShortSums : List ChunkInfo → Type 0
ShortSums [] = Unit {0}
ShortSums (ch ∷ chs) = (length ch.strong_sum ≤ copy_length) × ShortSums chs

-- One more piece in the writer.
abbrev Adds : Option WriteFileMap → WriteFileMap → List ℕ → Type 0
Adds r w bytes = (w' : WriteFileMap) × (r ≡ some w') × Writes w' × (output w' ≡ output w ++ bytes)

append_word : (w : WriteFileMap) (v : ℕ) → Writes w → Adds (append_data w (htonl v)) w (htonl v)
append_word w v h = append-Writes w (htonl v) h (omega (arith, length-htonl v))

append_chunk-Adds :
    (w : WriteFileMap) (ch : ChunkInfo)
    → Writes w
    → length ch.strong_sum ≤ copy_length
    → Adds (append_chunk w ch) w (encode_chunk ch)
unfolding append_chunk
append_chunk-Adds w ch h short =
    let tag : List ℕ = (if ch.from then 0xff else 0) ∷ [] in
    let (w1, e1, h1, o1) = append-Writes w tag h (omega arith) in
    let (w2, e2, h2, o2) = append_word w1 ch.weak_sum h1 in
    let (w3, e3, h3, o3) = append_word w2 ch.offset h2 in
    let (w4, e4, h4, o4) = append_word w3 ch.length_of h3 in
    let (w5, e5, h5, o5) = append-Writes w4 ch.strong_sum h4 short in
    (w5, rw (e1, e2, e3, e4) e5, h5, rw (o5, o4, o3, o2, o1) (simp append_assoc))

append_chunks-Adds :
    (w : WriteFileMap) (chs : List ChunkInfo)
    → Writes w
    → ShortSums chs
    → Adds (append_chunks w chs) w (encode_chunks chs)
unfolding append_chunks
append_chunks-Adds w [] h s = (w, refl, h, sym (append-nil (output w)))
append_chunks-Adds w (ch ∷ chs) h s =
    let (w1, e1, h1, o1) = append_chunk-Adds w ch h s.0 in
    let (w2, e2, h2, o2) = append_chunks-Adds w1 chs h1 s.1 in
    (w2, rw e1 e2, h2, rw (o2, o1) (append_assoc (output w) (encode_chunk ch) (encode_chunks chs)))

chunks_from-ShortSums :
    (c : ℕ) (md4 : List ℕ → List ℕ) (old : List ℕ) (i n : ℕ)
    → ((b : List ℕ) → length (strong_sum md4 b) ≤ copy_length)
    → ShortSums (chunks_from c md4 old i n)
chunks_from-ShortSums c md4 old i zero h = tt
chunks_from-ShortSums c md4 old i (suc n) h =
    (h (slice (i * c) c old), chunks_from-ShortSums c md4 old (i + 1) n h)

-- GenerateSigFile writes the magic number, the block size, the number of blocks and one entry for
-- each whole block of the old file, with the sums of its bytes, for an old file below 20 MiB and
-- printed digests of at most 4096 characters.
pub generate_sig_file_lem :
    (c : ℕ) (md4 : List ℕ → List ℕ) (junk garbage : ℕ) (old : List ℕ)
    → length old < default_buffer_length
    → ((b : List ℕ) → length (strong_sum md4 b) ≤ copy_length)
    → generate_sig_file c md4 junk garbage old ≡ some (sig_of c (chunks_of c md4 old))
unfolding generate_sig_file
generate_sig_file_lem c md4 junk garbage old small short =
    let chs = chunks_of c md4 old in
    let (w1, e1, h1, o1) = append_word (new_writer junk) sig_magic (new_writer-Writes junk) in
    let (w2, e2, h2, o2) = append_word w1 c h1 in
    let (w3, e3, h3, o3) = append_word w2 (length chs) h2 in
    let (w4, e4, h4, o4) =
      append_chunks-Adds w3 chs h3 (chunks_from-ShortSums c md4 old 0 (length old / c) short) in
    rw
      (
        generate_meta_list_lem c md4 junk garbage old small,
        e1,
        e2,
        e3,
        e4,
        close-output w4,
        o4,
        o3,
        o2,
        o1,
        (new_writer-IsValid junk).1,
      )
      (simp append_assoc)
