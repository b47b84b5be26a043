-- ===== src/Rsync/Delta/RoundTrip.antt =====
-- `GenerateSigFile`, `GenerateDeltaFile` and `PatchFile` of rsync_core.cpp, one after the other.
use native.Mathlib.Nat.{div-mul-le_self}
use just_for_test_and_try.Base.{
  ℕ, zero, suc, ◌+◌, ◌*◌, ◌/◌, ◌^◌, ◌≤◌, ◌<◌, ◌≡◌, refl, ap, ◌∙◌, Bool, true, false, some, List, [],
  ◌∷◌, arith, length, length-append, slice, int_limit, le→ltb,
}
use just_for_test_and_try.Checksum.{strong_sum}
use just_for_test_and_try.Checksum.Hex.{AllNonzero, length-hex, hex-AllNonzero}
use just_for_test_and_try.Checksum.Adler.{sum1, join}
use just_for_test_and_try.FileMap.{default_buffer_length}
use just_for_test_and_try.FileWriter.{default_capacity}
use just_for_test_and_try.Rsync.{OffsetNode, htonl}
use just_for_test_and_try.Rsync.Sig.{generate_sig_file}
use just_for_test_and_try.Rsync.Sig.Chunks.{chunks_from, chunks_of, sig_of, generate_sig_file_lem}
use just_for_test_and_try.Rsync.Sig.RoundTrip.{HasNul, AllFit, parse_meta_list-sig_of}
use just_for_test_and_try.Rsync.Scan.{scan_new_file}
use just_for_test_and_try.Rsync.Scan.State.{IsDigest, NoCollision, AllDescribe, Sizes}
use just_for_test_and_try.Rsync.Scan.Pieces.{IsForward}
use just_for_test_and_try.Rsync.Scan.Loop.{scan_new_file-rebuild}
use just_for_test_and_try.Rsync.Patch.{patched, patch_file}
use just_for_test_and_try.Rsync.Patch.Apply.{
  encode_node, encode_nodes, delta_of, patch_file-rebuild,
}
use just_for_test_and_try.Rsync.Delta.{delta, generate_delta_file}
use just_for_test_and_try.Rsync.Delta.Write.{write_delta_lem}

sum1-lt : (bytes : List ℕ) → sum1 bytes < 2 ^ 32
unfolding sum1 join
sum1-lt bytes = omega arith

pub length-strong_sum :
    (md4 : List ℕ → List ℕ) (digest : IsDigest md4) (b : List ℕ) → length (strong_sum md4 b) ≡ 32
unfolding strong_sum
length-strong_sum md4 digest b = omega (arith, length-hex (md4 b), digest.size b)

strong_sum-AllNonzero : (md4 : List ℕ → List ℕ) (b : List ℕ) → AllNonzero (strong_sum md4 b)
unfolding strong_sum
strong_sum-AllNonzero md4 b = hex-AllNonzero (md4 b)

module _ (c : ℕ) (md4 : List ℕ → List ℕ) (digest : IsDigest md4) (old : List ℕ)
    (small : length old < default_buffer_length) where
  chunks_from-AllDescribe :
      (i n : ℕ) → i * c + n * c ≤ length old → AllDescribe c md4 old (chunks_from c md4 old i n)
  chunks_from-AllDescribe i zero h = tt
  chunks_from-AllDescribe i (suc n) h = (
    record { in_old = omega arith; strong = refl },
    chunks_from-AllDescribe (i + 1) n (omega arith),
  )

  chunks_of-AllDescribe : AllDescribe c md4 old (chunks_of c md4 old)
  chunks_of-AllDescribe =
      chunks_from-AllDescribe 0 (length old / c) (omega (arith, div-mul-le_self (length old) c))

  chunks_from-AllFit : (i n : ℕ) → i * c + n * c ≤ length old → AllFit (chunks_from c md4 old i n)
  chunks_from-AllFit i zero h = tt
  chunks_from-AllFit i (suc n) h = (
    record {
      weak = sum1-lt (slice (i * c) c old);
      offset = omega arith;
      length_of = omega arith;
      strong = length-strong_sum md4 digest (slice (i * c) c old);
      printed = strong_sum-AllNonzero md4 (slice (i * c) c old);
    },
    chunks_from-AllFit (i + 1) n (omega arith),
  )

  chunks_of-AllFit : AllFit (chunks_of c md4 old)
  chunks_of-AllFit =
      chunks_from-AllFit 0 (length old / c) (omega (arith, div-mul-le_self (length old) c))

  length-chunks_from : (i n : ℕ) → length (chunks_from c md4 old i n) ≡ n
  length-chunks_from i zero = refl
  length-chunks_from i (suc n) = ap suc (length-chunks_from (i + 1) n)

length-encode_node :
    (new : List ℕ) (b : Bool) (offset n : ℕ)
    → let node : OffsetNode = record { from = b; offset = offset; length_of = n } in
      1 ≤ length (encode_node new node)
length-encode_node new true offset n = omega arith
length-encode_node new false offset n = omega arith

length-encode_nodes :
    (new : List ℕ) (ns : List OffsetNode) → length ns ≤ length (encode_nodes new ns)
length-encode_nodes new [] = omega arith
length-encode_nodes new (n ∷ ns) = omega (
  arith,
  length-append (encode_node new n) (encode_nodes new ns),
  length-encode_node new n.from n.offset n.length_of,
  length-encode_nodes new ns,
)

length-delta_of : (new : List ℕ) (ns : List OffsetNode) → length ns ≤ length (delta_of new ns)
unfolding htonl
length-delta_of new ns = omega (arith, length-encode_nodes new ns)

-- The signature file as `GenerateSigFile` writes it for the old file.
abbrev pub sig_file : ℕ → (List ℕ → List ℕ) → List ℕ → List ℕ
sig_file c md4 old = sig_of c (chunks_of c md4 old)

module _ (room c : ℕ) (md4 : List ℕ → List ℕ) (junk garbage : ℕ) (spare old new : List ℕ)
    (digest : IsDigest md4) (distinct : NoCollision c md4 old new) (sizes : Sizes room c new)
    (old_limit : length old < default_buffer_length) (new_limit : length new ≤ default_capacity)
    (whole : c ≤ length new) (nul : HasNul spare) where
  -- The delta of a signed old file is that of the pieces that the scan finds, once they go forward.
  pub generate_delta_file_lem :
      (ns : List OffsetNode)
      → scan_new_file room c md4 junk garbage (chunks_of c md4 old) new ≡ some ns
      → IsForward new ns
      → generate_delta_file room c md4 junk garbage spare new (some (sig_file c md4 old))
        ≡ some (delta (delta_of new ns))
  unfolding generate_delta_file
  generate_delta_file_lem ns scan forward =
      let chunks = chunks_of c md4 old in
      let (_, inside) =
        scan_new_file-rebuild room c md4 old new digest distinct sizes junk garbage chunks
          (chunks_of-AllDescribe c md4 digest old old_limit) ns scan forward in
      let count : length chunks < int_limit =
        omega (arith, length-chunks_from c md4 digest old old_limit 0 (length old / c)) in
      let parsed =
        parse_meta_list-sig_of c chunks spare (omega (arith, sizes.chunk_limit, sizes.room_limit))
          count (chunks_of-AllFit c md4 digest old old_limit) nul in
      rw (
        parsed,
        scan,
        le→ltb (length new) c whole,
        write_delta_lem old new new_limit junk garbage ns inside,
      )

  -- Signing the old file, making the delta of the new one against that signature and patching the
  -- old file with that delta gives the new file: for files below 20 MiB, a new file of at least
  -- one block and of at most 4 MiB, a digest of 16 bytes that no window of the new file shares
  -- with a differing block of the old one, a NUL among the spare bytes behind the signature,
  -- pieces found by the scan of which none has a negative length and whose total is no longer
  -- than the new file, and a delta below 20 MiB.
  pub patch_file-generate_delta_file :
      (ns : List OffsetNode)
      → scan_new_file room c md4 junk garbage (chunks_of c md4 old) new ≡ some ns
      → IsForward new ns
      → length (delta_of new ns) < default_buffer_length
      → (generate_sig_file c md4 junk garbage old ≡ some (sig_file c md4 old))
        × (generate_delta_file room c md4 junk garbage spare new (some (sig_file c md4 old))
            ≡ some (delta (delta_of new ns)))
        × (patch_file junk garbage old (delta_of new ns) ≡ some (patched new))
  patch_file-generate_delta_file ns scan forward limit =
      let (bytes, inside) =
        scan_new_file-rebuild room c md4 old new digest distinct sizes junk garbage
          (chunks_of c md4 old) (chunks_of-AllDescribe c md4 digest old old_limit) ns scan
          forward in
      let count : length ns < int_limit = omega (arith, length-delta_of new ns) in
      (
        generate_sig_file_lem c md4 junk garbage old old_limit
            (λ b. omega (arith, length-strong_sum md4 digest b)),
        generate_delta_file_lem ns scan forward,
        patch_file-rebuild junk garbage old new ns old_limit sizes.file_limit limit count inside
            ∙ ap (λ k. some (patched k)) bytes,
      )
