-- ===== src/Rsync/Tests.antt =====
-- Runs of the librsync model on small files: two blocks of two bytes, and a new file in which they
-- have changed places around a new byte. The digest is a padding to 16 bytes.
use just_for_test_and_try.Base.{
  ℕ, zero, suc, ◌%◌, ◌≤◌, ◌<◌, ◌≡◌, refl, ap₂, true, false, some, none, List, [], ◌∷◌, ◌++◌, arith,
  length, length-slice, take, drop, slice, replicate, ltb, if◌then◌else◌,
}
use just_for_test_and_try.Checksum.{AllBytes, hex_digit, hex, strong_sum}
use just_for_test_and_try.Rsync.{OffsetNode, ChunkInfo, htonl}
use just_for_test_and_try.Rsync.Scan.State.{IsDigest, NoCollision, AllDescribe, Sizes}
use just_for_test_and_try.CircleQueue.{new_queue, clear, push, put, peek, pop, advance}
use just_for_test_and_try.CircleQueue.Sliding.{fill}
use just_for_test_and_try.Checksum.Adler.{
  sum1, sum_blocks, sum_each, join, roll, new_checksum, init, update,
}
use just_for_test_and_try.FileMap.{
  FileMap, default_buffer_length, new_file_map, fread, map_file_content, reload, read_block,
}
use just_for_test_and_try.Base.{store}
use just_for_test_and_try.Rsync.{bytes_eq}
use just_for_test_and_try.Rsync.Scan.{
  scan_new_file, build_table, build_sums, scan_loop, scan_round, judge, compare_block, emit,
  found_nodes, roll_loop, last_nodes,
}
use just_for_test_and_try.Rsync.Scan.Pieces.{IsForward}
use just_for_test_and_try.Rsync.Patch.Apply.{AllInside, delta_of, rebuild, patch_file-rebuild}
use just_for_test_and_try.Rsync.Sig.{c_string, generate_sig_file, parse_meta_list}
use just_for_test_and_try.Rsync.Sig.Chunks.{chunks_of, sig_of, generate_sig_file_lem}
use just_for_test_and_try.Rsync.Sig.RoundTrip.{HasNul, Fits, parse_meta_list-sig_of}
use just_for_test_and_try.Checksum.Hex.{AllNonzero}
use just_for_test_and_try.Rsync.Copy.{Reads, copy_part_of_file, copy_part_of_file-slice}
use just_for_test_and_try.Rsync.Scan.Loop.{scan_new_file-rebuild, scan_new_file-total}
use just_for_test_and_try.Rsync.Patch.{patched, patch_file}
use just_for_test_and_try.Rsync.Delta.{delta, generate_delta_file}
use just_for_test_and_try.Rsync.Delta.RoundTrip.{
  sig_file, length-strong_sum, patch_file-generate_delta_file,
}

abbrev pad : ℕ → List ℕ → List ℕ
pad zero bs = []
pad (suc n) [] = 0 ∷ pad n []
pad (suc n) (b ∷ bs) = b % 256 ∷ pad n bs

abbrev md4 : List ℕ → List ℕ
md4 block = pad 16 block

length-pad : (n : ℕ) (bs : List ℕ) → length (pad n bs) ≡ n
length-pad zero bs = refl
length-pad (suc n) [] = omega (arith, length-pad n [])
length-pad (suc n) (b ∷ bs) = omega (arith, length-pad n bs)

pad-AllBytes : (n : ℕ) (bs : List ℕ) → AllBytes (pad n bs)
pad-AllBytes zero bs = tt
pad-AllBytes (suc n) [] = (omega arith, pad-AllBytes n [])
pad-AllBytes (suc n) (b ∷ bs) = (omega arith, pad-AllBytes n bs)

md4-IsDigest : IsDigest md4
md4-IsDigest = record { size = λ b. length-pad 16 b; bytes = λ b. pad-AllBytes 16 b }

head_eq : (a b : ℕ) (xs ys : List ℕ) → a ∷ xs ≡ b ∷ ys → (a ≡ b) × (xs ≡ ys)
head_eq a b xs ys h = (cc, cc)

pad_cancel :
    (n : ℕ) (xs ys : List ℕ)
    → length xs ≤ n
    → length xs ≡ length ys
    → AllBytes xs
    → AllBytes ys
    → pad n xs ≡ pad n ys
    → xs ≡ ys
pad_cancel n [] [] h e bx by p = refl
pad_cancel n [] (y ∷ ys) h e bx by p = absurd (omega (arith, e))
pad_cancel n (x ∷ xs) [] h e bx by p = absurd (omega (arith, e))
pad_cancel zero (x ∷ xs) (y ∷ ys) h e bx by p = absurd (omega (arith, h))
pad_cancel (suc n) (x ∷ xs) (y ∷ ys) h e bx by p =
    let (same, rest) = head_eq (x % 256) (y % 256) (pad n xs) (pad n ys) p in
    ap₂ ◌∷◌ (omega (arith, bx.0, by.0))
      (pad_cancel n xs ys (omega (arith, h)) (omega (arith, e)) bx.1 by.1 rest)

drop-AllBytes : (n : ℕ) (bs : List ℕ) → AllBytes bs → AllBytes (drop n bs)
drop-AllBytes zero bs h = h
drop-AllBytes (suc n) [] h = tt
drop-AllBytes (suc n) (b ∷ bs) h = drop-AllBytes n bs h.1

take-AllBytes : (n : ℕ) (bs : List ℕ) → AllBytes bs → AllBytes (take n bs)
take-AllBytes zero bs h = tt
take-AllBytes (suc n) [] h = tt
take-AllBytes (suc n) (b ∷ bs) h = (h.0, take-AllBytes n bs h.1)

-- The padding tells blocks of at most 16 bytes apart.
md4-NoCollision :
    (c : ℕ) (old new : List ℕ) → c ≤ 16 → AllBytes old → AllBytes new → NoCollision c md4 old new
md4-NoCollision c old new le bo bn i j hi hj e =
    let li : length (slice i c new) ≡ c = length-slice i c new hi in
    let lj : length (slice j c old) ≡ c = length-slice j c old hj in
    pad_cancel 16 (slice i c new) (slice j c old) (omega arith) (omega arith)
      (take-AllBytes c (drop i new) (drop-AllBytes i new bn))
      (take-AllBytes c (drop j old) (drop-AllBytes j old bo)) e

abbrev old_file : List ℕ
old_file = 1 ∷ 2 ∷ 3 ∷ 4 ∷ []

abbrev new_file : List ℕ
new_file = 3 ∷ 4 ∷ 9 ∷ 1 ∷ 2 ∷ []

old_file-AllBytes : AllBytes old_file
old_file-AllBytes = (omega arith, (omega arith, (omega arith, (omega arith, tt))))

new_file-AllBytes : AllBytes new_file
new_file-AllBytes = (omega arith, (omega arith, (omega arith, (omega arith, (omega arith, tt)))))

files-NoCollision : NoCollision 2 md4 old_file new_file
files-NoCollision =
    md4-NoCollision 2 old_file new_file (omega arith) old_file-AllBytes new_file-AllBytes

files-Sizes : Sizes 4 2 new_file
files-Sizes = record {
  chunk = omega arith;
  chunk_limit = omega arith;
  room_limit = omega arith;
  file_limit = omega arith;
}

-- The second block, the new byte, the first block.
abbrev nodes : List OffsetNode
nodes =
    record { from = false; offset = 2; length_of = 2 }
    ∷ record { from = true; offset = 2; length_of = 1 }
    ∷ record { from = false; offset = 0; length_of = 2 }
    ∷ []

nodes-IsForward : IsForward new_file nodes
nodes-IsForward = record {
  small = (omega arith, (omega arith, (omega arith, tt)));
  short = omega arith;
}

nodes-AllInside : AllInside old_file new_file nodes
nodes-AllInside = (omega arith, (omega arith, (omega arith, tt)))

nodes_scanned : scan_new_file 4 2 md4 0 0 (chunks_of 2 md4 old_file) new_file ≡ some nodes
unfolding scan_new_file build_table build_sums new_file_map fread new_checksum new_queue scan_loop
    scan_round map_file_content reload init fill clear push put store sum1 sum_blocks sum_each join
    judge compare_block read_block strong_sum hex hex_digit bytes_eq emit found_nodes roll_loop
    update peek pop advance roll last_nodes
nodes_scanned = refl

nodes_described : AllDescribe 2 md4 old_file (chunks_of 2 md4 old_file)
nodes_described = (
  record { in_old = omega arith; strong = refl },
  (record { in_old = omega arith; strong = refl }, tt),
)

spare-HasNul : HasNul (0 ∷ 0 ∷ [])
unfolding c_string
spare-HasNul = ([], refl)

delta_limit : length (delta_of new_file nodes) < default_buffer_length
unfolding htonl
delta_limit = omega arith

tail-HasNul : HasNul (7 ∷ 0 ∷ [])
unfolding c_string
tail-HasNul = (7 ∷ [], refl)

patch_file-generate_delta_file_example :
    (generate_sig_file 2 md4 0 0 old_file ≡ some (sig_file 2 md4 old_file))
    × (generate_delta_file 4 2 md4 0 0 (0 ∷ 0 ∷ []) new_file (some (sig_file 2 md4 old_file))
        ≡ some (delta (delta_of new_file nodes)))
    × (patch_file 0 0 old_file (delta_of new_file nodes) ≡ some (patched new_file))
patch_file-generate_delta_file_example =
    patch_file-generate_delta_file 4 2 md4 0 0 (0 ∷ 0 ∷ []) old_file new_file md4-IsDigest
      files-NoCollision files-Sizes (omega arith) (omega arith) (omega arith) spare-HasNul nodes
      nodes_scanned nodes-IsForward delta_limit

scan_new_file-rebuild_example :
    (rebuild old_file new_file nodes ≡ new_file) × AllInside old_file new_file nodes
scan_new_file-rebuild_example =
    scan_new_file-rebuild 4 2 md4 old_file new_file md4-IsDigest files-NoCollision files-Sizes 0 0
      (chunks_of 2 md4 old_file) nodes_described nodes nodes_scanned nodes-IsForward

scan_new_file-total_example :
    (ns : List OffsetNode) × (scan_new_file 4 2 md4 0 0 (chunks_of 2 md4 old_file) new_file
      ≡ some ns)
scan_new_file-total_example =
    scan_new_file-total 4 2 md4 old_file new_file md4-IsDigest files-NoCollision files-Sizes 0 0
      (chunks_of 2 md4 old_file) nodes_described

patch_file-rebuild_example :
    patch_file 0 0 old_file (delta_of new_file nodes)
    ≡ some (patched (rebuild old_file new_file nodes))
patch_file-rebuild_example =
    patch_file-rebuild 0 0 old_file new_file nodes (omega arith) (omega arith) delta_limit
      (omega arith) nodes-AllInside

-- One entry, with a printed sum of 32 characters.
abbrev entry : ChunkInfo
entry = record {
  weak_sum = 0x10203;
  from = true;
  offset = 4;
  length_of = 2;
  strong_sum = replicate 32 65;
}

letters-AllNonzero : (n : ℕ) → AllNonzero (replicate n 65)
letters-AllNonzero zero = tt
letters-AllNonzero (suc n) = (omega arith, letters-AllNonzero n)

entry-Fits : Fits entry
entry-Fits = record {
  weak = omega arith;
  offset = omega arith;
  length_of = omega arith;
  strong = refl;
  printed = letters-AllNonzero 32;
}

parse_meta_list-sig_of_example :
    parse_meta_list (sig_of 2 (entry ∷ entry ∷ []) ++ (7 ∷ 0 ∷ []))
    ≡ some (some (entry ∷ entry ∷ []))
parse_meta_list-sig_of_example =
    parse_meta_list-sig_of 2 (entry ∷ entry ∷ []) (7 ∷ 0 ∷ []) (omega arith) (omega arith)
      (entry-Fits, (entry-Fits, tt)) tail-HasNul

generate_sig_file_lem_example :
    generate_sig_file 2 md4 0 0 old_file ≡ some (sig_of 2 (chunks_of 2 md4 old_file))
generate_sig_file_lem_example =
    generate_sig_file_lem 2 md4 0 0 old_file (omega arith)
      (λ b. omega (arith, length-strong_sum md4 md4-IsDigest b))

copy_part_of_file-slice_example :
    copy_part_of_file 0 0 new_file 1 3
    ≡ (if ltb (length new_file) 1 then some none else some (some (slice 1 3 new_file)))
copy_part_of_file-slice_example =
    copy_part_of_file-slice 0 0 new_file 1 3 (omega arith) (omega arith)

abbrev reader : FileMap
reader = record { buffer = new_file; offset = 0; buffer_length = 5; length_of = 5; file_size = 5 }

reader-Reads : Reads reader new_file
reader-Reads = record {
  valid = record {
    size = refl;
    room = refl;
    within = omega arith;
    inside = omega arith;
    bytes = refl;
    small = omega arith;
  };
  whole = refl;
}
