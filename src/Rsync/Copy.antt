-- ===== src/Rsync/Copy.antt =====
-- The loop that copies a stretch of a file in pieces of 4096 bytes: twice in `PatchFile` of
-- rsync_core.cpp, and in `copy_part_of_file` of file_tool.cpp.
use just_for_test_and_try.Base.{
  ℕ, zero, suc, ◌+◌, ◌-◌, ◌*◌, ◌/◌, ◌%◌, ◌≤◌, ◌<◌, ◌≡◌, ap, sym, ◌∙◌, inl, inr, Bool-cases, Option,
  none, some, List, [], ◌++◌, append-nil, append_assoc, arith, ltb, if◌then◌else◌, length, drop,
  slice, length-drop, take-length, length-slice, slice-add, ◌>>=◌, ◌>>◌, require, int_limit, lt→ltb,
}
use just_for_test_and_try.FileMap.{FileMap, default_buffer_length, new_file_map}
use just_for_test_and_try.FileMap.Contents as Contents
use just_for_test_and_try.FileMap.Contents.{
  map_file_content-Maps, read_block-Maps, new_file_map-IsValid,
}
use just_for_test_and_try.FileWriter.{WriteFileMap, new_writer, append_data, close}
use just_for_test_and_try.FileWriter.Output as Output
use just_for_test_and_try.FileWriter.Output.{
  output, append_data-added, new_writer-IsValid, close-output,
}
use just_for_test_and_try.Rsync.{read_at}

-- WRITE_LENGTH_OF_OLD_FILE, and COPY_LENGTH of file_tool.cpp
abbrev pub copy_length : ℕ
copy_length = 4096

unfoldable pub copy_blocks :
    FileMap → List ℕ → ℕ → WriteFileMap → ℕ → Option (FileMap × ℕ × WriteFileMap)
copy_blocks m file at w zero = some (m, at, w)
copy_blocks m file at w (suc left) = do
  (block, m') ← read_at m file at copy_length
  w' ← append_data w block
  copy_blocks m' file (at + copy_length) w' left

unfoldable pub copy_range :
    FileMap → List ℕ → ℕ → WriteFileMap → ℕ → Option (FileMap × ℕ × WriteFileMap)
copy_range m file at w n = do
  (m', at', w') ← copy_blocks m file at w (n / copy_length)
  let last = n % copy_length
  if ltb 0 last
      then (do
        (block, m2) ← read_at m' file at' last
        w2 ← append_data w' block
        some (m2, at' + last, w2))
      else some (m', at', w')

-- `copy_part_of_file(src, offset, length, dst)`: the file written, or `none` inside where the
-- offset lies outside of the source. The sum of the offset and the length is an int.
unfoldable pub copy_part_of_file : ℕ → ℕ → List ℕ → ℕ → ℕ → Option (Option (List ℕ))
copy_part_of_file junk garbage file at n = if ltb (length file) at then some none else (do
  require (ltb (n + at) int_limit)
  let count = if ltb (length file) (n + at) then length file - at else n
  m ← new_file_map junk garbage file
  (m', at', w) ← copy_range m file at (new_writer junk) count
  some (some (close w)))

-- A reader of a whole file, and a writer that takes pieces of `copy_length` bytes.
pub record Reads (m : FileMap) (file : List ℕ) : Type 0 where
  pub valid : Contents.IsValid m file
  pub whole : m.buffer_length ≡ length file

pub record Writes (w : WriteFileMap) : Type 0 where
  pub valid : Output.IsValid w
  pub room : copy_length ≤ w.capacity

-- What a step has done: the reader and writer still serve, and the bytes were added.
pub record Copied (file : List ℕ) (w : WriteFileMap) (bytes : List ℕ) (m' : FileMap)
    (w' : WriteFileMap) : Type 0 where
  pub reads : Reads m' file
  pub writes : Writes w'
  pub added : output w' ≡ output w ++ bytes

pub read_at-Reads :
    (m : FileMap) (file : List ℕ) (at n : ℕ)
    → Reads m file
    → at + n ≤ length file
    → (m' : FileMap) × (read_at m file at n ≡ some (slice at n file, m')) × Reads m' file
unfolding read_at
read_at-Reads m file at n r h =
    let (p, m', e, t) =
      map_file_content-Maps m file at n r.valid (omega (arith, r.valid.size))
        (omega (arith, r.whole)) in
    (
      m',
      rw (e, read_block-Maps m m' file at n p t h),
      record { valid = t.valid; whole = t.same_room ∙ r.whole },
    )

pub append-Writes :
    (w : WriteFileMap) (bytes : List ℕ)
    → Writes w
    → length bytes ≤ copy_length
    → (w' : WriteFileMap) × (append_data w bytes ≡ some w')
      × Writes w'
      × (output w' ≡ output w ++ bytes)
append-Writes w bytes v h =
    let (w', e, v', o, c) = append_data-added w bytes v.valid (omega (arith, v.room)) in
    (w', e, record { valid = v'; room = omega (arith, v.room) }, o)

copy_piece :
    (m : FileMap) (file : List ℕ) (at n : ℕ) (w : WriteFileMap)
    → Reads m file
    → Writes w
    → at + n ≤ length file
    → n ≤ copy_length
    → (m' : FileMap) × (w' : WriteFileMap) × (read_at m file at n ≡ some (slice at n file, m'))
      × (append_data w (slice at n file) ≡ some w')
      × Copied file w (slice at n file) m' w'
copy_piece m file at n w r v inside h =
    let (m', e, r') = read_at-Reads m file at n r inside in
    let (w', e', v', o) =
      append-Writes w (slice at n file) v (omega (arith, length-slice at n file inside)) in
    (m', w', e, e', record { reads = r'; writes = v'; added = o })

copy_blocks-Copied :
    (left : ℕ) (m : FileMap) (file : List ℕ) (at : ℕ) (w : WriteFileMap)
    → Reads m file
    → Writes w
    → at + left * copy_length ≤ length file
    → (m' : FileMap) × (w' : WriteFileMap) × (copy_blocks m file at w left
        ≡ some (m', at + left * copy_length, w'))
      × Copied file w (slice at (left * copy_length) file) m' w'
unfolding copy_blocks
copy_blocks-Copied zero m file at w r v h =
    let e : at + 0 * copy_length ≡ at = omega arith in
    (m, w, rw e, record { reads = r; writes = v; added = sym (append-nil (output w)) })
copy_blocks-Copied (suc left) m file at w r v h =
    let (m1, w1, e1, e2, c1) = copy_piece m file at copy_length w r v (omega arith) (omega arith) in
    let (m2, w2, e3, c2) =
      copy_blocks-Copied left m1 file (at + copy_length) w1 c1.reads c1.writes (omega arith) in
    let s : suc left * copy_length ≡ copy_length + left * copy_length = omega arith in
    let t : at + copy_length + left * copy_length ≡ at + (copy_length + left * copy_length) =
      omega arith in
    (
      m2,
      w2,
      rw (e1, e2, s, ← t) e3,
      record {
        reads = c2.reads;
        writes = c2.writes;
        added =
            rw
              (
                s,
                slice-add at copy_length (left * copy_length) file,
                ← append_assoc (output w) (slice at copy_length file)
                    (slice (at + copy_length) (left * copy_length) file),
                ← c1.added,
              )
              c2.added;
      },
    )

-- Copying a stretch that lies in a file, from a reader of the whole file to a writer with room
-- for 4096 bytes, adds just the stretch to the output, and both go on serving.
pub copy_range-Copied :
    (m : FileMap) (file : List ℕ) (at n : ℕ) (w : WriteFileMap)
    → Reads m file
    → Writes w
    → at + n ≤ length file
    → (m' : FileMap) × (w' : WriteFileMap) × (copy_range m file at w n ≡ some (m', at + n, w'))
      × Copied file w (slice at n file) m' w'
unfolding copy_range
copy_range-Copied m file at n w r v h =
    let q = n / copy_length in
    let (m1, w1, e1, c1) = copy_blocks-Copied q m file at w r v (omega arith) in
    elim (Bool-cases (ltb 0 (n % copy_length))) [
      | inl more ↦
          let last = n % copy_length in
          let (m2, w2, e2, e3, c2) =
            copy_piece m1 file (at + q * copy_length) last w1 c1.reads c1.writes (omega arith)
              (omega arith) in
          let s : n ≡ q * copy_length + last = omega arith in
          let t : at + q * copy_length + last ≡ at + n = omega arith in
          let cut : slice at n file
              ≡ slice at (q * copy_length) file ++ slice (at + q * copy_length) last file =
            ap (λ k. slice at k file) s ∙ slice-add at (q * copy_length) last file in
          (
            m2,
            w2,
            rw (e1, more, e2, e3, t),
            record {
              reads = c2.reads;
              writes = c2.writes;
              added =
                  rw
                    (
                      cut,
                      ← append_assoc (output w) (slice at (q * copy_length) file)
                          (slice (at + q * copy_length) last file),
                      ← c1.added,
                    )
                    c2.added;
            },
          )
      | inr done ↦
          let z : n % copy_length ≡ 0 = ground arith in
          let s : q * copy_length ≡ n = omega arith in
          (
            m1,
            w1,
            rw (e1, done, s),
            record { reads = c1.reads; writes = c1.writes; added = rw s at c1.added },
          )
    ]

pub new_reader :
    (junk garbage : ℕ) (file : List ℕ)
    → length file < default_buffer_length
    → (m : FileMap) × (new_file_map junk garbage file ≡ some m) × Reads m file
new_reader junk garbage file h =
    let (m, e, v, b) = new_file_map-IsValid junk garbage file h in
    (m, e, record { valid = v; whole = b })

pub new_writer-Writes : (junk : ℕ) → Writes (new_writer junk)
unfolding new_writer
new_writer-Writes junk = record { valid = (new_writer-IsValid junk).0; room = omega arith }

clipped :
    (file : List ℕ) (at n : ℕ)
    → at ≤ length file
    → slice at (if ltb (length file) (n + at) then length file - at else n) file ≡ slice at n file
clipped file at n h = elim (Bool-cases (ltb (length file) (n + at))) [
  | inl cut ↦
      let lt : length file < n + at = ground arith in
      rw cut (
        take-length (drop at file) (length file - at) (omega (arith, length-drop at file))
        ∙ sym (take-length (drop at file) n (omega (arith, length-drop at file))))
  | inr fits ↦ rw fits
]

-- copy_part_of_file writes the part asked for, as far as a source below 20 MiB has it, and
-- refuses an offset behind its end; an offset and a length whose sum is below 2 ^ 31.
pub copy_part_of_file-slice :
    (junk garbage : ℕ) (file : List ℕ) (at n : ℕ)
    → length file < default_buffer_length
    → n + at < int_limit
    → copy_part_of_file junk garbage file at n
      ≡ (if ltb (length file) at then some none else some (some (slice at n file)))
unfolding copy_part_of_file
copy_part_of_file-slice junk garbage file at n small sum =
    elim (Bool-cases (ltb (length file) at)) [
      | inl out ↦ rw out
      | inr within ↦
          let le : at ≤ length file = ground arith in
          let count : ℕ = if ltb (length file) (n + at) then length file - at else n in
          let (m, e, r) = new_reader junk garbage file small in
          let (m', w, e', c) =
            copy_range-Copied m file at count (new_writer junk) r (new_writer-Writes junk)
              (ground arith) in
          let start : output (new_writer junk) ≡ [] = (new_writer-IsValid junk).1 in
          rw (within, lt→ltb (n + at) int_limit sum, e, e', close-output w, c.added, start)
            (ap (λ k. some (some k)) (clipped file at n le))
    ]
