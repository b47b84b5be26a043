-- ===== src/FileMap/Contents.antt =====
-- `MapFileContent` gives the file's bytes, wherever its window lies.
use just_for_test_and_try.Base.{
  ℕ, ◌+◌, ◌-◌, ◌≤◌, ◌<◌, ◌≡◌, refl, ap, sym, ◌∙◌, min, inl, inr, ◌&&◌, Bool-cases, some, List, ◌++◌,
  arith, ltb, leb, length, take, drop, slice, replicate, length-append, length-slice, length-drop,
  length-replicate, take-append_le, take-take, slice-slice, int_limit, lt→ltb, le→ltb, le→leb,
}
use just_for_test_and_try.FileMap.{
  FileMap, default_buffer_length, fread, new_file_map, reload, map_file_content, read_block,
}

-- The window holds the file's bytes from `offset` on.
pub record IsValid (m : FileMap) (file : List ℕ) : Type 0 where
  pub size : m.file_size ≡ length file
  pub room : length m.buffer ≡ m.buffer_length
  pub within : m.length_of ≤ m.buffer_length
  pub inside : m.offset + m.length_of ≤ m.file_size
  pub bytes : take m.length_of m.buffer ≡ slice m.offset m.length_of file
  pub small : m.file_size + m.buffer_length < int_limit

-- What a pointer for `n` bytes at `at` is good for.
pub record Maps (m m' : FileMap) (file : List ℕ) (at n : ℕ) (pointer : ℕ) : Type 0 where
  pub valid : IsValid m' file
  pub same_room : m'.buffer_length ≡ m.buffer_length
  pub in_buffer : pointer + n ≤ length m'.buffer
  pub contents : at + n ≤ length file → slice pointer n m'.buffer ≡ slice at n file
  pub from_start : length file ≤ at + n → pointer ≡ 0

fread_fits :
    (file : List ℕ) (offset count : ℕ) (buffer : List ℕ)
    → count ≤ length buffer
    → offset + count ≤ length file
    → fread file offset count buffer ≡ some (count, slice offset count file ++ drop count buffer)
unfolding fread
fread_fits file offset count buffer h k =
    let e : min count (length file - offset) ≡ count = omega arith in rw (e, le→leb _ _ h)

take-fread :
    (file : List ℕ) (offset n count : ℕ) (buffer : List ℕ)
    → offset + count ≤ length file
    → n ≤ count
    → take n (slice offset count file ++ drop count buffer) ≡ slice offset n file
take-fread file offset n count buffer k h =
    take-append_le n (slice offset count file) (drop count buffer)
      (omega (arith, length-slice offset count file k))
    ∙ take-take n count (drop offset file) h

-- A map whose window has just been read.
read_map : FileMap → List ℕ → ℕ → ℕ → FileMap
read_map m file at count = record m {
  buffer = slice at count file ++ drop count m.buffer;
  offset = at;
  length_of = count;
}

read_map-IsValid :
    (m : FileMap) (file : List ℕ) (at count : ℕ)
    → IsValid m file
    → at + count ≤ length file
    → count ≤ m.buffer_length
    → IsValid (read_map m file at count) file
unfolding read_map
read_map-IsValid m file at count v k h = record {
  size = v.size;
  room = omega (
    arith,
    length-append (slice at count file) (drop count m.buffer),
    length-slice at count file k,
    length-drop count m.buffer,
    v.room,
  );
  within = h;
  inside = omega (arith, v.size);
  bytes = take-fread file at count count m.buffer k (omega arith);
  small = v.small;
}

reload_lem :
    (m : FileMap) (file : List ℕ) (at : ℕ)
    → IsValid m file
    → at ≤ m.file_size
    → (count : ℕ) × (reload m file at ≡ some (read_map m file at count))
      × (at + count ≤ length file)
      × (count ≤ m.buffer_length)
      × ((n : ℕ) → n ≤ m.buffer_length → at + n ≤ length file → n ≤ count)
unfolding reload read_map
reload_lem m file at v h = elim (Bool-cases (ltb m.file_size (m.buffer_length + at))) [
  | inl cut ↦
      let lt : m.file_size < m.buffer_length + at = ground arith in
      (
        m.file_size - at,
        rw (
          lt→ltb (m.buffer_length + at) int_limit (omega (arith, v.small)),
          cut,
          fread_fits file at (m.file_size - at) m.buffer (omega (arith, v.room))
              (omega (arith, v.size)),
        ),
        omega (arith, v.size),
        omega arith,
        λ n a b. omega (arith, v.size),
      )
  | inr whole ↦
      let le : m.buffer_length + at ≤ m.file_size = ground arith in
      (
        m.buffer_length,
        rw (
          lt→ltb (m.buffer_length + at) int_limit (omega (arith, v.small)),
          whole,
          fread_fits file at m.buffer_length m.buffer (omega (arith, v.room))
              (omega (arith, v.size)),
        ),
        omega (arith, v.size),
        omega arith,
        λ n a b. a,
      )
]

hit_contents :
    (m : FileMap) (file : List ℕ) (at n : ℕ)
    → IsValid m file
    → m.offset ≤ at
    → at + n < m.length_of + m.offset
    → slice (at - m.offset) n m.buffer ≡ slice at n file
hit_contents m file at n v le lt =
    let p = at - m.offset in
    let e : 0 + p ≡ p = omega arith in
    let f : m.offset + p ≡ at = omega arith in
    ap (λ k. slice k n m.buffer) (sym e)
    ∙ sym (slice-slice p n 0 m.length_of m.buffer (omega arith))
    ∙ ap (slice p n) v.bytes
    ∙ slice-slice p n m.offset m.length_of file (omega arith)
    ∙ ap (λ k. slice k n file) f

-- For a place in the file and no more bytes than the buffer has, MapFileContent returns a pointer
-- that is good for that many bytes; they are the file's where the stretch lies in the file, and
-- the reader stays valid.
pub map_file_content-Maps :
    (m : FileMap) (file : List ℕ) (at n : ℕ)
    → IsValid m file
    → at ≤ m.file_size
    → n ≤ m.buffer_length
    → (pointer : ℕ) × (m' : FileMap) × (map_file_content m file at n ≡ some (some pointer, m'))
      × Maps m m' file at n pointer
unfolding map_file_content read_map
map_file_content-Maps m file at n v h k =
    elim (Bool-cases (leb m.offset at && ltb (at + n) (m.length_of + m.offset))) [
      | inl hit ↦
          let both : (m.offset ≤ at) × (at + n < m.length_of + m.offset) = ground arith in
          (
            at - m.offset,
            m,
            rw (le→ltb m.file_size at h, hit),
            record {
              valid = v;
              same_room = refl;
              in_buffer = omega (arith, v.room, v.within);
              contents = λ _. hit_contents m file at n v both.0 both.1;
              from_start = λ le. absurd (omega (arith, v.inside, v.size));
            },
          )
      | inr miss ↦
          let (count, e, inside, fits, most) = reload_lem m file at v h in
          let v' : IsValid (read_map m file at count) file =
            read_map-IsValid m file at count v inside fits in
          (
            0,
            read_map m file at count,
            rw (
              le→ltb m.file_size at h,
              miss,
              lt→ltb (at + n) int_limit (omega (arith, v.small)),
              e,
            ),
            record {
              valid = v';
              same_room = refl;
              in_buffer = omega (arith, v'.room);
              contents = λ le. take-fread file at n count m.buffer inside (most n k le);
              from_start = λ _. refl;
            },
          )
    ]

-- The constructor of FileMap reads a file below 20 MiB whole.
pub new_file_map-IsValid :
    (junk garbage : ℕ) (file : List ℕ)
    → length file < default_buffer_length
    → (m : FileMap) × (new_file_map junk garbage file ≡ some m)
      × IsValid m file
      × (m.buffer_length ≡ length file)
unfolding new_file_map
new_file_map-IsValid junk garbage file h =
    let n = length file in
    (
      record {
        buffer = slice 0 n file ++ drop n (replicate n junk);
        offset = 0;
        buffer_length = n;
        length_of = n;
        file_size = n;
      },
      rw (
        lt→ltb n int_limit (omega arith),
        lt→ltb n default_buffer_length h,
        fread_fits file 0 n (replicate n junk) (omega (arith, length-replicate n junk))
            (omega arith),
      ),
      record {
        size = refl;
        room = omega (
          arith,
          length-append (slice 0 n file) (drop n (replicate n junk)),
          length-slice 0 n file (omega arith),
          length-drop n (replicate n junk),
          length-replicate n junk,
        );
        within = omega arith;
        inside = omega arith;
        bytes = take-fread file 0 n n (replicate n junk) (omega arith) (omega arith);
        small = omega arith;
      },
      refl,
    )

-- Reading through a pointer of `map_file_content` gives the bytes of the file.
pub read_block-Maps :
    (m m' : FileMap) (file : List ℕ) (at n pointer : ℕ)
    → Maps m m' file at n pointer
    → at + n ≤ length file
    → read_block m' (some pointer) n ≡ some (slice at n file)
unfolding read_block
read_block-Maps m m' file at n pointer t h =
    rw (le→leb (pointer + n) (length m'.buffer) t.in_buffer, t.contents h)
