-- ===== src/FileWriter/Output.antt =====
-- The file that a WriteFileMap leaves is what was appended, in order.
use just_for_test_and_try.Base.{
  ℕ, ◌+◌, ◌-◌, ◌%◌, ◌^◌, ◌≤◌, ◌<◌, ◌≡◌, refl, ap, sym, ◌∙◌, inl, inr, Bool-cases, none, some, List,
  [], ◌++◌, append-nil, append_assoc, arith, leb, leb→lt, length, take, drop, slice, length-append,
  length-replicate, take-length, take-append_eq, length-take, memmove, memmove_in_bounds,
  length-memmove, le→leb, lt→leb, int_limit,
}
use just_for_test_and_try.FileWriter.{
  WriteFileMap, default_capacity, new_writer, flush, append_data, close,
}

-- The bytes at hand fit into the buffer, and `offset_` counts those that have left it.
pub record IsValid (w : WriteFileMap) : Type 0 where
  pub room : length w.buffer ≡ w.capacity
  pub within : w.length_of ≤ w.capacity
  pub counted : w.offset ≡ length w.written % 2 ^ 32

-- What the file would hold if the writer were closed now.
abbrev pub output : WriteFileMap → List ℕ
output w = w.written ++ take w.length_of w.buffer

pub close-output : (w : WriteFileMap) → close w ≡ output w
unfolding close
close-output w = refl

flush-output : (w : WriteFileMap) → output (flush w) ≡ output w
unfolding flush
flush-output w = append-nil (output w)

-- A copy behind the bytes in the buffer puts them there.
copied : WriteFileMap → List ℕ → WriteFileMap
copied w bytes = record w {
  buffer =
      take w.length_of w.buffer
      ++ (slice 0 (length bytes) bytes ++ drop (w.length_of + length bytes) w.buffer);
  length_of = w.length_of + length bytes;
}

copied-output :
    (w : WriteFileMap) (bytes : List ℕ)
    → IsValid w
    → w.length_of + length bytes ≤ w.capacity
    → IsValid (copied w bytes) × (output (copied w bytes) ≡ output w ++ bytes)
unfolding copied
copied-output w bytes v fits =
    let front = take w.length_of w.buffer in
    let rest = drop (w.length_of + length bytes) w.buffer in
    let len : length front ≡ w.length_of =
      omega (arith, length-take w.length_of w.buffer, v.room) in
    let whole : slice 0 (length bytes) bytes ≡ bytes =
      take-length bytes (length bytes) (omega arith) in
    let sum : w.length_of + length bytes ≡ length (front ++ bytes) =
      omega (arith, length-append front bytes) in
    (
      record {
        room =
            length-memmove w.buffer w.length_of bytes 0 (length bytes) (omega (arith, v.room))
              (omega arith)
            ∙ v.room;
        within = fits;
        counted = v.counted;
      },
      rw (whole, ← append_assoc front bytes rest, take-append_eq _ (front ++ bytes) rest sum)
          (sym (append_assoc w.written front bytes)),
    )

copy_eq :
    (w : WriteFileMap) (bytes : List ℕ)
    → IsValid w
    → w.length_of + length bytes ≤ w.capacity
    → memmove w.buffer w.length_of bytes 0 (length bytes) ≡ some (copied w bytes).buffer
unfolding copied
copy_eq w bytes v fits =
    memmove_in_bounds w.buffer w.length_of bytes 0 (length bytes) (omega (arith, v.room))
      (omega arith)

pub append_data-added :
    (w : WriteFileMap) (bytes : List ℕ)
    → IsValid w
    → length bytes ≤ w.capacity
    → (w' : WriteFileMap) × (append_data w bytes ≡ some w')
      × IsValid w'
      × (output w' ≡ output w ++ bytes)
      × (w'.capacity ≡ w.capacity)
unfolding append_data flush copied
append_data-added w bytes v h = elim (Bool-cases (leb (w.capacity - w.length_of) (length bytes))) [
  | inl full ↦
      let f : IsValid (flush w) = record {
        room = v.room;
        within = omega arith;
        counted = omega (
          arith,
          v.counted,
          length-append w.written (take w.length_of w.buffer),
          length-take w.length_of w.buffer,
          v.room,
        );
      } in
      let (v', e) = copied-output (flush w) bytes f (omega arith) in
      (
        copied (flush w) bytes,
        rw (full, copy_eq (flush w) bytes f (omega arith)),
        v',
        e ∙ ap (λ k. k ++ bytes) (flush-output w),
        refl,
      )
  | inr room ↦
      let lt : length bytes < w.capacity - w.length_of = leb→lt _ _ room in
      let (v', e) = copied-output w bytes v (omega arith) in
      (copied w bytes, rw (room, copy_eq w bytes v (omega arith)), v', e, refl)
]

-- AppendData of no more bytes than the buffer holds, to a file that stays below 2 GiB, is defined
-- and adds them to what the file will hold, and the writer stays valid with its capacity: its
-- offset is the number of bytes that have been written to the file.
pub append_data-output :
    (w : WriteFileMap) (bytes : List ℕ)
    → IsValid w
    → length bytes ≤ w.capacity
    → length (output w) + length bytes < int_limit
    → (w' : WriteFileMap) × (append_data w bytes ≡ some w')
      × IsValid w'
      × (output w' ≡ output w ++ bytes)
      × (w'.capacity ≡ w.capacity)
      × (w'.offset ≡ length w'.written)
append_data-output w bytes v h small =
    let (w', e, v', o, c) = append_data-added w bytes v h in
    let all = length-append w'.written (take w'.length_of w'.buffer) in
    let sum = length-append (output w) bytes in
    (w', e, v', o, c, omega (arith, v'.counted, ap length o, all, sum, small))

-- AppendData of more bytes than the buffer holds is undefined for a valid writer: it copies
-- behind the end of the buffer.
pub append_data_undefined :
    (w : WriteFileMap) (bytes : List ℕ)
    → IsValid w
    → w.capacity < length bytes
    → append_data w bytes ≡ none
unfolding append_data flush memmove
append_data_undefined w bytes v h = rw (
  le→leb (w.capacity - w.length_of) (length bytes) (omega arith),
  lt→leb (0 + length bytes) (length w.buffer) (omega (arith, v.room)),
)

pub new_writer-IsValid : (junk : ℕ) → IsValid (new_writer junk) × (output (new_writer junk) ≡ [])
unfolding new_writer
new_writer-IsValid junk = (
  record { room = length-replicate default_capacity junk; within = omega arith; counted = refl },
  refl,
)
