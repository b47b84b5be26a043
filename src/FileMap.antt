-- ===== src/FileMap.antt =====
-- single_fs/librsync/file_map.h and file_map.cpp: a file read through one window of memory.
-- `none` is undefined behaviour: a read into too small a block, or an int that overflows.
pub mod Contents
mod Tests
use just_for_test_and_try.Base.{
  ℕ, ◌+◌, ◌-◌, ◌*◌, ◌≡◌, min, ◌&&◌, Option, none, some, List, ◌++◌, ltb, leb, if◌then◌else◌, length,
  take, drop, slice, replicate, ◌>>=◌, ◌>>◌, require, int_limit,
}

-- DEFAULT_BUFFER_LENGTH
abbrev pub default_buffer_length : ℕ
default_buffer_length = 1024 * 1024 * 20

-- `data_`, `offset_`, `buffer_length_`, `length_` and `file_size_`. The open file is an argument
-- of the operations.
pub record FileMap : Type 0 where
  pub buffer : List ℕ
  pub offset : ℕ
  pub buffer_length : ℕ
  pub length_of : ℕ
  pub file_size : ℕ

-- fread(data_, 1, count, fp) at `offset`: as many bytes as asked for, or as there are.
unfoldable pub fread : List ℕ → ℕ → ℕ → List ℕ → Option (ℕ × List ℕ)
fread file offset count buffer = do
  let got = min count (length file - offset)
  require (leb got (length buffer))
  some (got, slice offset got file ++ drop got buffer)

-- The constructor. `garbage` is what `length_` holds before it is set: a file of
-- DEFAULT_BUFFER_LENGTH bytes or more leaves it so. `junk` fills new memory.
unfoldable pub new_file_map : ℕ → ℕ → List ℕ → Option FileMap
unfolding fread
new_file_map junk garbage file = do
  let size = length file
  let whole = ltb size default_buffer_length
  let room = if whole then size else default_buffer_length
  require (ltb size int_limit)
  (got, buffer) ← fread file 0 (if whole then size else garbage) (replicate room junk)
  some (record {
    buffer = buffer;
    offset = 0;
    buffer_length = room;
    length_of = got;
    file_size = size;
  })

-- The second half of `MapFileContent`: the window is moved to `at`.
unfoldable pub reload : FileMap → List ℕ → ℕ → Option FileMap
unfolding fread
reload m file at = do
  require (ltb (m.buffer_length + at) int_limit)
  let count = if ltb m.file_size (m.buffer_length + at) then m.file_size - at else m.buffer_length
  (got, buffer) ← fread file at count m.buffer
  some (record m { buffer = buffer; offset = at; length_of = got })

-- `MapFileContent(at, n)`. The pointer returned is an index into `buffer`, or `none` for NULL.
unfoldable pub map_file_content : FileMap → List ℕ → ℕ → ℕ → Option (Option ℕ × FileMap)
map_file_content m file at n =
    if ltb m.file_size at
    then some (none, m)
    else if leb m.offset at && ltb (at + n) (m.length_of + m.offset)
    then some (some (at - m.offset), m)
    else (do require (ltb (at + n) int_limit); m' ← reload m file at; some (some 0, m'))

-- Reads of `n` bytes through such a pointer.
unfoldable pub read_block : FileMap → Option ℕ → ℕ → Option (List ℕ)
read_block m pointer n = do
  p ← pointer
  require (leb (p + n) (length m.buffer))
  some (slice p n m.buffer)
