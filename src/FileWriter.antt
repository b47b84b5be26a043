-- ===== src/FileWriter.antt =====
-- single_fs/librsync/write_file_map.h and write_file_map.cpp: a file written through a buffer.
-- `none` is undefined behaviour: a copy behind the end of the buffer.
pub mod Output
mod Tests
use just_for_test_and_try.Base.{
  ℕ, ◌+◌, ◌-◌, ◌*◌, ◌%◌, ◌^◌, ◌≡◌, Option, none, some, List, [], ◌++◌, leb, if◌then◌else◌, length,
  take, replicate, memmove, ◌>>=◌,
}

-- BUFFER_LENGTH
abbrev pub default_capacity : ℕ
default_capacity = 1024 * 1024 * 4

-- `offset_`, `length_`, `buffer_` and `capacity_`, and what the open file holds.
pub record WriteFileMap : Type 0 where
  pub written : List ℕ
  pub offset : ℕ
  pub length_of : ℕ
  pub buffer : List ℕ
  pub capacity : ℕ

-- The constructor opens the file for writing, which empties it.
unfoldable pub new_writer : ℕ → WriteFileMap
new_writer junk = record {
  written = [];
  offset = 0;
  length_of = 0;
  buffer = replicate default_capacity junk;
  capacity = default_capacity;
}

-- `offset_` is an int32_t that nothing reads: a bit pattern, also behind 2 GiB.
unfoldable pub flush : WriteFileMap → WriteFileMap
flush w = record w {
  written = w.written ++ take w.length_of w.buffer;
  offset = (w.offset + w.length_of) % 2 ^ 32;
  length_of = 0;
}

-- `AppendData(data, n)`, where the list is the `n` bytes at `data`.
unfoldable pub append_data : WriteFileMap → List ℕ → Option WriteFileMap
append_data w bytes = do
  let n = length bytes
  let ready = if leb (w.capacity - w.length_of) n then flush w else w
  buffer ← memmove ready.buffer ready.length_of bytes 0 n
  some (record ready { buffer = buffer; length_of = ready.length_of + n })

-- The destructor: what the file holds at last.
unfoldable pub close : WriteFileMap → List ℕ
unfolding flush
close w = (flush w).written
