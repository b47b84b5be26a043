-- ===== src/Fs/Ifs.antt =====
-- single_fs/depends/fs/ifs.h and ifs.cpp: files with numbers, one behind the other in one data
-- file, and a table of their places. Numbers of 64 bits are bit patterns. `none` is undefined
-- behaviour.
pub mod Layout
pub mod Store
pub mod Restart
use just_for_test_and_try.Base.{
  ℕ, zero, suc, ◌+◌, ◌-◌, ◌*◌, ◌/◌, ◌%◌, ◌^◌, Bool, true, false, Option, none, some, List, [], ◌∷◌,
  ◌++◌, ltb, leb, ◌==◌, if◌then◌else◌, length, take, drop, slice, lookup, insert, nat_eq, int_limit,
  ◌>>=◌,
}
use just_for_test_and_try.Net.Package.{signed_ltb, word_limit}

pub record MetaNode : Type 0 where
  pub file_id : ℕ
  pub start : ℕ
  pub length_of : ℕ

pub record Ifs : Type 0 where
  pub meta_datas : List (ℕ × MetaNode)
  pub latest_data : MetaNode

-- The two files DATA_STORAGE and META_STORAGE; `none` where there is no such file.
pub record Disk : Type 0 where
  pub data_storage : Option (List ℕ)
  pub meta_storage : Option (List ℕ)

abbrev pub long_limit : ℕ
long_limit = 2 ^ 64

unfoldable pub new_ifs : Ifs
new_ifs = record {
  meta_datas = [];
  latest_data = record { file_id = long_limit - 1; start = 0; length_of = 0 };
}

-- The `k` bytes of a number in memory, the lowest first, and the number of some bytes.
unfoldable pub le_bytes : ℕ → ℕ → List ℕ
le_bytes zero v = []
le_bytes (suc k) v = v % 256 ∷ le_bytes k (v / 256)

unfoldable pub of_le : List ℕ → ℕ
of_le [] = 0
of_le (b ∷ bs) = b + 256 * of_le bs

-- A node in memory, and the node in 24 bytes of memory.
unfoldable pub node_bytes : MetaNode → List ℕ
node_bytes n = le_bytes 8 n.file_id ++ (le_bytes 8 n.start ++ le_bytes 8 n.length_of)

unfoldable pub node_of : List ℕ → MetaNode
node_of b = record {
  file_id = of_le (take 8 b);
  start = of_le (slice 8 8 b);
  length_of = of_le (slice 16 8 b);
}

-- The loop of `init`: a read at the end of the file leaves the rest of the node as it was.
-- `max_id` is the largest number so far.
unfoldable pub init_loop : ℕ → List ℕ → List ℕ → List (ℕ × MetaNode) → ℕ → List (ℕ × MetaNode) × ℕ
init_loop zero file memory m max_id = (m, max_id)
init_loop (suc left) file memory m max_id =
    let got = take 24 file in
    let memory' = got ++ drop (length got) memory in
    let node = node_of memory' in
    let larger = signed_ltb (max_id % 2 ^ 32) (node.file_id % 2 ^ 32) in
    init_loop left (drop 24 file) memory' (insert node.file_id node m)
      (if larger then node.file_id else max_id)

abbrev pub no_node : MetaNode
no_node = record { file_id = 0; start = 0; length_of = 0 }

-- `init()`: the result -1 is `false`. The size of the file is an int32_t. `memory` is what the node
-- on the stack holds at first.
unfoldable pub init : List ℕ → Disk → Ifs → Option (Ifs × Bool)
init memory d s =
    let empty = some (record s { latest_data = no_node }, false) in
    elim d.meta_storage [
      | none ↦ empty
      | some file ↦
          let size = of_le (take 4 file) in
          let rounds = if ltb size int_limit then size else 0 in
          let (m, max_id) = init_loop rounds (drop 4 file) memory s.meta_datas (long_limit - 1) in
          let loaded = (do
            latest ← if max_id == long_limit - 1 then some no_node else lookup max_id m
            some (record { meta_datas = m; latest_data = latest }, true)) in
          if signed_ltb 4 (length file % word_limit) then loaded else empty
    ]

abbrev pub contents : Option (List ℕ) → List ℕ
contents none = []
contents (some bytes) = bytes

-- -1 as an int32_t
abbrev pub failed : ℕ
failed = word_limit - 1

-- `write(buffer, length)` on a disk with room: the file is opened to append, so the seek has no
-- effect on where the bytes go, but fails for a negative place. What fwrite returns and the new
-- number are cut to an int32_t; after a failure the bytes reach the file, which stays open, but the
-- table stays.
unfoldable pub write : List ℕ → Disk → Ifs → Ifs × Disk × ℕ
write buffer d s =
    let offset = (s.latest_data.start + s.latest_data.length_of) % long_limit in
    let id = (s.latest_data.file_id + 1) % long_limit in
    let node : MetaNode = record { file_id = id; start = offset; length_of = length buffer } in
    let opened : Disk = record d { data_storage = some (contents d.data_storage) } in
    let appended : Disk = record d { data_storage = some (contents d.data_storage ++ buffer) } in
    let s' : Ifs = record { meta_datas = insert id node s.meta_datas; latest_data = node } in
    if ltb offset (2 ^ 63)
    then (if length buffer % word_limit == failed
        then (s, appended, failed)
        else (s', appended, id % word_limit))
    else (s, opened, failed)

-- `get_length(file_id)`: `none` is -1.
unfoldable pub get_length : ℕ → Ifs → Option ℕ
get_length id s = elim (lookup id s.meta_datas) [ none ↦ none | some node ↦ some node.length_of ]

-- `read(file_id, buffer, length)`: the bytes put into the buffer; `none` is -1. A seek to a
-- negative place fails and leaves the position at the start.
unfoldable pub read : ℕ → Disk → Ifs → Option (List ℕ)
read id d s = do
  bytes ← d.data_storage
  node ← lookup id s.meta_datas
  some (slice (if ltb node.start (2 ^ 63) then node.start else 0) node.length_of bytes)

unfoldable pub nodes_bytes : List (ℕ × MetaNode) → List ℕ
nodes_bytes [] = []
nodes_bytes ((_, node) ∷ rest) = node_bytes node ++ nodes_bytes rest

-- `save_metadata()`: the file is not cut before it is written.
unfoldable pub save_metadata : Disk → Ifs → Disk
save_metadata d s =
    let text = le_bytes 4 (length s.meta_datas) ++ nodes_bytes s.meta_datas in
    record d { meta_storage = some (text ++ drop (length text) (contents d.meta_storage)) }
