-- ===== src/Service.antt =====
-- single_fs/simple_rsync: the files of a server, chunk by chunk. The server's handler and thread
-- (server_handler.cpp, server_processor.cpp), the table of a file (rsync_service.cpp), and the
-- client (client.cpp). CHUNK_SIZE is the parameter `chunk_size`, and Sum1 of the object `summer_`
-- the parameter `sum1`. `none` is undefined behaviour.
pub mod Protocol
pub mod Requests
pub mod Transfer
pub mod Summer
pub mod Table
pub mod GetFile
mod Tests
use just_for_test_and_try.Base.{
  ℕ, zero, suc, ◌+◌, ◌-◌, ◌*◌, ◌/◌, ◌%◌, ◌^◌, Bool, true, false, Option, none, some, List, [], ◌∷◌,
  ◌++◌, ltb, leb, ◌==◌, if◌then◌else◌, length, take, drop, replicate, htonl, ntohl, ◌>>=◌, ◌>>◌,
  require, int_limit, lookup, bytes_eq_eq,
}
use just_for_test_and_try.Checksum.{strong_sum}
use just_for_test_and_try.FileMap.{FileMap, new_file_map}
use just_for_test_and_try.Rsync.{ChunkInfo, read_at}
use just_for_test_and_try.Rsync.Patch.{rounds}
use just_for_test_and_try.Net.Package.{
  Package, word_limit, set_data, get_int, set_int, get_string, set_string,
}
use just_for_test_and_try.Net.Packet.{Packet}
use just_for_test_and_try.Fs.FileUtils.{Files, Result, done, failed, read_from}

-- `RequestType` and `Response`.
abbrev pub get_meta_req : ℕ
get_meta_req = 1

abbrev pub get_chunk_req : ℕ
get_chunk_req = 2

abbrev pub ok : ℕ
ok = 1

-- -1 as an int32_t
abbrev pub file_did_not_exist : ℕ
file_did_not_exist = word_limit - 1

-- `TaskNode`; `head` stands behind the path.
pub record TaskNode : Type 0 where
  pub packet : Packet
  pub head : Package
  pub req : ℕ
  pub path : List ℕ

-- `ServerHandler::EchoFromServer`, up to the push on the queue of tasks.
unfoldable pub echo_from_server : Packet → Option TaskNode
echo_from_server p = do
  (word, k1) ← get_int (set_data p.head_data p.head_length)
  req ← ntohl word
  (size, k2) ← get_int k1
  n ← ntohl size
  (text, k3) ← get_string k2 n
  path ← text
  some (record { packet = p; head = k3; req = req; path = path })

-- The whole chunks of `GenerateMetaList` from chunk `i` on, and the bytes of the last one: what
-- the pointer `buf` is left at, if there is one.
module _ (chunk_size : ℕ) (sum1 : List ℕ → ℕ) (md4 : List ℕ → List ℕ) where
  unfoldable pub whole_chunks :
      ℕ → ℕ → Option (List ℕ) → FileMap → List ℕ → Option (List ChunkInfo × Option (List ℕ))
  whole_chunks zero i buf m file = some ([], buf)
  whole_chunks (suc left) i buf m file = do
    (block, m') ← read_at m file (i * chunk_size) chunk_size
    (rest, last) ← whole_chunks left (i + 1) (some block) m' file
    some (
      record {
        weak_sum = sum1 block;
        from = true;
        offset = i * chunk_size;
        length_of = chunk_size;
        strong_sum = strong_sum md4 block;
      }
          ∷ rest,
      last,
    )

  -- The entry for what is left behind the whole chunks. Its strong sum is one of the bytes at
  -- `buf`, which still points to the last whole chunk; where it is NULL, `StrongSum` takes those in
  -- the queue of `summer_`, which is never filled.
  unfoldable pub last_chunk : ℕ → ℕ → Option (List ℕ) → ChunkInfo
  last_chunk count last buf = record {
    weak_sum = 0;
    from = true;
    offset = count * chunk_size;
    length_of = last;
    strong_sum = strong_sum md4 (elim buf [ none ↦ [] | some block ↦ take last block ]);
  }

  -- `GenerateMetaList(path)`
  unfoldable pub generate_meta_list : ℕ → ℕ → List ℕ → Option (List ChunkInfo)
  generate_meta_list junk garbage file = do
    let count = length file / chunk_size
    let last = length file % chunk_size
    m ← new_file_map junk garbage file
    (chunks, buf) ← whole_chunks count 0 none m file
    some (if ltb 0 last then chunks ++ last_chunk count last buf ∷ [] else chunks)

-- The reply to a request for a file that is not there.
unfoldable pub no_file_reply : ℕ → Packet → Option Packet
no_file_reply junk p = do
  (_, k) ← set_int (set_data (replicate 5 junk) 5) (htonl file_did_not_exist)
  some (record p { head_data = k.block; head_length = 4; data_block = junk ∷ []; data_length = 1 })

-- One round of the loop of `ServerProcessor::GetMeta`, and the loop.
unfoldable pub write_entry : Package → ChunkInfo → Option Package
write_entry k chunk = do
  (_, k1) ← set_int k (htonl chunk.weak_sum)
  (_, k2) ← set_int k1 (htonl chunk.offset)
  (_, k3) ← set_int k2 (htonl chunk.length_of)
  set_string k3 chunk.strong_sum (length chunk.strong_sum)

unfoldable pub write_entries : Package → List ChunkInfo → Option Package
write_entries k [] = some k
write_entries k (chunk ∷ chunks) = do k' ← write_entry k chunk; write_entries k' chunks

-- The head of an answer: the response, the number of entries and a mark.
unfoldable pub meta_head : ℕ → ℕ → Option (List ℕ)
meta_head junk count = do
  (_, k1) ← set_int (set_data (replicate 15 junk) 13) (htonl ok)
  (_, k2) ← set_int k1 (htonl count)
  (_, k3) ← set_int k2 (htonl 1)
  some k3.block

-- `ServerProcessor::GetMeta` for the table of the file.
unfoldable pub meta_reply : ℕ → Packet → List ChunkInfo → Option Packet
meta_reply junk p chunks = do
  head ← meta_head junk (length chunks)
  let n = length chunks * (4 + 4 * 2 + 32) + 10
  k ← write_entries (set_data (replicate n junk) n) chunks
  some (record p { head_data = head; head_length = 13; data_block = k.block; data_length = n })

unfoldable pub get_meta :
    ℕ → (List ℕ → ℕ) → (List ℕ → List ℕ) → ℕ → ℕ → Files → TaskNode → Option Packet
get_meta chunk_size sum1 md4 junk garbage fs node = elim (lookup node.path fs) [
  | none ↦ no_file_reply junk node.packet
  | some file ↦ do
    chunks ← generate_meta_list chunk_size sum1 md4 junk garbage file
    meta_reply junk node.packet chunks
]

-- `ServerProcessor::GetChunk`: the reply's data is the file from the offset on, in a block of the
-- size of the whole file and two bytes.
unfoldable pub get_chunk : ℕ → Files → TaskNode → Option Packet
get_chunk junk fs node = elim (lookup node.path fs) [
  | none ↦ no_file_reply junk node.packet
  | some file ↦ do
    (w1, k1) ← get_int node.head
    offset ← ntohl w1
    (w2, _) ← get_int k1
    n ← ntohl w2
    bytes ← elim (read_from offset node.path fs) [ failed _ ↦ none | done b ↦ some b ]
    (_, k) ← set_int (set_data (replicate 15 junk) 13) (htonl ok)
    some (record node.packet {
      head_data = k.block;
      head_length = 13;
      data_block = bytes ++ replicate (length file + 2 - length bytes) junk;
      data_length = n;
    })
]

-- `ServerProcessor::Process` for a task from the queue: the packet that is sent back, if any.
unfoldable pub process :
    ℕ → (List ℕ → ℕ) → (List ℕ → List ℕ) → ℕ → ℕ → Files → TaskNode → Option (Option Packet)
process chunk_size sum1 md4 junk garbage fs node =
    let meta = (do p ← get_meta chunk_size sum1 md4 junk garbage fs node; some (some p)) in
    let chunk = (do p ← get_chunk junk fs node; some (some p)) in
    if node.req == get_meta_req
    then meta
    else if node.req == get_chunk_req
    then chunk
    else some none

-- The start of a request of the client: its kind and the path.
unfoldable pub write_path : Package → ℕ → List ℕ → Option Package
write_path k req path = do
  (_, k1) ← set_int k (htonl req)
  (_, k2) ← set_int k1 (htonl (length path))
  set_string k2 path (length path)

-- The request of `Client::GetMeta(path)`.
unfoldable pub meta_request : ℕ → ℕ → ℕ → List ℕ → Option Packet
meta_request junk max_id end_point path = do
  let n = length path + 4 + 4 + 1
  k ← write_path (set_data (replicate n junk) n) get_meta_req path
  some (record {
    channel_id = max_id;
    head_data = k.block;
    head_length = n;
    data_block = junk ∷ [];
    data_length = 1;
    end_point = end_point;
  })

-- The request of `Client::GetChunk(buf, offset, length, path)`.
unfoldable pub chunk_request : ℕ → ℕ → ℕ → ℕ → ℕ → List ℕ → Option Packet
chunk_request junk max_id end_point offset count path = do
  let n = length path + 4 * 4 + 1
  k1 ← write_path (set_data (replicate n junk) n) get_chunk_req path
  (_, k2) ← set_int k1 (htonl offset)
  (_, k3) ← set_int k2 (htonl count)
  some (record {
    channel_id = max_id;
    head_data = k3.block;
    head_length = n;
    data_block = junk ∷ [];
    data_length = 1;
    end_point = end_point;
  })

-- One round of the loop of `Client::GetMeta`, and the loop.
unfoldable pub read_entry : Package → Option (ChunkInfo × Package)
read_entry k = do
  (w1, k1) ← get_int k
  weak_sum ← ntohl w1
  (w2, k2) ← get_int k1
  offset ← ntohl w2
  (w3, k3) ← get_int k2
  length_of ← ntohl w3
  (text, k4) ← get_string k3 32
  strong_sum ← text
  some (
    record {
      weak_sum = weak_sum;
      from = true;
      offset = offset;
      length_of = length_of;
      strong_sum = strong_sum;
    },
    k4,
  )

unfoldable pub read_entries : ℕ → Package → Option (List ChunkInfo)
read_entries zero k = some []
read_entries (suc left) k = do
  (chunk, k') ← read_entry k
  chunks ← read_entries left k'
  some (chunk ∷ chunks)

-- What `Client::GetMeta` makes of a reply; the inner `none` is NULL.
unfoldable pub read_meta : Packet → Option (Option (List ChunkInfo))
read_meta p = do
  (w1, k) ← get_int (set_data p.head_data p.head_length)
  resp ← ntohl w1
  (w2, _) ← get_int k
  count ← ntohl w2
  let go = (do
    chunks ← read_entries (rounds count) (set_data p.data_block p.data_length)
    some (some chunks))
  if ltb resp int_limit then go else some none

-- What `Client::GetChunk` makes of a reply: the block that `buf` is set to.
unfoldable pub read_chunk : Packet → Option (Option (List ℕ))
read_chunk p = do
  (word, _) ← get_int (set_data p.head_data p.head_length)
  resp ← ntohl word
  some (if ltb resp int_limit then some p.data_block else none)
