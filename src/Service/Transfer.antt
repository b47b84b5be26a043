-- ===== src/Service/Transfer.antt =====
-- The client of simple_rsync (client.cpp) that gets a file. `SyncSendPacket` is the parameter
-- `send`: the packet that comes back, or `none` where none does. A packet on the way is changed by
-- `go` and `back`.
use just_for_test_and_try.Base.{
  ℕ, Option, none, some, List, [], ◌∷◌, ◌++◌, leb, ◌==◌, if◌then◌else◌, length, take, drop, ◌++◌,
  ◌>>=◌,
}
use just_for_test_and_try.FileMap.{FileMap}
use just_for_test_and_try.Rsync.{ChunkInfo, read_at}
use just_for_test_and_try.Net.Packet.{Packet}
use just_for_test_and_try.Fs.FileUtils.{Files}
use just_for_test_and_try.Service.{
  echo_from_server, process, meta_request, chunk_request, read_meta, read_chunk,
}

-- The way of a packet to the server's handler, through its thread, and back.
unfoldable pub answered :
    ℕ
    → (List ℕ → ℕ)
    → (List ℕ → List ℕ)
    → ℕ
    → ℕ
    → Files
    → (Packet → Packet)
    → (Packet → Packet)
    → Packet
    → Option Packet
answered chunk_size sum1 md4 junk garbage fs go back p = do
  node ← echo_from_server (go p)
  reply ← process chunk_size sum1 md4 junk garbage fs node
  r ← reply
  some (back r)

module _ (send : Packet → Option Packet) (junk max_id end_point : ℕ) where
  -- `Client::GetMeta` and `Client::GetChunk` as a whole; the inner `none` is NULL.
  unfoldable pub client_get_meta : List ℕ → Option (Option (List ChunkInfo))
  client_get_meta path = do p ← meta_request junk max_id end_point path; r ← send p; read_meta r

  unfoldable pub client_get_chunk : ℕ → ℕ → List ℕ → Option (Option (List ℕ))
  client_get_chunk offset count path = do
    p ← chunk_request junk max_id end_point offset count path
    r ← send p
    read_chunk r

-- A stream of stdio open for writing: what has reached the file, and what waits in the buffer.
pub record Stream : Type 0 where
  pub reached : List ℕ
  pub pending : List ℕ

abbrev pub opened : Stream
opened = record { reached = []; pending = [] }

-- What fwrite is given: `n` bytes at a pointer.
unfoldable pub bytes_at : Option (List ℕ) → ℕ → Option (List ℕ)
bytes_at none n = if n == 0 then some [] else none
bytes_at (some block) n = if leb n (length block) then some (take n block) else none

-- How many of the bytes at hand a call of fwrite lets through to the file is the parameter `drain`.
unfoldable pub fwrite : (List ℕ → ℕ) → List ℕ → Stream → Stream
fwrite drain bytes fp =
    let all = fp.pending ++ bytes in
    record { reached = fp.reached ++ take (drain all) all; pending = drop (drain all) all }

module _ (send : Packet → Option Packet) (junk max_id end_point : ℕ) (drain : List ℕ → ℕ) where
  -- The loop of `Client::ConstructFile`, and its stream. `file_map` is NULL where there is no file
  -- `dst`.
  unfoldable pub construct_loop :
      List ℕ → List ℕ → Option FileMap → List ChunkInfo → Stream → Option Stream
  construct_loop src dst file_map [] fp = some fp
  construct_loop src dst file_map (chunk ∷ chunks) fp =
      let remote = (do
        buf ← client_get_chunk send junk max_id end_point chunk.offset chunk.length_of src
        bytes ← bytes_at buf chunk.length_of
        construct_loop src dst file_map chunks (fwrite drain bytes fp)) in
      let local = (do
        m ← file_map
        (block, m') ← read_at m dst chunk.offset chunk.length_of
        construct_loop src dst (some m') chunks (fwrite drain block fp)) in
      if chunk.from then remote else local

  -- `Client::GetFile` for a destination that is not there: nothing is scanned. A list that is NULL
  -- is undefined behaviour in ConstructFile, which returns without closing its stream.
  unfoldable pub get_new_file : List ℕ → Option Stream
  get_new_file src = do
    found ← client_get_meta send junk max_id end_point src
    meta ← found
    construct_loop src [] none meta opened
