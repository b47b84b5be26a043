-- ===== src/App/Answers.antt =====
-- What the server answers.
use just_for_test_and_try.Base.{
  ℕ, zero, suc, ◌+◌, ◌^◌, ◌<◌, ◌≡◌, refl, ap, sym, ◌∙◌, none, some, List, [], ◌∷◌, ◌++◌, arith,
  length, set, drop, replicate, length-append, length-replicate, take-length, drop-append_eq,
  memmove, memmove_to_start, store, lt→ltb, ntohl,
}
use just_for_test_and_try.Net.Packet.{Packet, returned}
use just_for_test_and_try.Net.Stream.{StreamSocketContext, async_send_packet}
use just_for_test_and_try.Fs.Ifs
use just_for_test_and_try.App.{success, other_error}
use just_for_test_and_try.App.Server.{
  Server, answer, file_number, answer_length, read_answer, get_file, echo_from_ifs,
}

-- The server with one more packet to send.
abbrev pub answering : Packet → Server → Server
answering p s = record s {
  socket = record s.socket { packet_queue = s.socket.packet_queue ++ p ∷ [] };
}

-- A request with a number that the server looks up.
pub record Asks (p : Packet) (id : ℕ) : Type 0 where
  pub request : ntohl p.head_data ≡ some 1
  pub room : p.data_length < length p.data_block
  pub number : file_number (set p.data_block p.data_length 0) ≡ returned id

store-lt : (block : List ℕ) (i v : ℕ) → i < length block → store block i v ≡ some (set block i v)
unfolding store
store-lt block i v h = rw (lt→ltb _ _ h)

set-replicate : (n junk : ℕ) → set (replicate (n + 2) junk) n 0 ≡ replicate n junk ++ 0 ∷ junk ∷ []
set-replicate zero junk = refl
set-replicate (suc n) junk =
    let e : suc n + 2 ≡ suc (n + 2) = omega arith in
    rw e (ap (λ k. junk ∷ k) (set-replicate n junk))

-- A file read into the buffer of a GET.
filled :
    (junk : ℕ) (bytes : List ℕ)
    → memmove (replicate (length bytes) junk ++ 0 ∷ junk ∷ []) 0 bytes 0 (length bytes)
      ≡ some (bytes ++ 0 ∷ junk ∷ [])
filled junk bytes =
    let front = replicate (length bytes) junk in
    let n = length-replicate (length bytes) junk in
    memmove_to_start (front ++ 0 ∷ junk ∷ []) bytes 0 (length bytes)
      (omega (arith, length-append front (0 ∷ junk ∷ []), n)) (omega arith)
    ∙ ap (λ b. some (b ++ drop (length bytes) (front ++ 0 ∷ junk ∷ [])))
        (take-length bytes (length bytes) (omega arith))
    ∙ ap (λ b. some (bytes ++ b)) (drop-append_eq (length bytes) front (0 ∷ junk ∷ []) (sym n))

async_send_packet-answering :
    (c : StreamSocketContext) (p : Packet)
    → length c.packet_queue < 10
    → async_send_packet c p ≡ returned (record c { packet_queue = c.packet_queue ++ p ∷ [] })
unfolding async_send_packet
async_send_packet-answering c p h = rw (lt→ltb (length c.packet_queue) 10 h)

-- A GET of a number that the file system has is answered with success and the whole file, and
-- changes nothing else: for a request in a block with room behind its text, a file below 2 ^ 63
-- bytes and less than ten packets that wait to be sent.
pub echo_from_ifs-get :
    (junk : ℕ) (p : Packet) (s : Server) (id : ℕ) (bytes : List ℕ)
    → Asks p id
    → Ifs.read id s.disk s.ifs ≡ some bytes
    → Ifs.get_length id s.ifs ≡ some (length bytes)
    → length bytes < 2 ^ 63
    → length s.socket.packet_queue < 10
    → echo_from_ifs junk p s
      ≡ returned (answering (answer junk success (bytes ++ 0 ∷ junk ∷ []) (length bytes) p) s)
unfolding echo_from_ifs get_file answer_length read_answer
echo_from_ifs-get junk p s id bytes a r n small room =
    let buf : store (replicate (length bytes + 2) junk) (length bytes) 0
        ≡ some (replicate (length bytes) junk ++ 0 ∷ junk ∷ []) =
      store-lt (replicate (length bytes + 2) junk) (length bytes) 0
        (omega (arith, length-replicate (length bytes + 2) junk))
      ∙ ap some (set-replicate (length bytes) junk) in
    rw (
      a.request,
      store-lt p.data_block p.data_length 0 a.room,
      a.number,
      n,
      lt→ltb (length bytes) (2 ^ 63) small,
      buf,
      r,
      filled junk bytes,
      async_send_packet-answering s.socket
          (answer junk success (bytes ++ 0 ∷ junk ∷ []) (length bytes) p) room,
    )

-- A GET of a number that the file system does not have is answered with other_error, never with
-- file_did_not_exist, and four bytes that no one has written, and changes nothing else: for a
-- request in a block with room behind its text, and less than ten packets that wait to be sent.
pub echo_from_ifs_missing :
    (junk : ℕ) (p : Packet) (s : Server) (id : ℕ)
    → Asks p id
    → Ifs.read id s.disk s.ifs ≡ none
    → Ifs.get_length id s.ifs ≡ none
    → length s.socket.packet_queue < 10
    → echo_from_ifs junk p s
      ≡ returned
          (answering (answer junk other_error (junk ∷ junk ∷ junk ∷ junk ∷ 0 ∷ junk ∷ []) 4 p) s)
unfolding echo_from_ifs get_file answer_length read_answer store
echo_from_ifs_missing junk p s id a r n room = rw (
  a.request,
  lt→ltb p.data_length (length p.data_block) a.room,
  a.number,
  n,
  r,
  async_send_packet-answering s.socket
      (answer junk other_error (junk ∷ junk ∷ junk ∷ junk ∷ 0 ∷ junk ∷ []) 4 p) room,
)
