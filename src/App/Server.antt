-- ===== src/App/Server.antt =====
-- single_fs/app/server_handler.cpp: `EchoFromIfs`, which `OnReceived` calls. `junk` is what memory
-- holds before it is written.
use just_for_test_and_try.Base.{
  ℕ, ◌+◌, ◌%◌, ◌^◌, Option, none, some, List, [], ◌∷◌, ◌++◌, ltb, leb, ◌==◌, if◌then◌else◌, length,
  take, replicate, memmove, store, int_limit, htonl, ntohl,
}
use just_for_test_and_try.Net.Packet.{Packet, Outcome, returned, ◌>>=◌, ◌>>◌, require, defined}
use just_for_test_and_try.Net.Stream.{StreamSocketContext, async_send_packet}
use just_for_test_and_try.Fs.Ifs
use just_for_test_and_try.App.{
  Response, file_did_not_exist, success, other_error, get_request, put_request, request_code,
  response_code, atoi,
}

-- The file system of the process, its files, and the socket that the answer goes to.
pub record Server : Type 0 where
  pub ifs : Ifs.Ifs
  pub disk : Ifs.Disk
  pub socket : StreamSocketContext

-- The number in the text of a GET: 10 for one that is not positive.
unfoldable pub file_number : List ℕ → Outcome ℕ
file_number text = do
  n ← defined (atoi text)
  returned (if n.0 then 10 else if n.1 == 0 then 10 else n.1)

-- The packet that came, as the answer.
unfoldable pub answer : ℕ → Response → List ℕ → ℕ → Packet → Packet
answer junk response buf n p = record p {
  head_data = htonl (response_code response) ++ replicate 4 junk;
  head_length = 8;
  data_block = buf;
  data_length = n % 2 ^ 32;
}

-- The length that a GET answers with, and what it knows of the file.
unfoldable pub answer_length : Option ℕ → Response × ℕ
answer_length none = (file_did_not_exist, 4)
answer_length (some n) = if ltb n (2 ^ 63) then (success, n) else (file_did_not_exist, 4)

-- The buffer and the response after the read.
unfoldable pub read_answer : Response → Option (List ℕ) → List ℕ → Outcome (Response × List ℕ)
read_answer success none buf = returned (success, buf)
read_answer response none buf = returned (other_error, buf)
read_answer response (some bytes) buf = do
  buf' ← defined (memmove buf 0 bytes 0 (length bytes))
  returned (response, buf')

unfoldable pub get_file : ℕ → Packet → Server → Outcome Server
get_file junk p s = do
  data_ ← defined (store p.data_block p.data_length 0)
  id ← file_number data_
  let (response, n) = answer_length (Ifs.get_length id s.ifs)
  buf ← defined (store (replicate (n + 2) junk) n 0)
  (response', buf') ← read_answer response (Ifs.read id s.disk s.ifs) buf
  socket ← async_send_packet s.socket (answer junk response' buf' n p)
  returned (record s { socket = socket })

unfoldable pub put_file : ℕ → Packet → Server → Outcome Server
put_file junk p s = do
  require (leb p.data_length (length p.data_block))
  let (ifs, disk, file_id) = Ifs.write (take p.data_length p.data_block) s.disk s.ifs
  let response = if ltb file_id int_limit then success else other_error
  socket ← async_send_packet s.socket (answer junk response (htonl file_id ++ junk ∷ []) 4 p)
  returned (record { ifs = ifs; disk = Ifs.save_metadata disk ifs; socket = socket })

unfoldable pub echo_from_ifs : ℕ → Packet → Server → Outcome Server
unfolding request_code
echo_from_ifs junk p s = do
  request ← defined (ntohl p.head_data)
  if request == request_code get_request
      then get_file junk p s
      else if request == request_code put_request
      then put_file junk p s
      else returned s
