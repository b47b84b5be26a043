-- ===== src/App/Client.antt =====
-- single_fs/app/client.cpp: `Get` and `Put`, each up to the packet that SyncSendPacket sends and
-- from the packet that it brings back. `false` is the result -1. `junk` is what memory holds before
-- it is written; `max_id` the channel id of a new packet.
use just_for_test_and_try.Base.{
  ℕ, ◌+◌, ◌*◌, ◌%◌, ◌^◌, Bool, true, false, Option, none, some, List, [], ◌∷◌, ◌++◌, ltb, ◌==◌,
  if◌then◌else◌, length, take, drop, replicate, store, int_limit, htonl, ntohl,
}
use just_for_test_and_try.Net.Package.{signed_ltb}
use just_for_test_and_try.Net.Packet.{
  Packet, Outcome, undefined, returned, ◌>>=◌, ◌>>◌, require, defined,
}
use just_for_test_and_try.Fs.FileUtils
use just_for_test_and_try.App.{get_request, put_request, request_code}

-- What snprintf prints of a text that it takes for the format: a percent sign with anything but
-- another behind it asks for an argument that is not there.
unfoldable pub formatted : List ℕ → Option (List ℕ)
formatted [] = some []
formatted (b ∷ []) = if b == 37 then none else some (b ∷ [])
formatted (b ∷ c ∷ text) =
    let rest = formatted text in
    let next = formatted (c ∷ text) in
    if b == 37
    then (if c == 37 then (elim rest [ none ↦ none | some t ↦ some (37 ∷ t) ]) else none)
    else (elim next [ none ↦ none | some t ↦ some (b ∷ t) ])

-- The bytes that snprintf leaves in a block of 100 bytes.
unfoldable pub printed : List ℕ → List ℕ → List ℕ
printed text block = let t = take 99 text in t ++ 0 ∷ drop (length t + 1) block

unfoldable pub get_packet : ℕ → ℕ → ℕ → List ℕ → Outcome Packet
unfolding formatted printed request_code
get_packet junk max_id end_point file_id = do
  text ← defined (formatted file_id)
  returned (record {
    channel_id = max_id;
    head_data = htonl (request_code get_request) ++ replicate 4 junk;
    head_length = 8;
    data_block = printed text (htonl (request_code get_request) ++ replicate 96 junk);
    data_length = (length text + 4) % 2 ^ 32;
    end_point = end_point;
  })

-- "client_data/" and the file's number, cut to 99 bytes.
unfoldable pub data_path : List ℕ → List ℕ
data_path file_id =
    take 99 (99 ∷ 108 ∷ 105 ∷ 101 ∷ 110 ∷ 116 ∷ 95 ∷ 100 ∷ 97 ∷ 116 ∷ 97 ∷ 47 ∷ file_id)

-- `accepts` are the calls of fwrite. What write returns is not used.
unfoldable pub get_answer :
    List ℕ → Packet → List ℕ → FileUtils.Files → Outcome (Bool × FileUtils.Files)
get_answer file_id p accepts fs = do
  response ← defined (ntohl p.head_data)
  let save = (do
    _ ← defined (store p.data_block p.data_length 0)
    require (ltb p.data_length int_limit)
    let written =
        FileUtils.write (take p.data_length p.data_block) accepts (data_path file_id) true fs
    returned (true, elim written [ FileUtils.failed _ ↦ fs | FileUtils.done (_, fs') ↦ fs' ]))
  if ltb response int_limit then save else returned (false, fs)

-- The packet of a PUT, or none for a file that is not there or is too big. A size that is negative
-- as an int passes the test and has no buffer.
unfoldable pub put_packet : ℕ → ℕ → ℕ → List ℕ → FileUtils.Files → Outcome (Option Packet)
unfolding request_code
put_packet junk max_id end_point path fs =
    let send : ℕ → Outcome (Option Packet) = λ size. (do
      require (ltb size int_limit)
      elim (FileUtils.read path fs) [
        | FileUtils.failed _ ↦ undefined
        | FileUtils.done bytes ↦ returned (
            some (record {
              channel_id = max_id;
              head_data = htonl (request_code put_request) ++ replicate 4 junk;
              head_length = 8;
              data_block = take size bytes;
              data_length = size;
              end_point = end_point;
            }))
      ]) in
    let sized : Outcome (Option Packet) = elim (FileUtils.get_file_size path fs) [
      | none ↦ undefined
      | some size ↦ if signed_ltb (10 * 1024 * 1024) size then returned none else send size
    ] in
    if FileUtils.is_exists_file path fs then sized else returned none

-- What the client makes of the answer to a PUT: the file's number.
unfoldable pub put_answer : Packet → Outcome (Option ℕ)
put_answer p = do
  response ← defined (ntohl p.head_data)
  let id = (do n ← defined (ntohl p.data_block); returned (some n))
  if ltb response int_limit then id else returned none
