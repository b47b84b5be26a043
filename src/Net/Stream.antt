-- ===== src/Net/Stream.antt =====
-- single_fs/depends/net/stream_socket_context.h and stream_socket_context.cpp: packets are framed
-- on a stream. The socket is given by its history: what each call of recv may take at most, and
-- what each call of send accepts (`none` for an error). `stale` and `junk` are what memory holds
-- before it is written.
pub mod Sending
pub mod Receiving
pub mod Buffer
pub mod Decode
pub mod Framing
pub mod Transport
mod Tests
use just_for_test_and_try.Base.{
  ℕ, ◌+◌, ◌-◌, ◌*◌, ◌/◌, ◌%◌, Bool, true, false, not, ◌&&◌, Option, none, some, List, [], ◌∷◌, ◌++◌,
  ltb, leb, ◌==◌, if◌then◌else◌, length, take, drop, slice, replicate, memmove, min, int_limit,
  htonl, ntohl,
}
use just_for_test_and_try.Net.Package.{word_limit}
use just_for_test_and_try.Net.Packet.{
  Packet, Outcome, undefined, waiting, returned, ◌>>=◌, ◌>>◌, require, defined,
}

-- `packet_queue_`, `recv_buffer_` with its length, `end_point_`, and the three fields of a caller
-- that waits for a reply. `reply` is what `*ret_buf_` holds.
pub record StreamSocketContext : Type 0 where
  pub packet_queue : List Packet
  pub recv_buffer : List ℕ
  pub recv_buffer_length : ℕ
  pub end_point : ℕ
  pub need_ack : Bool
  pub replied : Bool
  pub reply : Option Packet

-- The receiving side of the socket: the bytes on their way, and the most that each call takes.
pub record Incoming : Type 0 where
  pub arriving : List ℕ
  pub offers : List ℕ

-- The sending side: the bytes sent, and how many each call accepts.
pub record Outgoing : Type 0 where
  pub wire : List ℕ
  pub accepts : List (Option ℕ)

unfoldable pub set_sync : StreamSocketContext → StreamSocketContext
set_sync c = record c { replied = false; need_ack = true }

-- `AsyncSendPacket`: a Push on a full queue does not return by itself.
unfoldable pub async_send_packet : StreamSocketContext → Packet → Outcome StreamSocketContext
async_send_packet c p =
    if ltb (length c.packet_queue) 10
    then returned (record c { packet_queue = c.packet_queue ++ p ∷ [] })
    else waiting

-- How much of `left` bytes one call of send takes.
unfoldable pub accepted : Option ℕ → ℕ → ℕ
accepted none left = 0
accepted (some k) left = min k (min 4096 left)

-- The loop of `Send`. A failed call counts as one that takes nothing: both test for the end.
unfoldable pub send_loop : List ℕ → ℕ → List (Option ℕ) → List ℕ → Outcome Outgoing
send_loop bytes sent [] wire = waiting
send_loop bytes sent (a ∷ accepts) wire =
    let n = accepted a (length bytes - sent) in
    let wire' = wire ++ slice sent n bytes in
    let rest = send_loop bytes (sent + n) accepts wire' in
    if sent + n == length bytes then returned (record { wire = wire'; accepts = accepts }) else rest

unfoldable pub send : List ℕ → ℕ → Outgoing → Outcome Outgoing
send block n o =
    let go = (do
      require (ltb n int_limit)
      require (leb n (length block))
      send_loop (take n block) 0 o.accepts o.wire) in
    if n == 0 then returned o else go

-- `HandleOutput` for a packet taken from the queue.
unfoldable pub send_packet : Packet → Outgoing → Outcome Outgoing
send_packet p o = do
  o1 ← send (htonl 1) 4 o
  o2 ← send (htonl ((4 + 4 + p.head_length + 4 + p.data_length) % word_limit)) 4 o1
  o3 ← send (htonl p.channel_id) 4 o2
  o4 ← send (htonl p.head_length) 4 o3
  o5 ← send p.head_data p.head_length o4
  o6 ← send (htonl p.data_length) 4 o5
  send p.data_block p.data_length o6

-- `HandleOutput`; the packet is the one that `OnSent` is told of, `none` the result -1.
unfoldable pub handle_output :
    StreamSocketContext → Outgoing → Outcome (Option Packet × StreamSocketContext × Outgoing)
handle_output c o = elim c.packet_queue [
  | [] ↦ returned (none, c, o)
  | p ∷ queue ↦ do o' ← send_packet p o; returned (some p, record c { packet_queue = queue }, o')
]

-- The loop of `Recv`: `received` are the bytes so far, `time` the microseconds without one.
unfoldable pub recv_loop : ℕ → List ℕ → ℕ → List ℕ → List ℕ → Outcome (Option (List ℕ) × Incoming)
recv_loop n received time [] arriving = waiting
recv_loop n received time (o ∷ offers) arriving =
    let got = take (min (n - length received) o) arriving in
    let left : Incoming = record {
      arriving = drop (min (n - length received) o) arriving;
      offers = offers;
    } in
    let nothing = length got == 0 in
    let rest =
      recv_loop n (received ++ got) (if nothing then time + 10 else 0) offers left.arriving in
    if length (received ++ got) == n
    then returned (some (received ++ got), left)
    else if nothing && ltb 1000000 (time + 10)
    then returned (none, left)
    else rest

pub data Header : Type 0 where
  disconnected : Header
  unrecognized : Header
  timed_out : Header
  total_length : ℕ → Header

-- One call of recv with room for `n` bytes.
unfoldable pub recv : ℕ → Incoming → Outcome (List ℕ × Incoming)
recv n l = elim l.offers [
  | [] ↦ waiting
  | o ∷ offers ↦
      returned (
        take (min n o) l.arriving,
        record { arriving = drop (min n o) l.arriving; offers = offers },
      )
]

-- The length that `ParseHeader` reads behind the first word.
unfoldable pub parse_length : Incoming → Outcome (Header × Incoming)
parse_length l = do
  (word, l') ← recv_loop 4 [] 0 l.offers l.arriving
  elim word [
    | none ↦ returned (timed_out, l')
    | some bytes ↦ do n ← defined (ntohl bytes); returned (total_length n, l')
  ]

-- `ParseHeader`: its first word comes from one call of recv, however many bytes that brings.
unfoldable pub parse_header : List ℕ → Incoming → Outcome (Header × Incoming)
unfolding recv parse_length
parse_header stale l = do
  (got, l') ← recv 4 l
  let flagged = (do
    flag ← defined (ntohl (got ++ drop (length got) stale))
    if flag == 1 then parse_length l' else returned (unrecognized, l'))
  if length got == 0 then returned (disconnected, l') else flagged

-- `ReallocBuffer`: a length that is no int32_t throws.
unfoldable pub realloc_buffer : ℕ → StreamSocketContext → ℕ → ℕ → Outcome StreamSocketContext
realloc_buffer junk c new_length cp_length = do
  require (ltb new_length int_limit)
  buffer ← defined (memmove (replicate new_length junk) 0 c.recv_buffer 0 cp_length)
  returned (record c { recv_buffer = buffer; recv_buffer_length = new_length })

-- `AdjustBuffer`, which has no caller.
unfoldable pub adjust_buffer : ℕ → StreamSocketContext → ℕ → Outcome StreamSocketContext
adjust_buffer junk c received =
    let grow = realloc_buffer junk c (2 * c.recv_buffer_length) received in
    let shrink = realloc_buffer junk c (c.recv_buffer_length / 2) received in
    if leb (c.recv_buffer_length / 2) received && ltb c.recv_buffer_length (1024 * 1024 * 10)
    then grow
    else if ltb received (c.recv_buffer_length / 3) && ltb 111 c.recv_buffer_length
    then shrink
    else returned c

-- The choice of the buffer in `HandleInput`.
unfoldable pub fit_buffer : ℕ → StreamSocketContext → ℕ → Outcome StreamSocketContext
fit_buffer junk c total =
    let grow = realloc_buffer junk c ((total + 10) % word_limit) 0 in
    let shrink = realloc_buffer junk c (c.recv_buffer_length / 2) 0 in
    if ltb c.recv_buffer_length total
    then grow
    else if ltb total (c.recv_buffer_length / 3) && ltb 111 total
    then shrink
    else returned c

-- The loop of `HandleInput`: it ends only at a call that brings nothing.
unfoldable pub body_loop : ℕ → List ℕ → ℕ → ℕ → List ℕ → List ℕ → Outcome (List ℕ × Incoming)
body_loop total buffer size received [] arriving = waiting
body_loop total buffer size received (o ∷ offers) arriving =
    let got = take (min (size - received) o) arriving in
    let left = drop (min (size - received) o) arriving in
    let again = body_loop total buffer size received offers left in
    let more = (do
      buffer' ← defined (memmove buffer received got 0 (length got))
      body_loop total buffer' size (received + length got) offers left) in
    if length got == 0
    then (if received == total
        then returned (buffer, record { arriving = left; offers = offers })
        else again)
    else more

-- `n` bytes at a place in the buffer, copied into a block with `spare` bytes more.
unfoldable pub copy_out : ℕ → List ℕ → ℕ → ℕ → ℕ → Outcome (List ℕ)
copy_out junk buffer at n spare = do
  require (leb (at + n) (length buffer))
  returned (slice at n buffer ++ replicate spare junk)

-- The packet in a buffer. The channel id in it is read and not used: a new packet has the
-- channel's largest one, `max_id`.
unfoldable pub decode_packet : ℕ → ℕ → ℕ → List ℕ → Outcome Packet
unfolding copy_out
decode_packet junk max_id end_point buffer = do
  _ ← defined (ntohl buffer)
  head_length ← defined (ntohl (drop 4 buffer))
  head_data ← copy_out junk buffer 8 head_length 0
  data_length ← defined (ntohl (drop (8 + head_length) buffer))
  data_block ← copy_out junk buffer (8 + head_length + 4) data_length 5
  returned (record {
    channel_id = max_id;
    head_data = head_data;
    head_length = head_length;
    data_block = data_block;
    data_length = data_length;
    end_point = end_point;
  })

-- What `HandleInput` returns: 0 with the packet that `OnReceived` is told of, or an error.
pub data Input : Type 0 where
  received : Packet → Input
  failed : Header → Input

unfoldable pub acknowledge : StreamSocketContext → Packet → StreamSocketContext
acknowledge c p = if c.need_ack then record c { replied = true; reply = some p } else c

-- `HandleInput` behind the header.
unfoldable pub receive_packet :
    ℕ → ℕ → StreamSocketContext → ℕ → Incoming → Outcome (Input × StreamSocketContext × Incoming)
receive_packet junk max_id c total l = do
  c1 ← fit_buffer junk c total
  (buffer, l') ← body_loop total c1.recv_buffer c1.recv_buffer_length 0 l.offers l.arriving
  p ← decode_packet junk max_id c.end_point buffer
  returned (received p, acknowledge (record c1 { recv_buffer = buffer }) p, l')

unfoldable pub handle_input :
    ℕ
    → List ℕ
    → ℕ
    → StreamSocketContext
    → Incoming
    → Outcome (Input × StreamSocketContext × Incoming)
handle_input junk stale max_id c l = do
  (header, l') ← parse_header stale l
  elim header [
    | total_length total ↦ receive_packet junk max_id c total l'
    | error ↦ returned (failed error, c, l')
  ]
