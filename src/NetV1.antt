-- ===== src/NetV1.antt =====
-- single_fs/depends/net.v1/stream_socket_context.h and stream_socket_context.cpp: the other framing
-- of packets on a stream, which keeps what it has received of a packet between two calls. `undefined`
-- is undefined behaviour; `waiting` is a history that ends within the code, or a recursion that does
-- not end.
pub mod Output
pub mod Unpack
pub mod Frames
pub mod Chunking
pub mod Input
pub mod Transport
mod Tests
use just_for_test_and_try.Base.{
  ℕ, zero, suc, ◌+◌, ◌-◌, ◌%◌, Bool, true, false, not, Option, none, some, List, [], ◌∷◌, ◌++◌, ltb,
  leb, ◌==◌, if◌then◌else◌, length, drop, slice, memmove, min, int_limit, htonl, ntohl,
}
use just_for_test_and_try.Net.Package.{word_limit, signed_ltb}
use just_for_test_and_try.Net.Packet.{
  Packet, Outcome, undefined, waiting, returned, ◌>>=◌, ◌>>◌, require, defined,
}
use just_for_test_and_try.Net.Stream.{Outgoing, send}

-- `recv_buffer_` holds `buffer_offset_` bytes. `reply` is what `*ret_buf_` holds.
pub record StreamSocketContext : Type 0 where
  pub packet_queue : List Packet
  pub recv_buffer : List ℕ
  pub recv_buffer_length : ℕ
  pub buffer_offset : ℕ
  pub end_point : ℕ
  pub need_ack : Bool
  pub replied : Bool
  pub reply : Option Packet

-- One round of `HandleOutput` for a packet of the queue.
unfoldable pub send_packet : Packet → Outgoing → Outcome Outgoing
send_packet p o = do
  o1 ← send (htonl 1) 4 o
  o2 ← send (htonl ((4 + p.head_length + 4 + p.data_length) % word_limit)) 4 o1
  o3 ← send (htonl p.head_length) 4 o2
  o4 ← send p.head_data p.head_length o3
  o5 ← send (htonl p.data_length) 4 o4
  send p.data_block p.data_length o5

-- The loop of `HandleOutput`, which ends when Pop finds the queue empty.
unfoldable pub send_packets : List Packet → Outgoing → Outcome Outgoing
send_packets [] o = returned o
send_packets (p ∷ queue) o = do o' ← send_packet p o; send_packets queue o'

unfoldable pub handle_output :
    StreamSocketContext → Outgoing → Outcome (StreamSocketContext × Outgoing)
handle_output c o = do
  o' ← send_packets c.packet_queue o
  returned (record c { packet_queue = [] }, o')

-- `new char[n + 1]`, filled with `n` bytes of the buffer and a NUL; `n` is an int.
unfoldable pub copied : List ℕ → ℕ → ℕ → Option (List ℕ)
copied buffer at n =
    if ltb n int_limit
    then (if leb (at + n) (length buffer) then some (slice at n buffer ++ 0 ∷ []) else none)
    else none

-- The packet that `Chunking` makes of a whole frame in the buffer. `max_id` is the channel id that
-- a new Packet takes.
unfoldable pub unpack : ℕ → ℕ → List ℕ → Outcome Packet
unfolding copied
unpack max_id end_point buffer = do
  head_length ← defined (ntohl (drop 8 buffer))
  head_data ← defined (copied buffer 12 head_length)
  data_length ← defined (ntohl (drop (12 + head_length) buffer))
  data_block ← defined (copied buffer (16 + head_length) data_length)
  returned (record {
    channel_id = max_id;
    head_data = head_data;
    head_length = head_length;
    data_block = data_block;
    data_length = data_length;
    end_point = end_point;
  })

unfoldable pub acknowledge : StreamSocketContext → Packet → StreamSocketContext
acknowledge c p = if c.need_ack then record c { replied = true; reply = some p } else c

-- What stands in a buffer of 8 bytes or more: nothing that can be used, a part of a frame, or a
-- whole one with its total length, an int.
pub data Found : Type 0 where
  broken part : Found
  whole : ℕ → Found

unfoldable pub look : StreamSocketContext → Outcome Found
look c = do
  head ← defined (ntohl c.recv_buffer)
  total ← defined (ntohl (drop 4 c.recv_buffer))
  returned (
      if head == 1
      then (if signed_ltb total c.recv_buffer_length
          then (if signed_ltb (c.buffer_offset - 8) total then part else whole total)
          else broken)
      else broken)

-- The packet is taken out of the buffer, 8 bytes more than its total length. Fewer bytes than that
-- make the length of the copy negative, which is undefined.
unfoldable pub take_out : ℕ → ℕ → StreamSocketContext → Outcome (Packet × StreamSocketContext)
take_out max_id total c = do
  p ← unpack max_id c.end_point c.recv_buffer
  let shift = (total + 8) % word_limit
  require (ltb shift int_limit)
  require (leb shift c.buffer_offset)
  let left = c.buffer_offset - shift
  buffer ← defined (memmove c.recv_buffer 0 c.recv_buffer shift left)
  returned (p, acknowledge (record c { recv_buffer = buffer; buffer_offset = left }) p)

-- `Chunking`: the packets that the handler gets. It calls itself until no whole frame is left; the
-- argument after `max_id` bounds the depth.
unfoldable pub chunking : ℕ → ℕ → StreamSocketContext → Outcome (List Packet × StreamSocketContext)
chunking max_id zero c = waiting
chunking max_id (suc left) c =
    let body = (do
      found ← look c
      elim found [
        | broken ↦ returned ([], record c { buffer_offset = 0 })
        | part ↦ returned ([], c)
        | whole total ↦ do
          (p, c1) ← take_out max_id total c
          (ps, c') ← chunking max_id left c1
          returned (p ∷ ps, c')
      ]) in
    if ltb c.buffer_offset 8 then returned ([], c) else body

-- What a call of recv finds: up to so many bytes, the end of the stream, an error after which the
-- loop goes on, or that it would block.
pub data Event : Type 0 where
  ready : ℕ → Event
  closed interrupted would_block : Event

-- The context after a call, with what is left of the stream and of the events; or none.
pub data Kept : Type 0 where
  kept : StreamSocketContext → List ℕ → List Event → Kept
  deleted : Kept

-- A recv of `got` bytes, and `Chunking` on what the buffer then holds.
unfoldable pub absorb :
    ℕ → ℕ → List ℕ → StreamSocketContext → Outcome (List Packet × StreamSocketContext)
absorb max_id got arriving c = do
  buffer ← defined (memmove c.recv_buffer c.buffer_offset arriving 0 got)
  let offset = c.buffer_offset + got
  chunking max_id (suc offset) (record c { recv_buffer = buffer; buffer_offset = offset })

-- `HandleInputImpl`, which `HandleInput` calls before it returns 0. A recv into no room returns 0.
unfoldable pub handle_input_impl :
    ℕ → List Event → List ℕ → StreamSocketContext → Outcome (List Packet × Kept)
handle_input_impl max_id [] arriving c = waiting
handle_input_impl max_id (event ∷ events) arriving c =
    let room = c.recv_buffer_length - c.buffer_offset in
    let blocked : Outcome (List Packet × Kept) = returned ([], kept c arriving events) in
    let next : Outcome (List Packet × Kept) = elim event [
      | ready n ↦
          let got = min n (min room (length arriving)) in
          let some_bytes : Outcome (List Packet × Kept) = (do
            (ps, c') ← absorb max_id got arriving c
            (qs, k) ← handle_input_impl max_id events (drop got arriving) c'
            returned (ps ++ qs, k)) in
          if got == 0 then blocked else some_bytes
      | closed ↦ returned ([], deleted)
      | interrupted ↦ handle_input_impl max_id events arriving c
      | would_block ↦ blocked
    ] in
    if room == 0 then returned ([], deleted) else next
