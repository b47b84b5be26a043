-- ===== src/Net/Stream/Tests.antt =====
-- Runs of the socket's model on a packet with two bytes in its head and one of data.
use just_for_test_and_try.Base.{
  ℕ, ◌≡◌, refl, true, false, none, some, List, [], ◌∷◌, ◌++◌, arith, length, drop, replicate,
  length-replicate, htonl,
}
use just_for_test_and_try.Net.Packet.{Packet, returned, waiting}
use just_for_test_and_try.Net.Stream.{
  StreamSocketContext, Incoming, Outgoing, received, handle_input, handle_output,
}
use just_for_test_and_try.Net.Stream.Sending.{accepting, frame, IsPacket}
use just_for_test_and_try.Net.Stream.Receiving.{offering}
use just_for_test_and_try.Net.Stream.Buffer.{IsValid}
use just_for_test_and_try.Net.Stream.Decode.{Delivered}
use just_for_test_and_try.Net.Stream.Transport.{handle_input-handle_output}
use just_for_test_and_try.Net.Stream.Framing.{Served, handle_input_overrun}

abbrev packet : Packet
packet = record {
  channel_id = 1;
  head_data = 5 ∷ 6 ∷ 0 ∷ [];
  head_length = 2;
  data_block = 9 ∷ [];
  data_length = 1;
  end_point = 3;
}

packet-IsPacket : IsPacket packet
packet-IsPacket = record {
  head = omega arith;
  body_of = omega arith;
  small = omega arith;
  channel = omega arith;
}

abbrev context : StreamSocketContext
context = record {
  packet_queue = packet ∷ [];
  recv_buffer = replicate 111 0;
  recv_buffer_length = 111;
  end_point = 3;
  need_ack = true;
  replied = false;
  reply = none;
}

context-IsValid : IsValid context
context-IsValid = record { room = length-replicate {A = ℕ} 111 0; small = omega arith }

abbrev offers : List ℕ
offers = replicate 20 8

length-offers : length offers ≡ 20
length-offers = length-replicate {A = ℕ} 20 8

offering-offers : offering offers ≡ 20
offering-offers = refl

handle_input_overrun_example :
    handle_input 0 [] 1 context
      (record { arriving = frame packet ++ frame packet; offers = 4 ∷ 4 ∷ 100 ∷ [] })
    ≡ waiting
unfolding htonl
handle_input_overrun_example =
    handle_input_overrun 0 [] 1 context packet 4 100 (frame packet) [] context-IsValid
      packet-IsPacket (omega arith) (λ e. omega (arith, e)) (omega arith) (omega arith)
      (omega arith)

abbrev outgoing : Outgoing
outgoing = record { wire = 7 ∷ []; accepts = none ∷ replicate 23 (some 5) }

accepting-outgoing : accepting outgoing.accepts ≡ 23
accepting-outgoing = refl

handle_input-handle_output_example :
    (out' : Outgoing) × (q : Packet) × (c : StreamSocketContext) × (l : Incoming) × (handle_output
        context outgoing
      ≡ returned (some packet, record context { packet_queue = [] }, out'))
    × (handle_input 0 [] 1 context (record { arriving = drop 1 out'.wire; offers = 4 ∷ offers })
        ≡ returned (received q, c, l))
    × Delivered packet q
    × Served context q c
    × (l.arriving ≡ [])
handle_input-handle_output_example =
    handle_input-handle_output 0 [] 1 context context packet [] outgoing 4 offers refl
      packet-IsPacket (omega arith) (omega (arith, accepting-outgoing)) context-IsValid
      (omega arith) (omega (arith, offering-offers)) (omega (arith, length-offers))
