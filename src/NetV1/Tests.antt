-- ===== src/NetV1/Tests.antt =====
-- Runs of the other framing on two packets of 19 and 18 bytes.
use just_for_test_and_try.Base.{
  ℕ, ◌≡◌, refl, false, true, none, some, List, [], ◌∷◌, ◌++◌, map, arith, length, drop, replicate,
  length-replicate, memmove, htonl, ntohl,
}
use just_for_test_and_try.Net.Package.{signed_ltb}
use just_for_test_and_try.Net.Packet.{Packet, returned}
use just_for_test_and_try.Net.Stream.{Outgoing}
use just_for_test_and_try.Net.Stream.Sending.{accepting}
use just_for_test_and_try.NetV1.{
  StreamSocketContext, Event, ready, interrupted, would_block, kept, deleted, chunking,
  handle_output, look, absorb, handle_input_impl,
}
use just_for_test_and_try.NetV1.Output.{frame, frames, Fits}
use just_for_test_and_try.NetV1.Unpack.{arrived}
use just_for_test_and_try.NetV1.Frames.{Holds}
use just_for_test_and_try.NetV1.Transport.{handle_input_impl-handle_output}

abbrev first : Packet
first = record {
  channel_id = 1;
  head_data = 5 ∷ 6 ∷ 0 ∷ [];
  head_length = 2;
  data_block = 9 ∷ [];
  data_length = 1;
  end_point = 3;
}

abbrev second : Packet
second = record {
  channel_id = 1;
  head_data = [];
  head_length = 0;
  data_block = 7 ∷ 8 ∷ [];
  data_length = 2;
  end_point = 3;
}

abbrev packets : List Packet
packets = first ∷ second ∷ []

first-Fits : Fits 64 first
first-Fits = record { head = omega arith; body = omega arith; small = omega arith }

second-Fits : Fits 64 second
second-Fits = record { head = omega arith; body = omega arith; small = omega arith }

abbrev sender : StreamSocketContext
sender = record {
  packet_queue = packets;
  recv_buffer = replicate 64 0;
  recv_buffer_length = 64;
  buffer_offset = 0;
  end_point = 3;
  need_ack = true;
  replied = false;
  reply = none;
}

sender-Holds : Holds sender []
sender-Holds = record {
  room = length-replicate {A = ℕ} 64 0;
  small = omega arith;
  offset = refl;
  held = refl;
}

abbrev outgoing : Outgoing
outgoing = record { wire = 7 ∷ []; accepts = none ∷ replicate 40 (some 5) }

accepting-outgoing : accepting outgoing.accepts ≡ 40
accepting-outgoing = refl

length-frames : length (frames packets) ≡ 37
unfolding htonl
length-frames = refl

-- The calls bring one byte each, but for the one that is interrupted.
abbrev events : List Event
events = ready 1 ∷ interrupted ∷ replicate 36 (ready 1) ++ would_block ∷ []

handle_input_impl-handle_output_example :
    (out' : Outgoing) × (c : StreamSocketContext) × (left : List Event) × (handle_output sender
        outgoing
      ≡ returned (record sender { packet_queue = [] }, out'))
    × (handle_input_impl 4 events (drop 1 out'.wire) sender
        ≡ returned (map (arrived 4 3) packets, kept c [] left))
    × Holds c []
unfolding htonl
handle_input_impl-handle_output_example =
    handle_input_impl-handle_output 4 events sender sender outgoing sender-Holds (omega arith)
      (first-Fits, (second-Fits, tt)) (omega (arith, accepting-outgoing, length-frames)) refl

-- A frame of 18 bytes, with a total length of 10, in a buffer of 16.
abbrev tight : StreamSocketContext
tight = record sender { recv_buffer = replicate 16 0; recv_buffer_length = 16 }

full_buffer :
    handle_input_impl 4 (ready 18 ∷ ready 18 ∷ []) (frame second) tight ≡ returned ([], deleted)
unfolding handle_input_impl absorb chunking look memmove htonl ntohl signed_ltb
full_buffer = refl
