-- ===== src/Net/Stream/Transport.antt =====
-- From one side of a stream to the other.
use just_for_test_and_try.Base.{
  ℕ, ◌+◌, ◌≤◌, ◌<◌, ◌≡◌, ap, ◌∙◌, some, List, [], ◌∷◌, int_limit, length, drop, drop-append,
}
use just_for_test_and_try.Net.Packet.{Packet, returned}
use just_for_test_and_try.Net.Stream.{
  StreamSocketContext, Incoming, Outgoing, received, handle_output, handle_input,
}
use just_for_test_and_try.Net.Stream.Sending.{
  accepting, whole_length, frame, IsPacket, handle_output-frame,
}
use just_for_test_and_try.Net.Stream.Receiving.{offering}
use just_for_test_and_try.Net.Stream.Buffer.{IsValid}
use just_for_test_and_try.Net.Stream.Decode.{Delivered}
use just_for_test_and_try.Net.Stream.Framing.{Served, handle_input-frame}

-- HandleOutput takes the first packet off its queue and sends it, and HandleInput of the other
-- side, on just the bytes that were sent, returns a packet with the same head and the same data,
-- serves a caller that waits for a reply and leaves nothing in the socket: for a packet whose
-- blocks hold what its lengths say and whose whole length is an int32_t with ten to spare, as many
-- calls of send that take something as the frame has bytes, a valid context on the other side, a
-- first call of recv that may take four bytes, more calls than the frame has further bytes that
-- may take something, and at most 100000 calls.
pub handle_input-handle_output :
    (junk : ℕ) (stale : List ℕ) (max_id : ℕ) (sender receiver : StreamSocketContext) (p : Packet)
    (queue : List Packet) (out : Outgoing) (o : ℕ) (os : List ℕ)
    → sender.packet_queue ≡ p ∷ queue
    → IsPacket p
    → whole_length p + 10 < int_limit
    → 8 + whole_length p ≤ accepting out.accepts
    → IsValid receiver
    → 4 ≤ o
    → 4 + whole_length p < offering os
    → length os ≤ 100000
    → (out' : Outgoing) × (q : Packet) × (c : StreamSocketContext) × (l : Incoming) × (handle_output
          sender out
        ≡ returned (some p, record sender { packet_queue = queue }, out'))
      × (handle_input junk stale max_id receiver
            (record { arriving = drop (length out.wire) out'.wire; offers = o ∷ os })
          ≡ returned (received q, c, l))
      × Delivered p q
      × Served receiver q c
      × (l.arriving ≡ [])
handle_input-handle_output junk stale max_id sender receiver p queue out o os e v s a r h1 h2 h3 =
    let (out', f, w) = handle_output-frame sender p queue out e v a in
    let (q, c, l, g, d, sv, done) =
      handle_input-frame junk stale max_id receiver p o os r v s h1 h2 h3 in
    let sent : drop (length out.wire) out'.wire ≡ frame p =
      ap (drop (length out.wire)) w ∙ drop-append out.wire (frame p) in
    (out', q, c, l, f, rw sent g, d, sv, done)
