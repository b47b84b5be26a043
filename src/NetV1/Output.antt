-- ===== src/NetV1/Output.antt =====
-- `HandleOutput` puts the frames of all its packets on the wire.
use just_for_test_and_try.Base.{
  ℕ, ◌+◌, ◌%◌, ◌≤◌, ◌<◌, ◌≡◌, refl, sym, List, [], ◌∷◌, ◌++◌, append-nil, arith, length, take,
  length-append, length-take, int_limit, htonl, length-htonl,
}
use just_for_test_and_try.Net.Package.{word_limit}
use just_for_test_and_try.Net.Packet.{Packet, returned}
use just_for_test_and_try.Net.Stream.{Outgoing}
use just_for_test_and_try.Net.Stream.Sending.{accepting, Sends, Sends-bind, send_word, send-Sends}
use just_for_test_and_try.NetV1.{StreamSocketContext, send_packet, send_packets, handle_output}

-- The bytes that stand for a packet.
abbrev pub total_length : Packet → ℕ
total_length p = 4 + p.head_length + 4 + p.data_length

abbrev pub frame : Packet → List ℕ
frame p =
    htonl 1
    ++ (htonl (total_length p)
        ++ (htonl p.head_length
            ++ (take p.head_length p.head_data
                ++ (htonl p.data_length ++ take p.data_length p.data_block))))

abbrev pub frames : List Packet → List ℕ
frames [] = []
frames (p ∷ ps) = frame p ++ frames ps

-- The blocks hold what the lengths say, and the frame fits a buffer of `room` bytes.
pub record Fits (room : ℕ) (p : Packet) : Type 0 where
  pub head : p.head_length ≤ length p.head_data
  pub body : p.data_length ≤ length p.data_block
  pub small : 8 + total_length p ≤ room

abbrev pub AllFit : ℕ → List Packet → Type 0
AllFit room [] = Unit {0}
AllFit room (p ∷ ps) = Fits room p × AllFit room ps

pub length-frame : (room : ℕ) (p : Packet) → Fits room p → length (frame p) ≡ 8 + total_length p
length-frame room p f =
    let head = take p.head_length p.head_data in
    let text = take p.data_length p.data_block in
    let d = htonl p.data_length ++ text in
    let c = htonl p.head_length ++ (head ++ d) in
    let b = htonl (total_length p) ++ c in
    omega (
      arith,
      length-append (htonl 1) b,
      length-append (htonl (total_length p)) c,
      length-append (htonl p.head_length) (head ++ d),
      length-append head d,
      length-append (htonl p.data_length) text,
      length-htonl 1,
      length-htonl (total_length p),
      length-htonl p.head_length,
      length-htonl p.data_length,
      length-take p.head_length p.head_data,
      length-take p.data_length p.data_block,
      f.head,
      f.body,
    )

send_packet-frame :
    (room : ℕ) (p : Packet) (o : Outgoing)
    → room < int_limit
    → Fits room p
    → 8 + total_length p ≤ accepting o.accepts
    → Sends (send_packet p o) o (frame p)
unfolding send_packet
send_packet-frame room p o r v h =
    let whole : (4 + p.head_length + 4 + p.data_length) % word_limit ≡ total_length p =
      omega (arith, v.small) in
    let n1 = length-htonl 1 in
    let n2 = length-htonl (total_length p) in
    let n3 = length-htonl p.head_length in
    let n4 = length-take p.head_length p.head_data in
    let n5 = length-htonl p.data_length in
    rw whole (
      Sends-bind _ _ _ _ _ (send_word 1 o (omega arith)) λ o1 s1.
        Sends-bind _ _ _ _ _ (send_word _ o1 (omega (arith, s1.calls, n1))) λ o2 s2.
          Sends-bind _ _ _ _ _ (send_word _ o2 (omega (arith, s1.calls, s2.calls, n1, n2))) λ o3 s3.
            Sends-bind _ _ _ _ _
              (send-Sends p.head_data p.head_length o3 v.head (omega (arith, v.small))
                (omega (arith, s1.calls, s2.calls, s3.calls, n1, n2, n3)))
              λ o4 s4.
                Sends-bind _ _ _ _ _
                  (send_word _ o4
                    (omega (arith, s1.calls, s2.calls, s3.calls, s4.calls, n1, n2, n3, n4)))
                  λ o5 s5.
                    send-Sends p.data_block p.data_length o5 v.body (omega (arith, v.small)) (
                      omega (
                        arith, s1.calls, s2.calls, s3.calls, s4.calls, s5.calls, n1, n2, n3, n4, n5,
                      )))

send_packets-frames :
    (room : ℕ) (ps : List Packet) (o : Outgoing)
    → room < int_limit
    → AllFit room ps
    → length (frames ps) ≤ accepting o.accepts
    → Sends (send_packets ps o) o (frames ps)
unfolding send_packets
send_packets-frames room [] o r v h =
    (o, refl, record { wire = sym (append-nil o.wire); calls = omega arith })
send_packets-frames room (p ∷ ps) o r v h =
    let n = length-frame room p v.0 in
    let whole = length-append (frame p) (frames ps) in
    Sends-bind _ _ _ _ _ (send_packet-frame room p o r v.0 (omega (arith, n, whole)))
      λ o' s. send_packets-frames room ps o' r v.1 (omega (arith, n, whole, s.calls))

-- HandleOutput sends the frames of the packets in its queue, in order, and leaves the queue empty,
-- if the frames are below 2 ^ 31 bytes each, the blocks hold what the lengths say, and as many calls
-- of send take something as there are bytes.
pub handle_output-frames :
    (room : ℕ) (c : StreamSocketContext) (o : Outgoing)
    → room < int_limit
    → AllFit room c.packet_queue
    → length (frames c.packet_queue) ≤ accepting o.accepts
    → (o' : Outgoing) × (handle_output c o ≡ returned (record c { packet_queue = [] }, o'))
      × (o'.wire ≡ o.wire ++ frames c.packet_queue)
unfolding handle_output
handle_output-frames room c o r v h =
    let (o', e, s) = send_packets-frames room c.packet_queue o r v h in (o', rw e, s.wire)
