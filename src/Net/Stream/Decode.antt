-- ===== src/Net/Stream/Decode.antt =====
-- What `HandleInput` makes of the bytes of a frame in its buffer.
use just_for_test_and_try.Base.{
  ℕ, ◌+◌, ◌≤◌, ◌≡◌, refl, ap, sym, ◌∙◌, some, List, [], ◌++◌, append-nil, append_assoc, arith,
  length, take, drop, slice, replicate, length-append, length-take, length-replicate, drop-drop,
  drop-append_eq, take-append_eq, le→leb, htonl, ntohl, ntohl-append, length-htonl,
}
use just_for_test_and_try.Net.Packet.{Packet, returned}
use just_for_test_and_try.Net.Stream.{decode_packet}
use just_for_test_and_try.Net.Stream.Sending.{body, IsPacket}

-- The packet that comes out is the one that went in, but for its channel and its end point.
pub record Delivered (p : Packet) (q : Packet) : Type 0 where
  pub head_length : q.head_length ≡ p.head_length
  pub head : q.head_data ≡ take p.head_length p.head_data
  pub data_length : q.data_length ≡ p.data_length
  pub text : take q.data_length q.data_block ≡ take p.data_length p.data_block
  pub spare : length q.data_block ≡ q.data_length + 5

-- The packet made of what stands in a buffer.
decoded : ℕ → ℕ → ℕ → List ℕ → ℕ → List ℕ → ℕ → Packet
decoded junk max_id end_point head head_length text data_length = record {
  channel_id = max_id;
  head_data = head ++ [];
  head_length = head_length;
  data_block = text ++ replicate 5 junk;
  data_length = data_length;
  end_point = end_point;
}

decode_parts :
    (junk max_id end_point ch hl dl : ℕ) (b head text : List ℕ)
    → ntohl b ≡ some ch
    → ntohl (drop 4 b) ≡ some hl
    → slice 8 hl b ≡ head
    → 8 + hl ≤ length b
    → ntohl (drop (8 + hl) b) ≡ some dl
    → slice (8 + hl + 4) dl b ≡ text
    → 8 + hl + 4 + dl ≤ length b
    → decode_packet junk max_id end_point b
      ≡ returned (decoded junk max_id end_point head hl text dl)
unfolding decode_packet decoded
decode_parts junk max_id end_point ch hl dl b head text e1 e2 e3 h3 e4 e5 h5 =
    rw (e1, e2, le→leb _ _ h3, e3, e4, le→leb _ _ h5, e5)

pub decode_body :
    (junk max_id end_point : ℕ) (p : Packet) (tail : List ℕ)
    → IsPacket p
    → (q : Packet) × (decode_packet junk max_id end_point (body p ++ tail) ≡ returned q)
      × Delivered p q
unfolding decoded
decode_body junk max_id end_point p tail v =
    let hl = p.head_length in
    let dl = p.data_length in
    let head = take hl p.head_data in
    let text = take dl p.data_block in
    let b5 = text ++ tail in
    let b4 = htonl dl ++ b5 in
    let b3 = head ++ b4 in
    let b2 = htonl hl ++ b3 in
    let b = htonl p.channel_id ++ b2 in
    let assoc : body p ++ tail ≡ b = simp append_assoc in
    let n1 = length-htonl p.channel_id in
    let n2 = length-htonl hl in
    let n3 : length head ≡ hl = omega (arith, length-take hl p.head_data, v.head) in
    let n4 = length-htonl dl in
    let n5 : length text ≡ dl = omega (arith, length-take dl p.data_block, v.body_of) in
    let d2 : drop 4 b ≡ b2 = drop-append_eq 4 (htonl p.channel_id) b2 (sym n1) in
    let d3 : drop 8 b ≡ b3 =
      sym (drop-drop 4 4 b) ∙ ap (drop 4) d2 ∙ drop-append_eq 4 (htonl hl) b3 (sym n2) in
    let d4 : drop (8 + hl) b ≡ b4 =
      sym (drop-drop hl 8 b) ∙ ap (drop hl) d3 ∙ drop-append_eq hl head b4 (sym n3) in
    let d5 : drop (8 + hl + 4) b ≡ b5 =
      sym (drop-drop 4 (8 + hl) b) ∙ ap (drop 4) d4 ∙ drop-append_eq 4 (htonl dl) b5 (sym n4) in
    let len : 8 + hl + 4 + dl ≤ length b = omega (
      arith,
      length-append (htonl p.channel_id) b2,
      length-append (htonl hl) b3,
      length-append head b4,
      length-append (htonl dl) b5,
      length-append text tail,
    ) in
    let same =
      decode_parts junk max_id end_point p.channel_id hl dl b head text
        (ntohl-append p.channel_id b2 v.channel)
        (ap ntohl d2 ∙ ntohl-append hl b3 (omega (arith, v.small)))
        (ap (take hl) d3 ∙ take-append_eq hl head b4 (sym n3)) (omega (arith, len))
        (ap ntohl d4 ∙ ntohl-append dl b5 (omega (arith, v.small)))
        (ap (take dl) d5 ∙ take-append_eq dl text tail (sym n5)) len in
    (
      decoded junk max_id end_point head hl text dl,
      ap (decode_packet junk max_id end_point) assoc ∙ same,
      record {
        head_length = refl;
        head = append-nil head;
        data_length = refl;
        text = take-append_eq dl text (replicate 5 junk) (sym n5);
        spare = omega (arith, length-append text (replicate 5 junk), length-replicate 5 junk, n5);
      },
    )
