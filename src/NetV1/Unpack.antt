-- ===== src/NetV1/Unpack.antt =====
-- What `Chunking` reads in a buffer that starts with a frame.
use just_for_test_and_try.Base.{
  ℕ, ◌+◌, ◌≤◌, ◌<◌, ◌≡◌, ap, sym, ◌∙◌, some, List, [], ◌∷◌, ◌++◌, append_assoc, arith, length, take,
  drop, slice, length-append, length-take, drop-drop, drop-append_eq, take-append_eq, lt→ltb,
  le→leb, int_limit, htonl, ntohl, ntohl-append, length-htonl,
}
use just_for_test_and_try.Net.Packet.{Packet, returned}
use just_for_test_and_try.NetV1.{copied, unpack}
use just_for_test_and_try.NetV1.Output.{total_length, frame, Fits}

-- The packet that arrives: each block holds what its length says and a NUL.
abbrev pub arrived : ℕ → ℕ → Packet → Packet
arrived max_id end_point p = record {
  channel_id = max_id;
  head_data = take p.head_length p.head_data ++ 0 ∷ [];
  head_length = p.head_length;
  data_block = take p.data_length p.data_block ++ 0 ∷ [];
  data_length = p.data_length;
  end_point = end_point;
}

-- The four words of a frame and its two blocks, where they stand in a buffer.
pub record Laid (p : Packet) (b : List ℕ) : Type 0 where
  pub word : ntohl b ≡ some 1
  pub total : ntohl (drop 4 b) ≡ some (total_length p)
  pub head_length : ntohl (drop 8 b) ≡ some p.head_length
  pub head : slice 12 p.head_length b ≡ take p.head_length p.head_data
  pub data_length : ntohl (drop (12 + p.head_length) b) ≡ some p.data_length
  pub text : slice (16 + p.head_length) p.data_length b ≡ take p.data_length p.data_block
  pub room : 8 + total_length p ≤ length b

pub frame-Laid :
    (room : ℕ) (p : Packet) (tail : List ℕ)
    → room < int_limit
    → Fits room p
    → Laid p (frame p ++ tail)
frame-Laid room p tail r v =
    let hl = p.head_length in
    let dl = p.data_length in
    let head = take hl p.head_data in
    let text = take dl p.data_block in
    let b5 = text ++ tail in
    let b4 = htonl dl ++ b5 in
    let b3 = head ++ b4 in
    let b2 = htonl hl ++ b3 in
    let b1 = htonl (total_length p) ++ b2 in
    let b = htonl 1 ++ b1 in
    let assoc : frame p ++ tail ≡ b = simp append_assoc in
    let n0 = length-htonl 1 in
    let n1 = length-htonl (total_length p) in
    let n2 = length-htonl hl in
    let n3 : length head ≡ hl = omega (arith, length-take hl p.head_data, v.head) in
    let n4 = length-htonl dl in
    let n5 : length text ≡ dl = omega (arith, length-take dl p.data_block, v.body) in
    let d1 : drop 4 b ≡ b1 = drop-append_eq 4 (htonl 1) b1 (sym n0) in
    let d2 : drop 8 b ≡ b2 =
      sym (drop-drop 4 4 b)
      ∙ ap (drop 4) d1
      ∙ drop-append_eq 4 (htonl (total_length p)) b2 (sym n1) in
    let d3 : drop 12 b ≡ b3 =
      sym (drop-drop 4 8 b) ∙ ap (drop 4) d2 ∙ drop-append_eq 4 (htonl hl) b3 (sym n2) in
    let d4 : drop (12 + hl) b ≡ b4 =
      sym (drop-drop hl 12 b) ∙ ap (drop hl) d3 ∙ drop-append_eq hl head b4 (sym n3) in
    let e5 : 12 + hl + 4 ≡ 16 + hl = omega arith in
    let d5 : drop (16 + hl) b ≡ b5 =
      ap (λ k. drop k b) (sym e5)
      ∙ sym (drop-drop 4 (12 + hl) b)
      ∙ ap (drop 4) d4
      ∙ drop-append_eq 4 (htonl dl) b5 (sym n4) in
    rw assoc (record {
      word = ntohl-append 1 b1 (omega arith);
      total = ap ntohl d1 ∙ ntohl-append (total_length p) b2 (omega (arith, v.small));
      head_length = ap ntohl d2 ∙ ntohl-append hl b3 (omega (arith, v.small));
      head = ap (take hl) d3 ∙ take-append_eq hl head b4 (sym n3);
      data_length = ap ntohl d4 ∙ ntohl-append dl b5 (omega (arith, v.small));
      text = ap (take dl) d5 ∙ take-append_eq dl text tail (sym n5);
      room = omega (
        arith,
        length-append (htonl 1) b1,
        length-append (htonl (total_length p)) b2,
        length-append (htonl hl) b3,
        length-append head b4,
        length-append (htonl dl) b5,
        length-append text tail,
        n0,
        n1,
        n2,
        n3,
        n4,
        n5,
      );
    })

copied-slice :
    (b : List ℕ) (at n : ℕ) (text : List ℕ)
    → n < int_limit
    → at + n ≤ length b
    → slice at n b ≡ text
    → copied b at n ≡ some (text ++ 0 ∷ [])
unfolding copied
copied-slice b at n text h k e = rw (lt→ltb _ _ h, le→leb _ _ k, e)

-- Chunking takes out of a frame the packet that was put into it.
pub unpack-Laid :
    (room max_id end_point : ℕ) (p : Packet) (b : List ℕ)
    → room < int_limit
    → Fits room p
    → Laid p b
    → unpack max_id end_point b ≡ returned (arrived max_id end_point p)
unfolding unpack
unpack-Laid room max_id end_point p b r v l =
    let head =
      copied-slice b 12 p.head_length _ (omega (arith, v.small)) (omega (arith, l.room)) l.head in
    let text =
      copied-slice b (16 + p.head_length) p.data_length _ (omega (arith, v.small))
        (omega (arith, l.room)) l.text in
    rw (l.head_length, head, l.data_length, text)
