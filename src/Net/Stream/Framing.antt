-- ===== src/Net/Stream/Framing.antt =====
-- `HandleInput` on the frame that `HandleOutput` of the other side sends.
use just_for_test_and_try.Base.{
  ℕ, ◌+◌, ◌≤◌, ◌<◌, ◌≡◌, ◌≢◌, refl, ap, sym, ◌∙◌, inl, inr, Bool-cases, true, some, List, [], ◌∷◌,
  ◌++◌, append_assoc, arith, length, take, drop, length-append, length-take, take-append-drop,
  drop-append_eq, take-append_eq, min, int_limit, htonl, ntohl-append, ntohl-htonl, length-htonl,
}
use just_for_test_and_try.Net.Package.{word_limit}
use just_for_test_and_try.Net.Packet.{Packet, returned, waiting}
use just_for_test_and_try.Net.Stream.{
  StreamSocketContext, Incoming, total_length, received, recv_loop, parse_length, parse_header,
  decode_packet, acknowledge, receive_packet, handle_input,
}
use just_for_test_and_try.Net.Stream.Sending.{whole_length, body, frame, IsPacket}
use just_for_test_and_try.Net.Stream.Receiving.{
  offering, recv_loop-all, body_loop-all, body_loop_overtaken,
}
use just_for_test_and_try.Net.Stream.Buffer.{IsValid, Fitting, fit_buffer-Fitting}
use just_for_test_and_try.Net.Stream.Decode.{Delivered, decode_body}

-- The header of a frame, when the first call brings the first word whole.
parse_header-frame :
    (stale : List ℕ) (total o : ℕ) (os rest : List ℕ)
    → total < word_limit
    → 4 ≤ o
    → 4 ≤ offering os
    → length os ≤ 100000
    → (l : Incoming) × (parse_header stale
          (record { arriving = htonl 1 ++ (htonl total ++ rest); offers = o ∷ os })
        ≡ returned (total_length total, l))
      × (l.arriving ≡ rest)
      × (offering os ≤ offering l.offers + 4)
unfolding parse_header
parse_header-frame stale total o os rest h ho k t =
    let word = htonl total in
    let four : min 4 o ≡ 4 = omega arith in
    let n = length-htonl total in
    let (l, e, a, c) =
      recv_loop-all 4 [] 0 os word rest (omega (arith, n)) (omega (arith, n)) (omega (arith, n))
        (omega arith) in
    (
      l,
      rw (
        four,
        take-append_eq 4 (htonl 1) (word ++ rest) (sym (length-htonl 1)),
        drop-append_eq 4 (htonl 1) (word ++ rest) (sym (length-htonl 1)),
        length-htonl 1,
        ntohl-append 1 (drop 4 stale) (omega arith),
        e,
        ntohl-htonl total h,
      ),
      a,
      omega (arith, n),
    )

body-length : (p : Packet) → IsPacket p → length (body p) ≡ whole_length p
body-length p v =
    let head = take p.head_length p.head_data in
    let text = take p.data_length p.data_block in
    let b4 = htonl p.data_length ++ text in
    omega (
      arith,
      length-append (htonl p.channel_id) (htonl p.head_length ++ (head ++ b4)),
      length-append (htonl p.head_length) (head ++ b4),
      length-append head b4,
      length-append (htonl p.data_length) text,
      length-htonl p.channel_id,
      length-htonl p.head_length,
      length-htonl p.data_length,
      length-take p.head_length p.head_data,
      length-take p.data_length p.data_block,
      v.head,
      v.body_of,
    )

-- The context after a packet, for a caller that waits for a reply too.
pub record Served (c : StreamSocketContext) (q : Packet) (c' : StreamSocketContext) : Type 0 where
  pub valid : IsValid c'
  pub queue : c'.packet_queue ≡ c.packet_queue
  pub reply : c.need_ack ≡ true → c'.reply ≡ some q
  pub replied : c.need_ack ≡ true → c'.replied ≡ true

acknowledge-Served :
    (c c1 : StreamSocketContext) (total : ℕ) (buffer : List ℕ) (q : Packet)
    → Fitting c total c1
    → length buffer ≡ c1.recv_buffer_length
    → Served c q (acknowledge (record c1 { recv_buffer = buffer }) q)
unfolding acknowledge
acknowledge-Served c c1 total buffer q f h = elim (Bool-cases c1.need_ack) [
  | inl e ↦ rw e (record {
    valid = record { room = h; small = f.valid.small };
    queue = f.queue;
    reply = λ _. refl;
    replied = λ _. refl;
  })
  | inr e ↦
      let never : c.need_ack ≡ true → ⊥ = λ a. cc (f.ack, a, e) in
      rw e (record {
        valid = record { room = h; small = f.valid.small };
        queue = f.queue;
        reply = λ a. absurd (never a);
        replied = λ a. absurd (never a);
      })
]

-- HandleInput on the frame of a packet returns a packet with the same head and the same data, in
-- blocks that hold what their lengths say with five bytes to spare behind the data, keeps the
-- context valid and its queue, gives the packet to a caller that waits for a reply, and leaves
-- nothing in the socket: for a valid context, a packet whose lengths fit its blocks and an
-- int32_t with ten to spare, a first call of recv that may take four bytes, more calls than the
-- frame has further bytes that may take something, and at most 100000 calls.
pub handle_input-frame :
    (junk : ℕ) (stale : List ℕ) (max_id : ℕ) (c : StreamSocketContext) (p : Packet) (o : ℕ)
    (os : List ℕ)
    → IsValid c
    → IsPacket p
    → whole_length p + 10 < int_limit
    → 4 ≤ o
    → 4 + whole_length p < offering os
    → length os ≤ 100000
    → (q : Packet) × (c' : StreamSocketContext) × (l : Incoming) × (handle_input junk stale max_id c
          (record { arriving = frame p; offers = o ∷ os })
        ≡ returned (received q, c', l))
      × Delivered p q
      × Served c q c'
      × (l.arriving ≡ [])
unfolding handle_input receive_packet
handle_input-frame junk stale max_id c p o os v vp small ho k t =
    let total = whole_length p in
    let (l, e, a, n) =
      parse_header-frame stale total o os (body p) (omega arith) ho (omega arith) t in
    let (c1, e1, f) = fit_buffer-Fitting junk c total v small in
    let len : length (body p) ≡ total = body-length p vp in
    let (b, l', e2, text, room, done) =
      body_loop-all total c1.recv_buffer c1.recv_buffer_length 0 l.offers (body p) f.valid.room
        (omega (arith, len)) f.fits (omega (arith, len, n, k)) in
    let whole : body p ++ drop total b ≡ b =
      ap (λ k. k ++ drop total b) (sym text) ∙ take-append-drop total b in
    let (q, e3, d) = decode_body junk max_id c.end_point p (drop total b) vp in
    (
      q,
      acknowledge (record c1 { recv_buffer = b }) q,
      l',
      rw (e, a, e1, e2, ap (decode_packet junk max_id c.end_point) (sym whole) ∙ e3),
      d,
      acknowledge-Served c c1 total b q f room,
      done,
    )

-- The length word of a header, brought by one call.
parse_length_at_once :
    (total : ℕ) (offers rest : List ℕ)
    → total < word_limit
    → parse_length (record { arriving = htonl total ++ rest; offers = 4 ∷ offers })
      ≡ returned (total_length total, record { arriving = rest; offers = offers })
unfolding parse_length recv_loop htonl
parse_length_at_once total offers rest h = rw (ntohl-append total [] h)

-- HandleInput does not return if bytes of the next packet have arrived behind a frame and a call
-- of recv may take some of them: whatever later calls bring, for a valid context whose buffer is
-- not just as long as the packet, a packet whose length is an int32_t with ten to spare, and two
-- calls of recv that may take the two words of the header.
pub handle_input_overrun :
    (junk : ℕ) (stale : List ℕ) (max_id : ℕ) (c : StreamSocketContext) (p : Packet) (o big : ℕ)
    (next os : List ℕ)
    → IsValid c
    → IsPacket p
    → whole_length p + 10 < int_limit
    → whole_length p ≢ c.recv_buffer_length
    → 4 ≤ o
    → whole_length p < big
    → 0 < length next
    → handle_input junk stale max_id c
        (record { arriving = frame p ++ next; offers = o ∷ 4 ∷ big ∷ os })
      ≡ waiting
unfolding handle_input receive_packet parse_header
handle_input_overrun junk stale max_id c p o big next os v vp small ne ho hb hn =
    let total = whole_length p in
    let four : min 4 o ≡ 4 = omega arith in
    let rest = body p ++ next in
    let ahead = htonl total ++ rest in
    let assoc : frame p ++ next ≡ htonl 1 ++ ahead = simp append_assoc in
    let (c1, e1, f) = fit_buffer-Fitting junk c total v small in
    let more : total < length rest = omega (arith, length-append (body p) next, body-length p vp) in
    let stuck =
      body_loop_overtaken total c1.recv_buffer c1.recv_buffer_length big os rest f.valid.room
        (f.spare ne) hb more in
    rw (
      assoc,
      four,
      take-append_eq 4 (htonl 1) ahead (sym (length-htonl 1)),
      drop-append_eq 4 (htonl 1) ahead (sym (length-htonl 1)),
      length-htonl 1,
      ntohl-append 1 (drop 4 stale) (omega arith),
      parse_length_at_once total (big ∷ os) rest (omega arith),
      e1,
      stuck,
    )
