-- ===== src/Net/Stream/Sending.antt =====
-- `Send` and `HandleOutput` put whole frames on the wire, however the socket splits them.
use just_for_test_and_try.Base.{
  ℕ, zero, suc, ◌+◌, ◌-◌, ◌%◌, ◌≤◌, ◌<◌, ◌≡◌, refl, ap, sym, ◌∙◌, inl, inr, Bool-cases, Option,
  none, some, List, [], ◌∷◌, ◌++◌, append-nil, append_assoc, arith, ◌==◌, ==_iff, ==→ne, ne→==, ◌≢◌,
  subst, length, take, drop, slice, length-append, length-take, length-drop, take-length,
  take-append-drop, drop-drop, le→leb, lt→ltb, int_limit, htonl, length-htonl,
}
use just_for_test_and_try.Net.Package.{word_limit}
use just_for_test_and_try.Net.Packet.{Packet, Outcome, returned, ◌>>=◌}
use just_for_test_and_try.Net.Stream.{
  StreamSocketContext, Outgoing, accepted, send_loop, send, send_packet, handle_output,
}

-- How many calls of send take something.
abbrev pub accepting : List (Option ℕ) → ℕ
accepting [] = 0
accepting (none ∷ rest) = accepting rest
accepting (some zero ∷ rest) = accepting rest
accepting (some (suc k) ∷ rest) = suc (accepting rest)

accepting-accepted :
    (a : Option ℕ) (rest : List (Option ℕ)) (left : ℕ)
    → 0 < left
    → accepting (a ∷ rest) ≤ accepting rest + accepted a left
unfolding accepted
accepting-accepted none rest left h = omega arith
accepting-accepted (some zero) rest left h = omega arith
accepting-accepted (some (suc k)) rest left h = omega arith

accepted-le : (a : Option ℕ) (left : ℕ) → accepted a left ≤ left
unfolding accepted
accepted-le none left = omega arith
accepted-le (some k) left = omega arith

-- The bytes are on the wire behind what was there, and took no more calls than they are many.
pub record Sent (o : Outgoing) (bytes : List ℕ) (o' : Outgoing) : Type 0 where
  pub wire : o'.wire ≡ o.wire ++ bytes
  pub calls : accepting o.accepts ≤ accepting o'.accepts + length bytes

abbrev pub Sends : Outcome Outgoing → Outgoing → List ℕ → Type 0
Sends m o bytes = (o' : Outgoing) × (m ≡ returned o') × Sent o bytes o'

send_loop-Sends :
    (bytes : List ℕ) (sent : ℕ) (accepts : List (Option ℕ)) (wire : List ℕ)
    → sent < length bytes
    → length bytes ≤ sent + accepting accepts
    → (o' : Outgoing) × (send_loop bytes sent accepts wire ≡ returned o')
      × (o'.wire ≡ wire ++ drop sent bytes)
      × (accepting accepts ≤ accepting o'.accepts + (length bytes - sent))
unfolding send_loop
send_loop-Sends bytes sent [] wire h k = absurd (omega arith)
send_loop-Sends bytes sent (a ∷ rest) wire h k =
    let left = length bytes - sent in
    let n = accepted a left in
    let le : n ≤ left = accepted-le a left in
    let more : accepting (a ∷ rest) ≤ accepting rest + n =
      accepting-accepted a rest left (omega arith) in
    elim (Bool-cases (sent + n == length bytes)) [
      | inl e ↦
          let all : sent + n ≡ length bytes = (==_iff _ _).0 e in
          let len : length (drop sent bytes) ≤ n = omega (arith, length-drop sent bytes) in
          (
            record { wire = wire ++ slice sent n bytes; accepts = rest },
            rw e,
            ap (λ k. wire ++ k) (take-length (drop sent bytes) n len),
            omega arith,
          )
      | inr e ↦
          let part : sent + n ≢ length bytes = ==→ne _ _ e in
          let (o', q, w, c) =
            send_loop-Sends bytes (sent + n) rest (wire ++ slice sent n bytes) (omega arith)
              (omega arith) in
          (
            o',
            rw e q,
            w
                ∙ append_assoc wire (slice sent n bytes) (drop (sent + n) bytes)
                ∙ ap (λ k. wire ++ (slice sent n bytes ++ k)) (sym (drop-drop n sent bytes))
                ∙ ap (λ k. wire ++ k) (take-append-drop n (drop sent bytes)),
            omega arith,
          )
    ]

-- Send returns and puts its bytes on the wire, if they are in the block, and at least so many
-- calls of send take something.
pub send-Sends :
    (block : List ℕ) (n : ℕ) (o : Outgoing)
    → n ≤ length block
    → n < int_limit
    → n ≤ accepting o.accepts
    → Sends (send block n o) o (take n block)
unfolding send
send-Sends block zero o h k a =
    (o, refl, record { wire = sym (append-nil o.wire); calls = omega arith })
send-Sends block (suc n) o h k a =
    let len : length (take (suc n) block) ≡ suc n = omega (arith, length-take (suc n) block) in
    let (o', e, w, c) =
      send_loop-Sends (take (suc n) block) 0 o.accepts o.wire (omega (arith, len))
        (omega (arith, len)) in
    (
      o',
      rw (ne→== (suc n) 0 (omega arith), lt→ltb _ _ k, le→leb _ _ h) e,
      record { wire = w; calls = omega (arith, len) },
    )

pub Sent-trans :
    {o o' o'' : Outgoing} {xs ys : List ℕ} → Sent o xs o' → Sent o' ys o'' → Sent o (xs ++ ys) o''
Sent-trans {o} {xs = xs} {ys = ys} s t = record {
  wire = t.wire ∙ ap (λ k. k ++ ys) s.wire ∙ append_assoc o.wire xs ys;
  calls = omega (arith, s.calls, t.calls, length-append xs ys);
}

pub Sends-bind :
    (m : Outcome Outgoing) (f : Outgoing → Outcome Outgoing) (o : Outgoing) (xs ys : List ℕ)
    → Sends m o xs
    → ((o' : Outgoing) → Sent o xs o' → Sends (f o') o' ys)
    → Sends (m >>= f) o (xs ++ ys)
Sends-bind m f o xs ys (o', e, s) next =
    let (o'', q, t) = next o' s in (o'', rw e q, Sent-trans s t)

pub send_word :
    (v : ℕ) (o : Outgoing) → 4 ≤ accepting o.accepts → Sends (send (htonl v) 4 o) o (htonl v)
send_word v o h =
    let (o', e, s) = send-Sends (htonl v) 4 o (omega (arith, length-htonl v)) (omega arith) h in
    (o', e, subst (λ k. Sent o k o') (take-length (htonl v) 4 (omega (arith, length-htonl v))) s)

-- The bytes that stand for a packet: a mark, the length of what follows, and four fields.
abbrev pub whole_length : Packet → ℕ
whole_length p = 4 + 4 + p.head_length + 4 + p.data_length

abbrev pub body : Packet → List ℕ
body p =
    htonl p.channel_id
    ++ (htonl p.head_length
        ++ (take p.head_length p.head_data
            ++ (htonl p.data_length ++ take p.data_length p.data_block)))

abbrev pub frame : Packet → List ℕ
frame p = htonl 1 ++ (htonl (whole_length p) ++ body p)

-- The blocks hold what the lengths say, and the whole is an int32_t.
pub record IsPacket (p : Packet) : Type 0 where
  pub head : p.head_length ≤ length p.head_data
  pub body_of : p.data_length ≤ length p.data_block
  pub small : whole_length p < int_limit
  pub channel : p.channel_id < word_limit

-- A packet is put on the wire as its frame, if as many calls of send take something as the frame
-- has bytes.
pub send_packet-frame :
    (p : Packet) (o : Outgoing)
    → IsPacket p
    → 8 + whole_length p ≤ accepting o.accepts
    → Sends (send_packet p o) o (frame p)
unfolding send_packet
send_packet-frame p o v h =
    let whole : (4 + 4 + p.head_length + 4 + p.data_length) % word_limit ≡ whole_length p =
      omega (arith, v.small) in
    let n1 = length-htonl 1 in
    let n2 = length-htonl (whole_length p) in
    let n3 = length-htonl p.channel_id in
    let n4 = length-htonl p.head_length in
    let n5 = length-take p.head_length p.head_data in
    let n6 = length-htonl p.data_length in
    rw whole (
      Sends-bind _ _ _ _ _ (send_word 1 o (omega arith)) λ o1 s1.
        Sends-bind _ _ _ _ _ (send_word _ o1 (omega (arith, s1.calls, n1))) λ o2 s2.
          Sends-bind _ _ _ _ _ (send_word _ o2 (omega (arith, s1.calls, s2.calls, n1, n2))) λ o3 s3.
            Sends-bind _ _ _ _ _
              (send_word _ o3 (omega (arith, s1.calls, s2.calls, s3.calls, n1, n2, n3)))
              λ o4 s4.
                Sends-bind _ _ _ _ _
                  (send-Sends p.head_data p.head_length o4 v.head (omega (arith, v.small))
                    (omega (arith, s1.calls, s2.calls, s3.calls, s4.calls, n1, n2, n3, n4)))
                  λ o5 s5.
                    Sends-bind _ _ _ _ _
                      (send_word _ o5 (
                        omega (
                          arith, s1.calls, s2.calls, s3.calls, s4.calls, s5.calls, n1, n2, n3, n4,
                          n5,
                        )))
                      λ o6 s6.
                        send-Sends p.data_block p.data_length o6 v.body_of (omega (arith, v.small))
                          (omega (
                            arith, s1.calls, s2.calls, s3.calls, s4.calls, s5.calls, s6.calls, n1,
                            n2, n3, n4, n5, n6,
                          )))

-- HandleOutput of a queue that is not empty sends the frame of its first packet and takes it off,
-- if the packet's blocks hold what its lengths say, the whole is an int32_t, and as many calls of
-- send take something as the frame has bytes.
pub handle_output-frame :
    (c : StreamSocketContext) (p : Packet) (queue : List Packet) (o : Outgoing)
    → c.packet_queue ≡ p ∷ queue
    → IsPacket p
    → 8 + whole_length p ≤ accepting o.accepts
    → (o' : Outgoing) × (handle_output c o
        ≡ returned (some p, record c { packet_queue = queue }, o'))
      × (o'.wire ≡ o.wire ++ frame p)
unfolding handle_output
handle_output-frame c p queue o e v h =
    let (o', q, s) = send_packet-frame p o v h in (o', rw (e, q), s.wire)
