-- ===== src/NetV1/Frames.antt =====
-- What the buffer holds, and a whole frame at its start.
use just_for_test_and_try.Base.{
  ℕ, ◌+◌, ◌-◌, ◌%◌, ◌≤◌, ◌<◌, ◌≡◌, refl, ap, sym, ◌∙◌, inl, inr, Bool-cases, List, ◌++◌,
  append_assoc, arith, length, take, drop, slice, length-append, length-take, length-drop,
  take-append-drop, slice-append, take-memmove, memmove_to_start, lt→ltb, le→ltb, le→leb, int_limit,
}
use just_for_test_and_try.Net.Package.{word_limit}
use just_for_test_and_try.Net.Package.Fields.{signed_small}
use just_for_test_and_try.Net.Packet.{Packet, returned}
use just_for_test_and_try.NetV1.{StreamSocketContext, whole, acknowledge, look, take_out}
use just_for_test_and_try.NetV1.Output.{total_length, frame, Fits, length-frame}
use just_for_test_and_try.NetV1.Unpack.{arrived, Laid, unpack-Laid}

-- The buffer is as long as its length says, and starts with the bytes that are received and not
-- used yet.
pub record Holds (c : StreamSocketContext) (bytes : List ℕ) : Type 0 where
  pub room : length c.recv_buffer ≡ c.recv_buffer_length
  pub small : c.recv_buffer_length < int_limit
  pub offset : c.buffer_offset ≡ length bytes
  pub held : take (length bytes) c.recv_buffer ≡ bytes

-- What reading does not change.
pub record Same (c c' : StreamSocketContext) : Type 0 where
  pub size : c'.recv_buffer_length ≡ c.recv_buffer_length
  pub end_point : c'.end_point ≡ c.end_point
  pub queue : c'.packet_queue ≡ c.packet_queue

pub Same-trans : (a b c : StreamSocketContext) → Same a b → Same b c → Same a c
Same-trans a b c s t = record {
  size = t.size ∙ s.size;
  end_point = t.end_point ∙ s.end_point;
  queue = t.queue ∙ s.queue;
}

pub Holds-fits :
    (c : StreamSocketContext) (bytes : List ℕ) → Holds c bytes → length bytes ≤ c.recv_buffer_length
Holds-fits c bytes h =
    omega (arith, ap length h.held, length-take (length bytes) c.recv_buffer, h.room)

-- The buffer is what is held and more.
pub Holds-buffer :
    (c : StreamSocketContext) (bytes : List ℕ)
    → Holds c bytes
    → c.recv_buffer ≡ bytes ++ drop (length bytes) c.recv_buffer
Holds-buffer c bytes h =
    sym (take-append-drop (length bytes) c.recv_buffer)
    ∙ ap (λ k. k ++ drop (length bytes) c.recv_buffer) h.held

acknowledge-Holds :
    (c : StreamSocketContext) (p : Packet) (bytes : List ℕ)
    → Holds c bytes
    → Holds (acknowledge c p) bytes × Same c (acknowledge c p)
unfolding acknowledge
acknowledge-Holds c p bytes h = elim (Bool-cases c.need_ack) [
  | inl e ↦ rw e (
    record { room = h.room; small = h.small; offset = h.offset; held = h.held },
    record { size = refl; end_point = refl; queue = refl },
  )
  | inr e ↦ rw e (
    record { room = h.room; small = h.small; offset = h.offset; held = h.held },
    record { size = refl; end_point = refl; queue = refl },
  )
]

-- A whole frame at the start of the buffer is seen, and taken out.
pub look-frame :
    (c : StreamSocketContext) (p : Packet) (tail : List ℕ)
    → Holds c (frame p ++ tail)
    → Fits c.recv_buffer_length p
    → Laid p c.recv_buffer
    → look c ≡ returned (whole (total_length p))
unfolding look
look-frame c p tail h v l =
    let n = length-frame _ p v in
    let m = length-append (frame p) tail in
    let k = Holds-fits c _ h in
    let s = h.small in
    let small = v.small in
    rw (
      l.word,
      l.total,
      signed_small (total_length p) c.recv_buffer_length (omega arith) s,
      lt→ltb (total_length p) c.recv_buffer_length (omega arith),
      signed_small (c.buffer_offset - 8) (total_length p) (omega (arith, h.offset)) (omega arith),
      le→ltb (c.buffer_offset - 8) (total_length p) (omega (arith, h.offset)),
    )

pub take_out-frame :
    (max_id : ℕ) (c : StreamSocketContext) (p : Packet) (tail : List ℕ)
    → Holds c (frame p ++ tail)
    → Fits c.recv_buffer_length p
    → Laid p c.recv_buffer
    → (c' : StreamSocketContext) × (take_out max_id (total_length p) c
        ≡ returned (arrived max_id c.end_point p, c'))
      × Holds c' tail
      × Same c c'
unfolding take_out
take_out-frame max_id c p tail h v l =
    let n = length-frame _ p v in
    let m = length-append (frame p) tail in
    let k = Holds-fits c _ h in
    let s = h.small in
    let small = v.small in
    let rest = drop (length (frame p ++ tail)) c.recv_buffer in
    let shift : (total_length p + 8) % word_limit ≡ length (frame p) = omega arith in
    let left : c.buffer_offset - length (frame p) ≡ length tail = omega (arith, h.offset) in
    let whole_buffer : c.recv_buffer ≡ frame p ++ (tail ++ rest) =
      Holds-buffer c _ h ∙ append_assoc (frame p) tail rest in
    let moved : slice (length (frame p)) (length tail) c.recv_buffer ≡ tail =
      ap (slice (length (frame p)) (length tail)) whole_buffer
      ∙ slice-append (length (frame p)) (length tail) (frame p) tail rest refl refl in
    let inside : length (frame p) + length tail ≤ length c.recv_buffer = omega (arith, h.room) in
    let buffer =
      slice (length (frame p)) (length tail) c.recv_buffer ++ drop (length tail) c.recv_buffer in
    let move =
      memmove_to_start c.recv_buffer c.recv_buffer (length (frame p)) (length tail)
        (omega (arith, inside)) inside in
    let c1 : StreamSocketContext = record c { recv_buffer = buffer; buffer_offset = length tail } in
    let h1 : Holds c1 tail = record {
      room = omega (
        arith,
        length-append (slice (length (frame p)) (length tail) c.recv_buffer)
            (drop (length tail) c.recv_buffer),
        ap length moved,
        length-drop (length tail) c.recv_buffer,
        inside,
        h.room,
      );
      small = s;
      offset = refl;
      held =
          take-memmove c.recv_buffer c.recv_buffer (length (frame p)) (length tail) inside ∙ moved;
    } in
    let q = arrived max_id c.end_point p in
    let out = acknowledge-Holds c1 q tail h1 in
    (
      acknowledge c1 q,
      rw (
        unpack-Laid c.recv_buffer_length max_id c.end_point p c.recv_buffer s v l,
        shift,
        lt→ltb (length (frame p)) int_limit (omega arith),
        le→leb (length (frame p)) c.buffer_offset (omega (arith, h.offset)),
        left,
        move,
      ),
      out.0,
      record { size = out.1.size; end_point = out.1.end_point; queue = out.1.queue },
    )
