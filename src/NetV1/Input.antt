-- ===== src/NetV1/Input.antt =====
-- `HandleInputImpl` on a stream of frames that arrives in any pieces.
use just_for_test_and_try.Base.{
  ℕ, zero, suc, ◌+◌, ◌≤◌, ◌<◌, ◌≡◌, refl, ap, sym, ◌∙◌, inl, inr, Bool-cases, List, [], ◌∷◌, ◌++◌,
  map, append_assoc, arith, length, take, drop, ltb, length-append, length-take, take-append-drop,
  take-append_le, take-append_eq, drop-append_le, drop-append_eq, memmove_in_bounds, length-memmove,
  ltb→lt, ltb→le,
}
use just_for_test_and_try.Net.Packet.{Packet, returned}
use just_for_test_and_try.NetV1.{
  StreamSocketContext, Event, ready, closed, interrupted, would_block, absorb,
}
use just_for_test_and_try.NetV1.Output.{frame, frames, AllFit, length-frame}
use just_for_test_and_try.NetV1.Unpack.{arrived}
use just_for_test_and_try.NetV1.Frames.{Holds, Same}
use just_for_test_and_try.NetV1.Chunking.{PartOf, chunking-frames}

-- A start of a stream of frames is whole frames and a part of the next one.
pub record Cut (ps : List Packet) (xs ys : List ℕ) (done rest : List Packet) (t : List ℕ)
    : Type 0 where
  pub packets : ps ≡ done ++ rest
  pub start : xs ≡ frames done ++ t
  pub next : t ++ ys ≡ frames rest
  pub part : PartOf t rest

cut :
    (ps : List Packet) (xs ys : List ℕ)
    → xs ++ ys ≡ frames ps
    → (done : List Packet) × (rest : List Packet) × (t : List ℕ) × Cut ps xs ys done rest t
cut [] xs ys e =
    let n : length xs ≡ 0 = omega (arith, ap length e, length-append xs ys) in
    ([], [], xs, record { packets = refl; start = refl; next = e; part = n })
cut (p ∷ ps) xs ys e = elim (Bool-cases (ltb (length xs) (length (frame p)))) [
  | inl d ↦ ([], p ∷ ps, xs, record { packets = refl; start = refl; next = e; part = ltb→lt _ _ d })
  | inr d ↦
      let n = length (frame p) in
      let le : n ≤ length xs = ltb→le _ _ d in
      let first : take n xs ≡ frame p =
        sym (take-append_le n xs ys le)
        ∙ ap (take n) e
        ∙ take-append_eq n (frame p) (frames ps) refl in
      let left : drop n xs ++ ys ≡ frames ps =
        sym (drop-append_le n xs ys le)
        ∙ ap (drop n) e
        ∙ drop-append_eq n (frame p) (frames ps) refl in
      let (done, rest, t, c) = cut ps (drop n xs) ys left in
      let start : xs ≡ frame p ++ drop n xs =
        sym (take-append-drop n xs) ∙ ap (λ k. k ++ drop n xs) first in
      (
        p ∷ done,
        rest,
        t,
        record {
          packets = ap (λ k. p ∷ k) c.packets;
          start =
              start ∙ ap (λ k. frame p ++ k) c.start ∙ sym (append_assoc (frame p) (frames done) t);
          next = c.next;
          part = c.part;
        },
      )
]

AllFit-rest : (room : ℕ) (done rest : List Packet) → AllFit room (done ++ rest) → AllFit room rest
AllFit-rest room [] rest v = v
AllFit-rest room (p ∷ done) rest v = AllFit-rest room done rest v.1

-- The calls of recv bring all of `n` bytes, and then one would block: at worst a call brings one
-- byte.
abbrev pub Waits : List Event → ℕ → Type 0
Waits [] n = ⊥
Waits (ready zero ∷ events) n = n ≡ 0
Waits (ready (suc k) ∷ events) zero = Unit {0}
Waits (ready (suc k) ∷ events) (suc n) = Waits events n
Waits (closed ∷ events) n = ⊥
Waits (interrupted ∷ events) n = Waits events n
Waits (would_block ∷ events) n = n ≡ 0

Waits-le : (events : List Event) (m n : ℕ) → Waits events n → m ≤ n → Waits events m
Waits-le [] m n w h = w
Waits-le (ready zero ∷ events) m n w h = omega arith
Waits-le (ready (suc k) ∷ events) zero n w h = tt
Waits-le (ready (suc k) ∷ events) (suc m) zero w h = elim h [ ]
Waits-le (ready (suc k) ∷ events) (suc m) (suc n) w h = Waits-le events m n w (omega arith)
Waits-le (closed ∷ events) m n w h = w
Waits-le (interrupted ∷ events) m n w h = Waits-le events m n w h
Waits-le (would_block ∷ events) m n w h = omega arith

-- After a call that brings some bytes.
pub Waits-next :
    (events : List Event) (n m k : ℕ) → Waits (ready (suc k) ∷ events) n → m < n → Waits events m
Waits-next events zero m k w h = elim h [ ]
Waits-next events (suc n) m k w h = Waits-le events m n w (omega arith)

-- Where the context stands in a stream of frames: the packets not handed over yet, what is held
-- of the first, and what has not arrived.
pub record At (c : StreamSocketContext) (ps : List Packet) (t future : List ℕ) : Type 0 where
  pub holds : Holds c t
  pub some_room : 0 < c.recv_buffer_length
  pub fit : AllFit c.recv_buffer_length ps
  pub stream : t ++ future ≡ frames ps
  pub part : PartOf t ps

-- There is room to receive.
pub At-room :
    (c : StreamSocketContext) (ps : List Packet) (t future : List ℕ)
    → At c ps t future
    → length t < c.recv_buffer_length
At-room c [] t future a = omega (arith, a.part, a.some_room)
At-room c (p ∷ ps) t future a = omega (arith, a.part, length-frame _ p a.fit.0, a.fit.0.small)

pub absorb-frames :
    (max_id got : ℕ) (arriving : List ℕ) (c : StreamSocketContext) (ps : List Packet)
    (t future : List ℕ)
    → At c ps t (arriving ++ future)
    → got ≤ length arriving
    → length t + got ≤ c.recv_buffer_length
    → (done : List Packet) × (rest : List Packet) × (t' : List ℕ) × (c' : StreamSocketContext) × (ps
        ≡ done ++ rest)
      × (absorb max_id got arriving c ≡ returned (map (arrived max_id c.end_point) done, c'))
      × At c' rest t' (drop got arriving ++ future)
      × Same c c'
unfolding absorb
absorb-frames max_id got arriving c ps t future a h k =
    let piece = take got arriving in
    let n : length piece ≡ got = omega (arith, length-take got arriving) in
    let off = a.holds.offset in
    let room : c.buffer_offset + got ≤ length c.recv_buffer = omega (arith, off, a.holds.room) in
    let move = memmove_in_bounds c.recv_buffer c.buffer_offset arriving 0 got room (omega arith) in
    let buffer =
      take c.buffer_offset c.recv_buffer ++ (piece ++ drop (c.buffer_offset + got) c.recv_buffer) in
    let c1 : StreamSocketContext = record c {
      recv_buffer = buffer;
      buffer_offset = c.buffer_offset + got;
    } in
    let before : take c.buffer_offset c.recv_buffer ≡ t =
      ap (λ i. take i c.recv_buffer) off ∙ a.holds.held in
    let after = drop (c.buffer_offset + got) c.recv_buffer in
    let sum = length-append t piece in
    let h1 : Holds c1 (t ++ piece) = record {
      room =
          length-memmove c.recv_buffer c.buffer_offset arriving 0 got room (omega arith)
          ∙ a.holds.room;
      small = a.holds.small;
      offset = omega (arith, off, n, sum);
      held =
          ap (λ b. take (length (t ++ piece)) (b ++ (piece ++ after))) before
          ∙ ap (take (length (t ++ piece))) (sym (append_assoc t piece after))
          ∙ take-append_eq (length (t ++ piece)) (t ++ piece) after refl;
    } in
    let whole : (t ++ piece) ++ (drop got arriving ++ future) ≡ frames ps =
      append_assoc t piece (drop got arriving ++ future)
      ∙ ap (λ k. t ++ k) (sym (append_assoc piece (drop got arriving) future))
      ∙ ap (λ k. t ++ (k ++ future)) (take-append-drop got arriving)
      ∙ a.stream in
    let (done, rest, t', q) = cut ps (t ++ piece) (drop got arriving ++ future) whole in
    let v : AllFit c1.recv_buffer_length (done ++ rest) = rw (← q.packets) a.fit in
    let h2 : Holds c1 (frames done ++ t') = rw (← q.start) h1 in
    let len : length (frames done ++ t') < suc (c.buffer_offset + got) =
      omega (arith, ap length q.start, off, n, sum) in
    let (c', e, h3, s) =
      chunking-frames max_id (suc (c.buffer_offset + got)) c1 done rest t'
        (drop got arriving ++ future) h2 v q.next q.part len in
    let v' : AllFit c'.recv_buffer_length rest = rw s.size (AllFit-rest _ done rest v) in
    (
      done,
      rest,
      t',
      c',
      q.packets,
      rw (move, e),
      record {
        holds = h3;
        some_room = rw s.size a.some_room;
        fit = v';
        stream = q.next;
        part = q.part;
      },
      record { size = s.size; end_point = s.end_point; queue = s.queue },
    )
