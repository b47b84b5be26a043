-- ===== src/NetV1/Transport.antt =====
-- From one side of a stream to the other.
use just_for_test_and_try.Base.{
  ℕ, zero, suc, ◌-◌, ◌≤◌, ◌<◌, ◌≡◌, refl, ap, sym, subst, ◌∙◌, inl, inr, Bool-cases, true, List, [],
  ◌∷◌, ◌++◌, map, map-append, append-nil, append_assoc, arith, length, drop, min, ◌==◌,
  length-append, length-drop, length-zero, drop-append, ne→==, ==_iff, ==→ne,
}
use just_for_test_and_try.Net.Packet.{Packet, returned}
use just_for_test_and_try.Net.Stream.{Outgoing}
use just_for_test_and_try.Net.Stream.Sending.{accepting}
use just_for_test_and_try.NetV1.{
  StreamSocketContext, Event, ready, closed, interrupted, would_block, kept, handle_output,
  handle_input_impl,
}
use just_for_test_and_try.NetV1.Output.{frame, frames, AllFit, length-frame, handle_output-frames}
use just_for_test_and_try.NetV1.Unpack.{arrived}
use just_for_test_and_try.NetV1.Frames.{Holds, Same, Same-trans}
use just_for_test_and_try.NetV1.Chunking.{PartOf}
use just_for_test_and_try.NetV1.Input.{Waits, Waits-next, At, At-room, absorb-frames}

-- What a call of `HandleInputImpl` does to a context at a place in a stream of frames.
pub record Taken (max_id : ℕ) (events : List Event) (arriving : List ℕ) (c : StreamSocketContext)
    (ps : List Packet) (future : List ℕ) : Type 0 where
  pub done : List Packet
  pub rest : List Packet
  pub held : List ℕ
  pub after : StreamSocketContext
  pub events' : List Event
  pub packets : ps ≡ done ++ rest
  pub returns :
      handle_input_impl max_id events arriving c
      ≡ returned (map (arrived max_id c.end_point) done, kept after [] events')
  pub place : At after rest held future
  pub same : Same c after

-- A call that finds nothing.
nothing :
    (max_id : ℕ) (events events' : List Event) (arriving : List ℕ) (c : StreamSocketContext)
    (ps : List Packet) (t future : List ℕ)
    → At c ps t (arriving ++ future)
    → length arriving ≡ 0
    → handle_input_impl max_id events arriving c ≡ returned ([], kept c arriving events')
    → Taken max_id events arriving c ps future
nothing max_id events events' arriving c ps t future a n e =
    let empty = length-zero arriving n in
    record {
      done = [];
      rest = ps;
      held = t;
      after = c;
      events' = events';
      packets = refl;
      returns = e ∙ ap (λ r. returned ([], kept c r events')) empty;
      place = subst (λ k. At c ps t (k ++ future)) empty a;
      same = record { size = refl; end_point = refl; queue = refl };
    }

-- HandleInputImpl, on a context that stands at a place in a stream of frames, hands over the
-- packets of the frames that are whole with what arrives, in order, and the context then stands
-- behind them, with nothing left in the socket: if the calls of recv bring all that arrives before
-- one would block, and the frames fit the buffer.
pub handle_input_impl-frames :
    (max_id : ℕ) (events : List Event) (arriving : List ℕ) (c : StreamSocketContext)
    (ps : List Packet) (t future : List ℕ)
    → At c ps t (arriving ++ future)
    → Waits events (length arriving)
    → Taken max_id events arriving c ps future
unfolding handle_input_impl
handle_input_impl-frames max_id [] arriving c ps t future a w = absurd w
handle_input_impl-frames max_id (ready zero ∷ events) arriving c ps t future a w =
    let room =
      ne→== (c.recv_buffer_length - c.buffer_offset) 0
        (omega (arith, At-room c ps t _ a, a.holds.offset)) in
    let none_got : (min 0 (min (c.recv_buffer_length - c.buffer_offset) (length arriving)) == 0)
        ≡ true =
      ground arith in
    nothing max_id _ events arriving c ps t future a w (rw (room, none_got))
handle_input_impl-frames max_id (ready (suc k) ∷ events) arriving c ps t future a w =
    let free = c.recv_buffer_length - c.buffer_offset in
    let off = a.holds.offset in
    let some_free : 0 < free = omega (arith, At-room c ps t _ a, off) in
    let room = ne→== free 0 (omega arith) in
    let got = min (suc k) (min free (length arriving)) in
    elim (Bool-cases (got == 0)) [
      | inl e ↦
          let zero_got : got ≡ 0 = (==_iff got 0).0 e in
          nothing max_id _ events arriving c ps t future a (omega arith) (rw (room, e))
      | inr e ↦
          let some_got = ==→ne got 0 e in
          let (done, rest, t', c1, q, e1, a1, s1) =
            absorb-frames max_id got arriving c ps t future a (omega arith)
              (omega (arith, off, At-room c ps t _ a)) in
          let more : Waits events (length (drop got arriving)) =
            Waits-next events (length arriving) _ k w (omega (arith, length-drop got arriving)) in
          let r : Taken max_id events (drop got arriving) c1 rest future =
            handle_input_impl-frames max_id events (drop got arriving) c1 rest t' future a1 more in
          record {
            done = done ++ r.done;
            rest = r.rest;
            held = r.held;
            after = r.after;
            events' = r.events';
            packets = q ∙ ap (λ k. done ++ k) r.packets ∙ sym (append_assoc done r.done r.rest);
            returns = rw (
              room,
              e,
              e1,
              r.returns,
              s1.end_point,
              map-append (arrived max_id c.end_point) done r.done,
            );
            place = r.place;
            same = Same-trans c c1 r.after s1 r.same;
          }
    ]
handle_input_impl-frames max_id (closed ∷ events) arriving c ps t future a w = absurd w
handle_input_impl-frames max_id (interrupted ∷ events) arriving c ps t future a w =
    let room =
      ne→== (c.recv_buffer_length - c.buffer_offset) 0
        (omega (arith, At-room c ps t _ a, a.holds.offset)) in
    let r : Taken max_id events arriving c ps future =
      handle_input_impl-frames max_id events arriving c ps t future a w in
    record {
      done = r.done;
      rest = r.rest;
      held = r.held;
      after = r.after;
      events' = r.events';
      packets = r.packets;
      returns = rw room r.returns;
      place = r.place;
      same = r.same;
    }
handle_input_impl-frames max_id (would_block ∷ events) arriving c ps t future a w =
    let room =
      ne→== (c.recv_buffer_length - c.buffer_offset) 0
        (omega (arith, At-room c ps t _ a, a.holds.offset)) in
    nothing max_id _ events arriving c ps t future a w (rw room)

At-start : (room : ℕ) (ps : List Packet) → AllFit room ps → PartOf [] ps
At-start room [] v = refl
At-start room (p ∷ ps) v = omega (arith, length-frame room p v.0)

-- When nothing is to come, nothing is left.
At-end :
    (c : StreamSocketContext) (ps : List Packet) (t : List ℕ) → At c ps t [] → (ps ≡ []) × (t ≡ [])
At-end c [] t a = (refl, length-zero t a.part)
At-end c (p ∷ ps) t a = absurd (
    omega (
      arith,
      a.part,
      ap length (sym (append-nil t) ∙ a.stream),
      length-append (frame p) (frames ps),
    ))

-- HandleOutput empties its queue, and HandleInputImpl of the other side, on just the bytes that
-- were sent, however the calls of recv cut them, hands over every packet of the queue in order,
-- each with its head and its data as their lengths say and a NUL behind them, and leaves no byte
-- in the socket or in the buffer: if the blocks hold what the lengths say, the frames fit the
-- buffer of the other side, which is valid and holds nothing yet, as many calls of send take
-- something as there are bytes, and the calls of recv bring all of them before one would block.
pub handle_input_impl-handle_output :
    (max_id : ℕ) (events : List Event) (sender receiver : StreamSocketContext) (out : Outgoing)
    → Holds receiver []
    → 0 < receiver.recv_buffer_length
    → AllFit receiver.recv_buffer_length sender.packet_queue
    → length (frames sender.packet_queue) ≤ accepting out.accepts
    → Waits events (length (frames sender.packet_queue))
    → (out' : Outgoing) × (c : StreamSocketContext) × (left : List Event) × (handle_output sender
          out
        ≡ returned (record sender { packet_queue = [] }, out'))
      × (handle_input_impl max_id events (drop (length out.wire) out'.wire) receiver
          ≡ returned (map (arrived max_id receiver.end_point) sender.packet_queue, kept c [] left))
      × Holds c []
handle_input_impl-handle_output max_id events sender receiver out h k v n w =
    let (out', e, wire) = handle_output-frames receiver.recv_buffer_length sender out h.small v n in
    let bytes = frames sender.packet_queue in
    let sent : drop (length out.wire) out'.wire ≡ bytes =
      ap (drop (length out.wire)) wire ∙ drop-append out.wire bytes in
    let start : At receiver sender.packet_queue [] (bytes ++ []) = record {
      holds = h;
      some_room = k;
      fit = v;
      stream = append-nil bytes;
      part = At-start receiver.recv_buffer_length sender.packet_queue v;
    } in
    let r =
      handle_input_impl-frames max_id events bytes receiver sender.packet_queue [] [] start w in
    let (no_rest, no_bytes) = At-end r.after r.rest r.held r.place in
    let all : r.done ≡ sender.packet_queue =
      sym (append-nil r.done) ∙ ap (λ k. r.done ++ k) (sym no_rest) ∙ sym r.packets in
    (
      out',
      r.after,
      r.events',
      e,
      rw sent (
          r.returns
          ∙ ap
              (λ d. returned (map (arrived max_id receiver.end_point) d, kept r.after [] r.events'))
              all),
      subst (Holds r.after) no_bytes r.place.holds,
    )
