-- ===== src/Net/Stream/Receiving.antt =====
-- The loops of `Recv` and `HandleInput` on a socket that brings the bytes in pieces.
use just_for_test_and_try.Base.{
  ℕ, zero, suc, ◌+◌, ◌-◌, ◌*◌, ◌≤◌, ◌<◌, ◌≡◌, refl, ap, sym, ◌∙◌, inl, inr, Bool-cases, true, false,
  some, List, [], ◌∷◌, ◌++◌, append-nil, append_assoc, arith, ltb, ◌==◌, ==_iff, ==→ne, ne→==,
  length, take, drop, slice, length-append, length-take, length-drop, take-length, take-append-drop,
  take-append_le, drop-append_le, drop-length, le→ltb, min, memmove_in_bounds, length-memmove,
  take-copied, length-zero, Bool, ◌&&◌, if◌then◌else◌,
}
use just_for_test_and_try.Net.Packet.{returned, waiting}
use just_for_test_and_try.Net.Stream.{Incoming, recv_loop, body_loop}

-- How many calls of recv may take something.
abbrev pub offering : List ℕ → ℕ
offering [] = 0
offering (zero ∷ offers) = offering offers
offering (suc o ∷ offers) = suc (offering offers)

offering-cons :
    (o : ℕ) (offers : List ℕ) (room : ℕ)
    → 0 < room
    → offering (o ∷ offers) ≤ offering offers + min room o
offering-cons zero offers room h = omega arith
offering-cons (suc o) offers room h = omega arith

offering-suc : (o : ℕ) (offers : List ℕ) → offering (o ∷ offers) ≤ suc (offering offers)
offering-suc zero offers = omega arith
offering-suc (suc o) offers = omega arith

waited :
    (b : Bool) (time n : ℕ) → time + 10 + n ≤ 1000000 → (if b then time + 10 else 0) + n ≤ 1000000
waited true time n h = h
waited false time n h = omega arith

-- The two tests of `recv_loop` for a call that leaves something to come.
recv_tests : (b : Bool) (time : ℕ) → time + 10 ≤ 1000000 → (b && ltb 1000000 (time + 10)) ≡ false
recv_tests true time h = le→ltb _ _ h
recv_tests false time h = refl

-- Recv returns the next bytes, if enough calls take something before the time is over.
pub recv_loop-all :
    (n : ℕ) (received : List ℕ) (time : ℕ) (offers bytes rest : List ℕ)
    → length received + length bytes ≡ n
    → 0 < length bytes
    → length bytes ≤ offering offers
    → time + 10 * length offers ≤ 1000000
    → (left : Incoming) × (recv_loop n received time offers (bytes ++ rest)
        ≡ returned (some (received ++ bytes), left))
      × (left.arriving ≡ rest)
      × (offering offers ≤ offering left.offers + length bytes)
unfolding recv_loop
recv_loop-all n received time [] bytes rest e h k t = absurd (omega arith)
recv_loop-all n received time (o ∷ offers) bytes rest e h k t =
    let m = min (n - length received) o in
    let le : m ≤ length bytes = omega arith in
    let got : take m (bytes ++ rest) ≡ take m bytes = take-append_le m bytes rest le in
    let left : drop m (bytes ++ rest) ≡ drop m bytes ++ rest = drop-append_le m bytes rest le in
    let len : length (received ++ take m bytes) ≡ length received + m =
      omega (arith, length-append received (take m bytes), length-take m bytes) in
    let more : offering (o ∷ offers) ≤ offering offers + m =
      offering-cons o offers (n - length received) (omega arith) in
    rw (got, left)
      (elim (Bool-cases (length (received ++ take m bytes) == n)) [
        | inl d ↦
            let all : length received + m ≡ n = sym len ∙ (==_iff _ _).0 d in
            let whole : take m bytes ≡ bytes = take-length bytes m (omega arith) in
            (
              record { arriving = drop m bytes ++ rest; offers = offers },
              rw (d, whole),
              ap (λ k. k ++ rest) (drop-length bytes m (omega arith)),
              omega arith,
            )
        | inr d ↦
            let part = ==→ne _ _ d in
            let (l, q, a, c) =
              recv_loop-all n (received ++ take m bytes)
                (if length (take m bytes) == 0 then time + 10 else 0) offers (drop m bytes) rest
                (omega (arith, len, length-drop m bytes)) (omega (arith, len, length-drop m bytes))
                (omega (arith, length-drop m bytes))
                (waited (length (take m bytes) == 0) time (10 * length offers) (omega arith)) in
            (
              l,
              rw (d, recv_tests (length (take m bytes) == 0) time (omega arith))
                  (q
                    ∙ ap (λ k. returned (some k, l))
                        (append_assoc received (take m bytes) (drop m bytes)
                          ∙ ap (λ k. received ++ k) (take-append-drop m bytes))),
              a,
              omega (arith, length-drop m bytes),
            )
      ])

-- The loop of HandleInput on just the bytes of one packet.
pub body_loop-all :
    (total : ℕ) (buffer : List ℕ) (size received : ℕ) (offers arriving : List ℕ)
    → length buffer ≡ size
    → received + length arriving ≡ total
    → total ≤ size
    → length arriving < offering offers
    → (buffer' : List ℕ) × (l : Incoming) × (body_loop total buffer size received offers arriving
        ≡ returned (buffer', l))
      × (take total buffer' ≡ take received buffer ++ arriving)
      × (length buffer' ≡ size)
      × (l.arriving ≡ [])
unfolding body_loop
body_loop-all total buffer size received [] arriving hs e h k = absurd (omega arith)
body_loop-all total buffer size received (o ∷ offers) arriving hs e h k =
    let m = min (size - received) o in
    let got = take m arriving in
    let len : length got ≡ min m (length arriving) = length-take m arriving in
    elim (Bool-cases (length got == 0)) [
      | inl z ↦
          let none_got : length got ≡ 0 = (==_iff _ _).0 z in
          elim (Bool-cases (received == total)) [
            | inl d ↦
                let all : received ≡ total = (==_iff _ _).0 d in
                let nothing : arriving ≡ [] = length-zero arriving (omega arith) in
                (
                  buffer,
                  record { arriving = drop m arriving; offers = offers },
                  rw (z, d),
                  ap (λ k. take k buffer) (sym all)
                      ∙ sym (append-nil _)
                      ∙ ap (λ k. take received buffer ++ k) (sym nothing),
                  hs,
                  drop-length arriving m (omega arith),
                )
            | inr d ↦
                let part = ==→ne _ _ d in
                let zero_taken : m ≡ 0 = omega (arith, len, part) in
                let left : drop m arriving ≡ arriving = ap (λ k. drop k arriving) zero_taken in
                let more = offering-cons o offers (size - received) (omega (arith, part)) in
                let (b, l, q, t, w, r) =
                  body_loop-all total buffer size received offers arriving hs e h (omega arith) in
                (b, l, rw (z, d, left) q, t, w, r)
          ]
      | inr z ↦
          let some_got = ==→ne _ _ z in
          let buffer' =
            take received buffer
            ++ (slice 0 (length got) got ++ drop (received + length got) buffer) in
          let fits : received + length got ≤ length buffer = omega (arith, len) in
          let same : length buffer' ≡ length buffer =
            length-memmove buffer received got 0 (length got) fits (omega arith) in
          let some_left = offering-suc o offers in
          let more = offering-cons o offers (size - received) (omega (arith, len, some_got)) in
          let (b, l, q, t, w, r) =
            body_loop-all total buffer' size (received + length got) offers (drop m arriving)
              (same ∙ hs) (omega (arith, len, length-drop m arriving)) h
              (omega (arith, len, length-drop m arriving, some_got)) in
          (
            b,
            l,
            rw (z, memmove_in_bounds buffer received got 0 (length got) fits (omega arith)) q,
            t
                ∙ ap (λ k. k ++ drop m arriving) (take-copied buffer got received (omega arith))
                ∙ append_assoc (take received buffer) got (drop m arriving)
                ∙ ap (λ k. take received buffer ++ k) (take-append-drop m arriving),
            w,
            r,
          )
    ]

-- With more in the buffer than the packet has, the loop of HandleInput does not end.
pub body_loop_overrun :
    (total : ℕ) (buffer : List ℕ) (size received : ℕ) (offers arriving : List ℕ)
    → length buffer ≡ size
    → total < received
    → received ≤ size
    → body_loop total buffer size received offers arriving ≡ waiting
unfolding body_loop
body_loop_overrun total buffer size received [] arriving hs h k = refl
body_loop_overrun total buffer size received (o ∷ offers) arriving hs h k =
    let m = min (size - received) o in
    let got = take m arriving in
    let len : length got ≡ min m (length arriving) = length-take m arriving in
    elim (Bool-cases (length got == 0)) [
      | inl z ↦
          let over : (received == total) ≡ false = ne→== _ _ (omega arith) in
          rw (z, over)
            (body_loop_overrun total buffer size received offers (drop m arriving) hs h k)
      | inr z ↦
          let fits : received + length got ≤ length buffer = omega (arith, len) in
          let same = length-memmove buffer received got 0 (length got) fits (omega arith) in
          let rest =
            body_loop_overrun total
              (take received buffer
                ++ (slice 0 (length got) got ++ drop (received + length got) buffer))
              size (received + length got) offers (drop m arriving) (same ∙ hs) (omega arith)
              (omega (arith, len)) in
          rw (z, memmove_in_bounds buffer received got 0 (length got) fits (omega arith)) rest
    ]

-- So it is when one call brings more than what is left of the packet.
pub body_loop_overtaken :
    (total : ℕ) (buffer : List ℕ) (size o : ℕ) (offers arriving : List ℕ)
    → length buffer ≡ size
    → total < size
    → total < o
    → total < length arriving
    → body_loop total buffer size 0 (o ∷ offers) arriving ≡ waiting
unfolding body_loop
body_loop_overtaken total buffer size o offers arriving hs h k a =
    let m = min (size - 0) o in
    let got = take m arriving in
    let len : length got ≡ min m (length arriving) = length-take m arriving in
    let fits : 0 + length got ≤ length buffer = omega (arith, len) in
    let same = length-memmove buffer 0 got 0 (length got) fits (omega arith) in
    let rest =
      body_loop_overrun total
        (take 0 buffer ++ (slice 0 (length got) got ++ drop (0 + length got) buffer)) size
        (0 + length got) offers (drop m arriving) (same ∙ hs) (omega (arith, len))
        (omega (arith, len)) in
    rw
      (
        ne→== (length got) 0 (omega (arith, len)),
        memmove_in_bounds buffer 0 got 0 (length got) fits (omega arith),
      )
      rest
