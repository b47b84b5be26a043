-- ===== src/Net/Stream/Buffer.antt =====
-- The receive buffer of a stream socket, which `HandleInput` makes fit the packet.
use just_for_test_and_try.Base.{
  ℕ, ◌+◌, ◌/◌, ◌%◌, ◌≤◌, ◌<◌, ◌≡◌, ◌≢◌, refl, inl, inr, Bool-cases, true, arith, ltb, length, drop,
  replicate, length-replicate, lt→ltb, ltb→lt, ltb→le, ◌&&◌, memmove_in_bounds, int_limit,
}
use just_for_test_and_try.Net.Package.{word_limit}
use just_for_test_and_try.Net.Packet.{returned}
use just_for_test_and_try.Net.Stream.{StreamSocketContext, realloc_buffer, fit_buffer}

pub record IsValid (c : StreamSocketContext) : Type 0 where
  pub room : length c.recv_buffer ≡ c.recv_buffer_length
  pub small : c.recv_buffer_length < int_limit

-- A buffer that is valid and holds `total` bytes, and more unless it was just so long before.
pub record Fitting (c : StreamSocketContext) (total : ℕ) (c' : StreamSocketContext) : Type 0 where
  pub valid : IsValid c'
  pub fits : total ≤ c'.recv_buffer_length
  pub spare : total ≢ c.recv_buffer_length → total < c'.recv_buffer_length
  pub ack : c'.need_ack ≡ c.need_ack
  pub queue : c'.packet_queue ≡ c.packet_queue

realloc_lem :
    (junk : ℕ) (c : StreamSocketContext) (n total : ℕ)
    → n < int_limit
    → total < n
    → (c' : StreamSocketContext) × (realloc_buffer junk c n 0 ≡ returned c') × Fitting c total c'
unfolding realloc_buffer
realloc_lem junk c n total h k =
    let m = memmove_in_bounds (replicate n junk) 0 c.recv_buffer 0 0 (omega arith) (omega arith) in
    (
      record c { recv_buffer = drop (0 + 0) (replicate n junk); recv_buffer_length = n },
      rw (lt→ltb _ _ h, m),
      record {
        valid = record { room = length-replicate n junk; small = h };
        fits = omega arith;
        spare = λ _. k;
        ack = refl;
        queue = refl;
      },
    )

-- HandleInput makes its buffer fit the packet.
pub fit_buffer-Fitting :
    (junk : ℕ) (c : StreamSocketContext) (total : ℕ)
    → IsValid c
    → total + 10 < int_limit
    → (c' : StreamSocketContext) × (fit_buffer junk c total ≡ returned c') × Fitting c total c'
unfolding fit_buffer
fit_buffer-Fitting junk c total v h =
    let size = c.recv_buffer_length in
    elim (Bool-cases (ltb size total)) [
      | inl e ↦
          let n : (total + 10) % word_limit ≡ total + 10 = omega arith in
          rw (e, n) (realloc_lem junk c (total + 10) total h (omega arith))
      | inr e ↦
          let le = ltb→le _ _ e in
          elim (Bool-cases (ltb total (size / 3) && ltb 111 total)) [
            | inl d ↦
                let lt : ltb total (size / 3) ≡ true = ground arith in
                rw (e, d)
                  (realloc_lem junk c (size / 2) total (omega (arith, v.small))
                    (omega (arith, ltb→lt _ _ lt)))
            | inr d ↦ (
              c,
              rw (e, d),
              record { valid = v; fits = le; spare = λ ne. omega arith; ack = refl; queue = refl },
            )
          ]
    ]
