-- ===== src/NetV1/Chunking.antt =====
-- `Chunking` on a buffer that holds whole frames and a part of the next one.
use just_for_test_and_try.Base.{
  ℕ, zero, suc, ◌-◌, ◌≤◌, ◌<◌, ◌≡◌, refl, ap, sym, ◌∙◌, inl, inr, Bool-cases, some, List, [], ◌∷◌,
  ◌++◌, map, append_assoc, arith, length, drop, ltb, length-append, length-drop, drop-append_le,
  lt→ltb, le→ltb, ltb→le, ntohl,
}
use just_for_test_and_try.Net.Package.Fields.{signed_small}
use just_for_test_and_try.Net.Packet.{Packet, returned}
use just_for_test_and_try.NetV1.{StreamSocketContext, part, look, chunking}
use just_for_test_and_try.NetV1.Output.{total_length, frame, frames, Fits, AllFit, length-frame}
use just_for_test_and_try.NetV1.Unpack.{arrived, Laid, frame-Laid}
use just_for_test_and_try.NetV1.Frames.{
  Holds, Same, Same-trans, Holds-buffer, look-frame, take_out-frame,
}

-- The first four bytes are all that ntohl reads.
ntohl-prefix : (t r m : List ℕ) → 4 ≤ length t → ntohl (t ++ r) ≡ ntohl (t ++ m)
unfolding ntohl
ntohl-prefix [] r m h = elim h [ ]
ntohl-prefix (a ∷ []) r m h = absurd (omega arith)
ntohl-prefix (a ∷ b ∷ []) r m h = absurd (omega arith)
ntohl-prefix (a ∷ b ∷ c ∷ []) r m h = absurd (omega arith)
ntohl-prefix (a ∷ b ∷ c ∷ d ∷ t) r m h = refl

-- The bytes are less than the first frame, and none if no frame follows.
abbrev pub PartOf : List ℕ → List Packet → Type 0
PartOf t [] = length t ≡ 0
PartOf t (p ∷ _) = length t < length (frame p)

-- A part of a frame at the start of the buffer is left there.
look-part :
    (c : StreamSocketContext) (p : Packet) (t ys tail : List ℕ)
    → Holds c t
    → Fits c.recv_buffer_length p
    → t ++ ys ≡ frame p ++ tail
    → length t < length (frame p)
    → 8 ≤ length t
    → look c ≡ returned part
unfolding look
look-part c p t ys tail h v e k eight =
    let n = length-frame _ p v in
    let s = h.small in
    let small = v.small in
    let l = frame-Laid c.recv_buffer_length p tail s v in
    let rest = drop (length t) c.recv_buffer in
    let first : ntohl c.recv_buffer ≡ some 1 =
      ap ntohl (Holds-buffer c t h) ∙ ntohl-prefix t rest ys (omega arith) ∙ ap ntohl e ∙ l.word in
    let second : ntohl (drop 4 c.recv_buffer) ≡ some (total_length p) =
      ap (λ b. ntohl (drop 4 b)) (Holds-buffer c t h)
      ∙ ap ntohl (drop-append_le 4 t rest (omega arith))
      ∙ ntohl-prefix (drop 4 t) rest ys (omega (arith, length-drop 4 t))
      ∙ ap ntohl (sym (drop-append_le 4 t ys (omega arith)))
      ∙ ap (λ b. ntohl (drop 4 b)) e
      ∙ l.total in
    rw (
      first,
      second,
      signed_small (total_length p) c.recv_buffer_length (omega arith) s,
      lt→ltb (total_length p) c.recv_buffer_length (omega arith),
      signed_small (c.buffer_offset - 8) (total_length p) (omega (arith, h.offset)) (omega arith),
      lt→ltb (c.buffer_offset - 8) (total_length p) (omega (arith, h.offset)),
    )

chunking-PartOf :
    (max_id left : ℕ) (c : StreamSocketContext) (t ys : List ℕ) (ps : List Packet)
    → Holds c t
    → AllFit c.recv_buffer_length ps
    → t ++ ys ≡ frames ps
    → PartOf t ps
    → chunking max_id (suc left) c ≡ returned ([], c)
unfolding chunking
chunking-PartOf max_id left c t ys [] h v e k =
    rw (lt→ltb c.buffer_offset 8 (omega (arith, h.offset, k)))
chunking-PartOf max_id left c t ys (p ∷ ps) h v e k = elim (Bool-cases (ltb c.buffer_offset 8)) [
  | inl d ↦ rw d
  | inr d ↦
      let eight : 8 ≤ length t = omega (arith, ltb→le _ _ d, h.offset) in
      rw (d, look-part c p t ys (frames ps) h v.0 e k eight)
]

-- Chunking hands over the packets of the whole frames, in order, and keeps the part.
pub chunking-frames :
    (max_id left : ℕ) (c : StreamSocketContext) (done rest : List Packet) (t ys : List ℕ)
    → Holds c (frames done ++ t)
    → AllFit c.recv_buffer_length (done ++ rest)
    → t ++ ys ≡ frames rest
    → PartOf t rest
    → length (frames done ++ t) < left
    → (c' : StreamSocketContext) × (chunking max_id left c
        ≡ returned (map (arrived max_id c.end_point) done, c'))
      × Holds c' t
      × Same c c'
unfolding chunking
chunking-frames max_id zero c done rest t ys h v e k f = absurd (omega arith)
chunking-frames max_id (suc left) c [] rest t ys h v e k f = (
  c,
  chunking-PartOf max_id left c t ys rest h v e k,
  h,
  record { size = refl; end_point = refl; queue = refl },
)
chunking-frames max_id (suc left) c (p ∷ done) rest t ys h v e k f =
    let tail = frames done ++ t in
    let assoc : (frame p ++ frames done) ++ t ≡ frame p ++ tail =
      append_assoc (frame p) (frames done) t in
    let h1 : Holds c (frame p ++ tail) = rw (← assoc) h in
    let n = length-frame _ p v.0 in
    let m = length-append (frame p) tail in
    let len : length ((frame p ++ frames done) ++ t) ≡ length (frame p ++ tail) = ap length assoc in
    let l : Laid p c.recv_buffer =
      rw
        (
          Holds-buffer c _ h1,
          append_assoc (frame p) tail (drop (length (frame p ++ tail)) c.recv_buffer),
        )
        (frame-Laid c.recv_buffer_length p _ h.small v.0) in
    let (c1, e1, h2, s1) = take_out-frame max_id c p tail h1 v.0 l in
    let v1 : AllFit c1.recv_buffer_length (done ++ rest) = rw s1.size v.1 in
    let (c2, e2, h3, s2) =
      chunking-frames max_id left c1 done rest t ys h2 v1 e k (omega (arith, f)) in
    (
      c2,
      rw (
        le→ltb c.buffer_offset 8 (omega (arith, h1.offset)),
        look-frame c p tail h1 v.0 l,
        e1,
        e2,
        s1.end_point,
      ),
      h3,
      Same-trans c c1 c2 s1 s2,
    )
