-- ===== src/Http/Response/Sending.antt =====
-- What the answer puts on the wire.
use just_for_test_and_try.Base.{
  le→leb, ℕ, zero, suc, ◌+◌, ◌-◌, ◌≤◌, ◌<◌, ◌≡◌, refl, ap, sym, subst, Bool, ◌∙◌, inl, inr,
  Bool-cases, true, Option, none, some, List, [], ◌∷◌, ◌++◌, append-nil, append_assoc, arith, ltb,
  ◌==◌, ==_iff, ==→ne, length, take, drop, slice, min, length-append, length-take, length-drop,
  length-zero, drop-length, drop-drop, take-append-drop, lt→ltb, le→ltb, ltb→lt, ltb→le, lookup,
  bytes_eq_eq,
}
use just_for_test_and_try.Net.Packet.{Outcome, returned, ◌>>=◌}
use just_for_test_and_try.Net.Stream.{Outgoing}
use just_for_test_and_try.Net.Stream.Sending.{accepting, Sent, Sent-trans}
use just_for_test_and_try.Fs.FileUtils.{Files}
use just_for_test_and_try.Http.Config.{Conf, get_type}
use just_for_test_and_try.Http.Response.{
  send_loop, safe_send_file, send_chunks, send_file, file_end, head_text, length_text, send_head,
  send_file_size, send_answer,
}

-- No call of send fails.
abbrev pub NoFailure : List (Option ℕ) → Type 0
NoFailure [] = Unit {0}
NoFailure (none ∷ _) = ⊥
NoFailure (some _ ∷ accepts) = NoFailure accepts

-- Some bytes are on the wire, and no call has failed or will.
pub record Sound (o : Outgoing) (bytes : List ℕ) (o' : Outgoing) : Type 0 where
  pub sent : Sent o bytes o'
  pub later : NoFailure o'.accepts

abbrev pub Answers : Outcome Outgoing → Outgoing → List ℕ → Type 0
Answers m o bytes = (o' : Outgoing) × (m ≡ returned o') × Sound o bytes o'

accepting-some :
    (a left : ℕ) (rest : List (Option ℕ))
    → 0 < left
    → accepting (some a ∷ rest) ≤ accepting rest + min a left
accepting-some zero left rest h = omega arith
accepting-some (suc a) left rest h = omega arith

-- Nothing is left to send.
finished :
    (bytes : List ℕ) (total : ℕ) (accepts : List (Option ℕ)) (wire : List ℕ)
    → NoFailure accepts
    → length bytes ≤ total
    → (o' : Outgoing) × (◌≡◌ {A = Outcome (Bool × Outgoing)}
        (returned (true, record { wire = wire; accepts = accepts }))
        (returned (true, o')))
      × Sound (record { wire = wire; accepts = accepts }) (drop total bytes) o'
finished bytes total accepts wire v h =
    let none_left = drop-length bytes total h in
    rw none_left (
      record { wire = wire; accepts = accepts },
      refl,
      record { sent = record { wire = sym (append-nil wire); calls = omega arith }; later = v },
    )

send_loop-Sound :
    (bytes : List ℕ) (total : ℕ) (accepts : List (Option ℕ)) (wire : List ℕ)
    → NoFailure accepts
    → total ≤ length bytes
    → length bytes - total ≤ accepting accepts
    → (o' : Outgoing) × (send_loop bytes total accepts wire ≡ returned (true, o'))
      × Sound (record { wire = wire; accepts = accepts }) (drop total bytes) o'
unfolding send_loop
send_loop-Sound bytes total [] wire v h k =
    let all : length bytes ≤ total = omega arith in
    rw (le→ltb total (length bytes) all) (finished bytes total [] wire v all)
send_loop-Sound bytes total (none ∷ accepts) wire v h k = absurd v
send_loop-Sound bytes total (some a ∷ accepts) wire v h k =
    let n = min a (length bytes - total) in
    elim (Bool-cases (ltb total (length bytes))) [
      | inl e ↦
          let some_left = ltb→lt total (length bytes) e in
          let calls = accepting-some a (length bytes - total) accepts (omega arith) in
          let (o', q, s) =
            send_loop-Sound bytes (total + n) accepts (wire ++ slice total n bytes) v (omega arith)
              (omega arith) in
          let rest : slice total n bytes ++ drop (total + n) bytes ≡ drop total bytes =
            ap (λ b. slice total n bytes ++ b) (sym (drop-drop n total bytes))
            ∙ take-append-drop n (drop total bytes) in
          (
            o',
            rw e q,
            record {
              sent = record {
                wire =
                    s.sent.wire
                    ∙ append_assoc wire (slice total n bytes) (drop (total + n) bytes)
                    ∙ ap (λ b. wire ++ b) rest;
                calls = omega (
                  arith,
                  calls,
                  s.sent.calls,
                  length-drop total bytes,
                  length-drop (total + n) bytes,
                );
              };
              later = s.later;
            },
          )
      | inr e ↦
          rw e (finished bytes total (some a ∷ accepts) wire v (ltb→le total (length bytes) e))
    ]

safe_send_file-Sound :
    (bytes : List ℕ) (o : Outgoing)
    → NoFailure o.accepts
    → length bytes ≤ accepting o.accepts
    → (o' : Outgoing) × (safe_send_file bytes o ≡ returned (true, o')) × Sound o bytes o'
unfolding safe_send_file
safe_send_file-Sound bytes o v h =
    send_loop-Sound bytes 0 o.accepts o.wire v (omega arith) (omega arith)

Sound-trans :
    (a b c : Outgoing) (xs ys : List ℕ) → Sound a xs b → Sound b ys c → Sound a (xs ++ ys) c
Sound-trans a b c xs ys s t = record { sent = Sent-trans s.sent t.sent; later = t.later }

send_chunks-Sound :
    (left : ℕ) (bytes : List ℕ) (o : Outgoing)
    → length bytes < left
    → NoFailure o.accepts
    → length bytes ≤ accepting o.accepts
    → Answers (send_chunks left bytes o) o bytes
unfolding send_chunks
send_chunks-Sound zero bytes o h v k = absurd (omega arith)
send_chunks-Sound (suc left) bytes o h v k = elim (Bool-cases (length bytes == 0)) [
  | inl e ↦
      let empty = length-zero bytes ((==_iff (length bytes) 0).0 e) in
      rw (e, empty)
        (
          o,
          refl,
          record {
            sent = record { wire = sym (append-nil o.wire); calls = omega arith };
            later = v;
          },
        )
  | inr e ↦
      let some_bytes = ==→ne (length bytes) 0 e in
      let n = length-take 10000 bytes in
      let m = length-drop 10000 bytes in
      let (o1, q1, s1) = safe_send_file-Sound (take 10000 bytes) o v (omega (arith, n)) in
      let (o2, q2, s2) =
        send_chunks-Sound left (drop 10000 bytes) o1 (omega (arith, m)) s1.later
          (omega (arith, m, n, s1.sent.calls)) in
      (
        o2,
        rw (e, q1, q2),
        subst (λ b. Sound o b o2) (take-append-drop 10000 bytes)
            (Sound-trans o o1 o2 (take 10000 bytes) (drop 10000 bytes) s1 s2),
      )
]

-- The whole answer for a file.
abbrev pub answer_text : List ℕ → List ℕ → List ℕ
answer_text file_type bytes = head_text file_type ++ (length_text (length bytes) ++ bytes)

Answers-bind :
    (m : Outcome Outgoing) (f : Outgoing → Outcome Outgoing) (o : Outgoing) (xs ys : List ℕ)
    → Answers m o xs
    → ((o1 : Outgoing) → Sound o xs o1 → Answers (f o1) o1 ys)
    → Answers (m >>= f) o (xs ++ ys)
Answers-bind m f o xs ys (o1, e, s) k =
    let (o2, q, t) = k o1 s in (o2, ap (λ n. n >>= f) e ∙ q, Sound-trans o o1 o2 xs ys s t)

send_head-Sound :
    (ftype : Conf) (name ext : List ℕ) (o : Outgoing)
    → file_end name ≡ some ext
    → length (head_text (get_type ext ftype)) < 1000
    → NoFailure o.accepts
    → length (head_text (get_type ext ftype)) ≤ accepting o.accepts
    → Answers (send_head ftype name o) o (head_text (get_type ext ftype))
unfolding send_head
send_head-Sound ftype name ext o e small v k =
    let head = head_text (get_type ext ftype) in
    let (o1, q1, s1) = safe_send_file-Sound head o v k in
    (o1, rw (e, le→leb (length head) 1000 (omega arith), lt→ltb (length head) 1000 small, q1), s1)

send_file_size-Sound :
    (name bytes : List ℕ) (fs : Files) (o : Outgoing)
    → lookup name fs ≡ some bytes
    → NoFailure o.accepts
    → length (length_text (length bytes)) ≤ accepting o.accepts
    → Answers (send_file_size name fs o) o (length_text (length bytes))
unfolding send_file_size
send_file_size-Sound name bytes fs o f v k =
    let (o1, q1, s1) = safe_send_file-Sound (length_text (length bytes)) o v k in
    (o1, rw (f, send_file_size, q1), s1)

send_file-Sound :
    (name bytes : List ℕ) (fs : Files) (o : Outgoing)
    → lookup name fs ≡ some bytes
    → NoFailure o.accepts
    → length bytes ≤ accepting o.accepts
    → Answers (send_file name fs o) o bytes
unfolding send_file
send_file-Sound name bytes fs o f v k =
    let (o1, q1, s1) = send_chunks-Sound (suc (length bytes)) bytes o (omega arith) v k in
    (o1, rw (f, send_file, q1), s1)

pub send_answer-Sound :
    (ftype : Conf) (name ext bytes : List ℕ) (fs : Files) (o : Outgoing)
    → lookup name fs ≡ some bytes
    → file_end name ≡ some ext
    → length (head_text (get_type ext ftype)) < 1000
    → NoFailure o.accepts
    → length (answer_text (get_type ext ftype) bytes) ≤ accepting o.accepts
    → Answers (send_answer ftype name fs o) o (answer_text (get_type ext ftype) bytes)
unfolding send_answer
send_answer-Sound ftype name ext bytes fs o f e small v k =
    let head = head_text (get_type ext ftype) in
    let size = length_text (length bytes) in
    let n = length-append head (size ++ bytes) in
    let m = length-append size bytes in
    Answers-bind _ _ o head (size ++ bytes)
      (send_head-Sound ftype name ext o e small v (omega (arith, n)))
      λ o1 s1.
        Answers-bind _ _ o1 size bytes
          (send_file_size-Sound name bytes fs o1 f s1.later (omega (arith, n, m, s1.sent.calls)))
          λ o2 s2.
            send_file-Sound name bytes fs o2 f s2.later
              (omega (arith, n, m, s1.sent.calls, s2.sent.calls))
