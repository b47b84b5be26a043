-- ===== src/Service/Protocol.antt =====
-- The client reads what the server writes, and the server what the client writes.
use just_for_test_and_try.Base.{
  ℕ, ◌+◌, ◌*◌, ◌^◌, ◌≤◌, ◌<◌, ◌≡◌, refl, ap, sym, subst, ◌∙◌, true, Option, some, List, [], ◌∷◌,
  ◌++◌, append_assoc, append-nil, arith, length, take, drop, length-append, length-htonl, htonl,
  ntohl-htonl, bytes_eq_eq, memmove,
}
use just_for_test_and_try.Rsync.{ChunkInfo}
use just_for_test_and_try.Rsync.Patch.Apply.{rounds_small}
use just_for_test_and_try.Net.Package.{Package, word_limit, set_data, get_string, set_int}
use just_for_test_and_try.Net.Package.Fields.{
  Writing, Reading, Wrote, starts, reads, written, set_int-Writing, set_string-Writing,
  get_int-Reading, get_string-Reading,
}
use just_for_test_and_try.Net.Packet.{Packet}
use just_for_test_and_try.Net.Packet.Carried.{Holds, Delivered-Holds, Holds-of}
use just_for_test_and_try.Net.Stream.Decode.{Delivered}
use just_for_test_and_try.Service.{
  ok, write_entry, write_entries, meta_head, meta_reply, read_entry, read_entries, read_meta,
}

-- What fits the fields of an entry, as the client makes it anew.
pub record Fits (ch : ChunkInfo) : Type 0 where
  pub weak : ch.weak_sum < word_limit
  pub offset : ch.offset < word_limit
  pub length_of : ch.length_of < word_limit
  pub strong : length ch.strong_sum ≡ 32
  pub from : ch.from ≡ true

abbrev pub AllFit : List ChunkInfo → Type 0
AllFit [] = Unit {0}
AllFit (ch ∷ chs) = Fits ch × AllFit chs

-- An entry and a table in a packet.
abbrev entry : ChunkInfo → List ℕ
entry ch = htonl ch.weak_sum ++ (htonl ch.offset ++ (htonl ch.length_of ++ ch.strong_sum))

abbrev entries : List ChunkInfo → List ℕ
entries [] = []
entries (ch ∷ chs) = entry ch ++ entries chs

length-entry : (ch : ChunkInfo) → length ch.strong_sum ≡ 32 → length (entry ch) ≡ 44
length-entry ch h = omega (
  arith,
  h,
  length-append (htonl ch.weak_sum) (htonl ch.offset ++ (htonl ch.length_of ++ ch.strong_sum)),
  length-append (htonl ch.offset) (htonl ch.length_of ++ ch.strong_sum),
  length-append (htonl ch.length_of) ch.strong_sum,
  length-htonl ch.weak_sum,
  length-htonl ch.offset,
  length-htonl ch.length_of,
)

write_entry-Wrote :
    (k : Package) (out : List ℕ) (ch : ChunkInfo)
    → Fits ch
    → Writing k out
    → 44 ≤ k.left_length
    → (k' : Package) × (write_entry k ch ≡ some k') × Wrote k (out ++ entry ch) 44 k'
unfolding write_entry
write_entry-Wrote k out ch f w h =
    let a = htonl ch.weak_sum in
    let b = htonl ch.offset in
    let c = htonl ch.length_of in
    let (k1, e1, w1) = set_int-Writing k out a w (length-htonl _) (omega arith) in
    let (k2, e2, w2) =
      set_int-Writing k1 _ b w1.writing (length-htonl _) (omega (arith, w1.spent)) in
    let (k3, e3, w3) =
      set_int-Writing k2 _ c w2.writing (length-htonl _) (omega (arith, w1.spent, w2.spent)) in
    let (k4, e4, w4) =
      set_string-Writing k3 _ ch.strong_sum w3.writing
        (omega (arith, w1.spent, w2.spent, w3.spent, f.strong)) in
    let assoc : ((((out ++ a) ++ b) ++ c) ++ ch.strong_sum) ≡ out ++ entry ch = simp append_assoc in
    (
      k4,
      rw (e1, e2, e3, e4),
      record {
        writing = subst (Writing k4) assoc w4.writing;
        spent = omega (arith, w1.spent, w2.spent, w3.spent, w4.spent, f.strong);
        same = w4.same ∙ w3.same ∙ w2.same ∙ w1.same;
      },
    )

write_entries-Wrote :
    (k : Package) (out : List ℕ) (chs : List ChunkInfo)
    → AllFit chs
    → Writing k out
    → 44 * length chs ≤ k.left_length
    → (k' : Package) × (write_entries k chs ≡ some k')
      × Wrote k (out ++ entries chs) (44 * length chs) k'
unfolding write_entries
write_entries-Wrote k out [] f w h = (
  k,
  refl,
  record { writing = subst (Writing k) (sym (append-nil out)) w; spent = omega arith; same = refl },
)
write_entries-Wrote k out (ch ∷ chs) f w h =
    let (k1, e1, w1) = write_entry-Wrote k out ch f.0 w (omega arith) in
    let (k2, e2, w2) =
      write_entries-Wrote k1 (out ++ entry ch) chs f.1 w1.writing (omega (arith, w1.spent)) in
    (
      k2,
      rw (e1, e2),
      record {
        writing = subst (Writing k2) (append_assoc out (entry ch) (entries chs)) w2.writing;
        spent = omega (arith, w1.spent, w2.spent);
        same = w2.same ∙ w1.same;
      },
    )

read_entry-Reading :
    (k : Package) (ch : ChunkInfo) (rest : List ℕ)
    → Fits ch
    → Reading k (entry ch ++ rest)
    → (k' : Package) × (read_entry k ≡ some (ch, k')) × Reading k' rest
unfolding read_entry
read_entry-Reading k ch rest f r =
    let a = htonl ch.weak_sum in
    let b = htonl ch.offset in
    let c = htonl ch.length_of in
    let assoc : entry ch ++ rest ≡ a ++ (b ++ (c ++ (ch.strong_sum ++ rest))) = simp append_assoc in
    let (k1, e1, r1) = get_int-Reading k a _ (length-htonl _) (subst (Reading k) assoc r) in
    let (k2, e2, r2) = get_int-Reading k1 b _ (length-htonl _) r1 in
    let (k3, e3, r3) = get_int-Reading k2 c _ (length-htonl _) r2 in
    let (k4, e4, r4) = get_string-Reading k3 ch.strong_sum rest r3 in
    let e5 : get_string k3 32 ≡ some (some ch.strong_sum, k4) =
      ap (get_string k3) (sym f.strong) ∙ e4 in
    (
      k4,
      rw
          (
            e1,
            ntohl-htonl ch.weak_sum f.weak,
            e2,
            ntohl-htonl ch.offset f.offset,
            e3,
            ntohl-htonl ch.length_of f.length_of,
            e5,
          )
          (ap {B = Option (ChunkInfo × Package)} (λ b. some (record ch { from = b }, k4))
            (sym f.from)),
      r4,
    )

read_entries-Reading :
    (k : Package) (chs : List ChunkInfo) (rest : List ℕ)
    → AllFit chs
    → Reading k (entries chs ++ rest)
    → read_entries (length chs) k ≡ some chs
unfolding read_entries
read_entries-Reading k [] rest f r = refl
read_entries-Reading k (ch ∷ chs) rest f r =
    let (k1, e1, r1) =
      read_entry-Reading k ch (entries chs ++ rest) f.0
        (subst (Reading k) (append_assoc (entry ch) (entries chs) rest) r) in
    rw (e1, read_entries-Reading k1 chs rest f.1 r1)

-- The head of an answer: the response, the number of entries, and what follows.
meta_head_lem :
    (junk count : ℕ)
    → (head : List ℕ) × (meta_head junk count ≡ some head)
      × (take 13 head ≡ htonl ok ++ (htonl count ++ (htonl 1 ++ junk ∷ [])))
      × (length head ≡ 15)
unfolding meta_head set_int set_data memmove htonl
meta_head_lem junk count =
    (htonl ok ++ (htonl count ++ (htonl 1 ++ (junk ∷ junk ∷ junk ∷ []))), refl, refl, refl)

-- The reply of GetMeta holds the table.
pub meta_reply_lem :
    (junk : ℕ) (p : Packet) (chs : List ChunkInfo)
    → AllFit chs
    → length chs < 2 ^ 25
    → (r : Packet) × (rest : List ℕ) × (meta_reply junk p chs ≡ some r)
      × Holds r (htonl ok ++ (htonl (length chs) ++ (htonl 1 ++ junk ∷ []))) (entries chs ++ rest)
unfolding meta_reply
meta_reply_lem junk p chs f h =
    let n = length chs * (4 + 4 * 2 + 32) + 10 in
    let (head, e1, text, size) = meta_head_lem junk (length chs) in
    let (w, left, len) = starts junk n (omega arith) in
    let (k, e2, w2) = write_entries-Wrote _ [] chs f w (omega (arith, left)) in
    let whole : length k.block ≡ n = w2.same ∙ len in
    (
      record p { head_data = head; head_length = 13; data_block = k.block; data_length = n },
      drop k.pointer k.block,
      rw (e1, e2),
      record {
        head_of = text;
        head_fits = omega (arith, size);
        head_small = omega arith;
        text_of = written k (entries chs) n w2.writing whole;
        text_fits = omega (arith, whole);
        text_small = omega arith;
      },
    )

-- The reply of GetMeta, once it is delivered, gives the client the server's table: for fewer than
-- 2 ^ 25 entries whose numbers fit 32 bits, with strong sums of 32 characters.
pub read_meta-meta_reply :
    (junk : ℕ) (p r q : Packet) (chs : List ChunkInfo)
    → AllFit chs
    → length chs < 2 ^ 25
    → meta_reply junk p chs ≡ some r
    → Delivered r q
    → read_meta q ≡ some (some chs)
unfolding read_meta
read_meta-meta_reply junk p r q chs f h e d =
    let (r', rest, e', held') = meta_reply_lem junk p chs f h in
    let held = Delivered-Holds r q _ _ (Holds-of _ r r' _ _ e' e held') d in
    let (k1, e1, r1) =
      get_int-Reading _ (htonl ok) _ (length-htonl ok)
        (reads q.head_data q.head_length _ held.head_fits held.head_small held.head_of) in
    let (k2, e2, r2) = get_int-Reading k1 (htonl (length chs)) _ (length-htonl _) r1 in
    rw (
      e1,
      ntohl-htonl ok (omega arith),
      e2,
      ntohl-htonl (length chs) (omega arith),
      rounds_small (length chs) (omega arith),
      read_entries-Reading _ chs rest f
          (reads q.data_block q.data_length _ held.text_fits held.text_small held.text_of),
    )
