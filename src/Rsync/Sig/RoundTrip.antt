-- ===== src/Rsync/Sig/RoundTrip.antt =====
-- `ParseMetaList` reads back what `GenerateSigFile` wrote.
use just_for_test_and_try.Base.{
  ℕ, ◌^◌, ◌<◌, ◌≡◌, refl, ap, sym, ◌∙◌, inl, inr, Bool-cases, false, some, List, [], ◌∷◌, ◌++◌,
  append_assoc, arith, ◌==◌, length, drop, drop-drop, take-append_eq, drop-append_eq, int_limit,
}
use just_for_test_and_try.Checksum.Hex.{AllNonzero}
use just_for_test_and_try.Rsync.{ChunkInfo, sig_magic, htonl, ntohl}
use just_for_test_and_try.Rsync.Patch.Apply.{rounds_small}
use just_for_test_and_try.Rsync.Sig.{c_string, parse_chunk, parse_chunks, parse_meta_list}
use just_for_test_and_try.Rsync.Sig.Chunks.{encode_chunk, encode_chunks, sig_of}

-- There is a NUL in the block, so a text that starts in it ends in it.
abbrev pub HasNul : List ℕ → Type 0
HasNul bs = (s : List ℕ) × (c_string bs ≡ some s)

-- What fits the fields of an entry.
pub record Fits (ch : ChunkInfo) : Type 0 where
  pub weak : ch.weak_sum < 2 ^ 32
  pub offset : ch.offset < 2 ^ 32
  pub length_of : ch.length_of < 2 ^ 32
  pub strong : length ch.strong_sum ≡ 32
  pub printed : AllNonzero ch.strong_sum

abbrev pub AllFit : List ChunkInfo → Type 0
AllFit [] = Unit {0}
AllFit (ch ∷ chs) = Fits ch × AllFit chs

c_string-cons : (b : ℕ) (bs : List ℕ) → HasNul bs → HasNul (b ∷ bs)
unfolding c_string
c_string-cons b bs (s, e) = elim (Bool-cases (b == 0)) [
  | inl z ↦ ([], rw z)
  | inr z ↦ (b ∷ s, rw (z, e))
]

HasNul-append : (xs ys : List ℕ) → HasNul ys → HasNul (xs ++ ys)
HasNul-append [] ys h = h
HasNul-append (x ∷ xs) ys h = c_string-cons x (xs ++ ys) (HasNul-append xs ys h)

c_string_text :
    (xs ys : List ℕ)
    → AllNonzero xs
    → HasNul ys
    → (s : List ℕ) × (c_string (xs ++ ys) ≡ some (xs ++ s))
unfolding c_string
c_string_text [] ys n h = h
c_string_text (x ∷ xs) ys n h =
    let (s, e) = c_string_text xs ys n.1 h in
    let z : (x == 0) ≡ false = ground arith in (s, rw (z, e))

ntohl-append : (v : ℕ) (rest : List ℕ) → v < 2 ^ 32 → ntohl (htonl v ++ rest) ≡ some v
unfolding ntohl htonl
ntohl-append v rest h = ground arith

drop-htonl : (v : ℕ) (rest : List ℕ) → drop 4 (htonl v ++ rest) ≡ rest
unfolding htonl
drop-htonl v rest = refl

-- Each step of four bytes is one word on.
drop_words :
    (u v w : ℕ) (rest : List ℕ)
    → let buf = htonl u ++ (htonl v ++ (htonl w ++ rest)) in
      (drop 4 buf ≡ htonl v ++ (htonl w ++ rest))
      × (drop 8 buf ≡ htonl w ++ rest)
      × (drop 12 buf ≡ rest)
unfolding htonl
drop_words u v w rest = (refl, refl, refl)

parse_chunk-encode :
    (ch : ChunkInfo) (rest : List ℕ)
    → Fits ch
    → HasNul rest
    → parse_chunk (encode_chunk ch ++ rest) ≡ some (ch, rest)
unfolding parse_chunk
parse_chunk-encode ch rest f h =
    let (s, e) = c_string_text ch.strong_sum rest f.printed h in
    let tail = ch.strong_sum ++ rest in
    let buf = htonl ch.weak_sum ++ (htonl ch.offset ++ (htonl ch.length_of ++ tail)) in
    let (d4, d8, d12) = drop_words ch.weak_sum ch.offset ch.length_of tail in
    let d44 : drop 44 buf ≡ rest =
      sym (drop-drop 32 12 buf)
      ∙ ap (drop 32) d12
      ∙ drop-append_eq 32 ch.strong_sum rest (sym f.strong) in
    let flat : (htonl ch.weak_sum ++ (htonl ch.offset ++ (htonl ch.length_of ++ ch.strong_sum)))
          ++ rest
        ≡ buf =
      simp append_assoc in
    rw
      (
        flat,
        ntohl-append ch.weak_sum (htonl ch.offset ++ (htonl ch.length_of ++ tail)) f.weak,
        d4,
        ntohl-append ch.offset (htonl ch.length_of ++ tail) f.offset,
        d8,
        ntohl-append ch.length_of tail f.length_of,
        d12,
        e,
        d44,
      )
      (ground (arith, take-append_eq 32 ch.strong_sum s (sym f.strong)))

parse_chunks-encode :
    (chs : List ChunkInfo) (tail : List ℕ)
    → AllFit chs
    → HasNul tail
    → parse_chunks (length chs) (encode_chunks chs ++ tail) ≡ some chs
unfolding parse_chunks
parse_chunks-encode [] tail f h = refl
parse_chunks-encode (ch ∷ chs) tail f h = rw (
  append_assoc (encode_chunk ch) (encode_chunks chs) tail,
  parse_chunk-encode ch (encode_chunks chs ++ tail) f.0 (HasNul-append (encode_chunks chs) tail h),
  parse_chunks-encode chs tail f.1 h,
)

-- ParseMetaList gives back the entries of a signature, whatever follows it in memory, if there is
-- a NUL in what follows, the block size and the entries' numbers are below 2 ^ 32, the entries
-- are fewer than 2 ^ 31 and their printed sums are 32 characters other than NUL.
pub parse_meta_list-sig_of :
    (c : ℕ) (chs : List ChunkInfo) (tail : List ℕ)
    → c < 2 ^ 32
    → length chs < int_limit
    → AllFit chs
    → HasNul tail
    → parse_meta_list (sig_of c chs ++ tail) ≡ some (some chs)
unfolding parse_meta_list
parse_meta_list-sig_of c chs tail hc n f h =
    let body = encode_chunks chs ++ tail in
    let buf = htonl sig_magic ++ (htonl c ++ (htonl (length chs) ++ body)) in
    let (d4, d8, d12) = drop_words sig_magic c (length chs) body in
    let flat : sig_of c chs ++ tail ≡ buf = simp append_assoc in
    rw (
      flat,
      ntohl-append sig_magic (htonl c ++ (htonl (length chs) ++ body)) (omega arith),
      d4,
      ntohl-append c (htonl (length chs) ++ body) hc,
      d8,
      ntohl-append (length chs) body (omega arith),
      d12,
      rounds_small (length chs) n,
      parse_chunks-encode chs tail f h,
    )
