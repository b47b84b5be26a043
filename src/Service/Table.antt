-- ===== src/Service/Table.antt =====
-- The table that the server makes of a file.
use native.Mathlib.Nat.{div-mul-le_self, div-add-mod', div-le_self}
use just_for_test_and_try.Base.{
  ℕ, zero, suc, ◌+◌, ◌*◌, ◌/◌, ◌%◌, ◌≤◌, ◌<◌, ◌≡◌, refl, sym, ap, true, Option, none, some, List,
  [], ◌∷◌, ◌++◌, arith, ltb, length, slice, take, inl, inr, Bool-cases, ltb→le, append-nil, subst,
  length-append,
}
use just_for_test_and_try.Checksum.{strong_sum}
use just_for_test_and_try.FileMap.{FileMap, default_buffer_length}
use just_for_test_and_try.Rsync.{ChunkInfo}
use just_for_test_and_try.Rsync.Copy.{Reads, read_at-Reads, new_reader}
use just_for_test_and_try.Net.Package.{word_limit}
use just_for_test_and_try.Rsync.Scan.State.{IsDigest}
use just_for_test_and_try.Rsync.Delta.RoundTrip.{length-strong_sum}
use just_for_test_and_try.Service.Protocol.{AllFit}
use just_for_test_and_try.Service.{whole_chunks, last_chunk, generate_meta_list}

module _ (c : ℕ) (sum1 : List ℕ → ℕ) (md4 : List ℕ → List ℕ) (file : List ℕ) where
  abbrev pub whole_at : ℕ → ChunkInfo
  whole_at i = record {
    weak_sum = sum1 (slice (i * c) c file);
    from = true;
    offset = i * c;
    length_of = c;
    strong_sum = strong_sum md4 (slice (i * c) c file);
  }

  abbrev pub wholes : ℕ → ℕ → List ChunkInfo
  wholes zero i = []
  wholes (suc n) i = whole_at i ∷ wholes n (i + 1)

  -- What the pointer is left at.
  abbrev pub left_at : ℕ → ℕ → Option (List ℕ) → Option (List ℕ)
  left_at zero i buf = buf
  left_at (suc n) i buf = left_at n (i + 1) (some (slice (i * c) c file))

  abbrev pub tail_of : ℕ → ℕ → Option (List ℕ) → ChunkInfo
  tail_of count last buf = record {
    weak_sum = 0;
    from = true;
    offset = count * c;
    length_of = last;
    strong_sum = strong_sum md4 (elim buf [ none ↦ [] | some block ↦ take last block ]);
  }

  whole_chunks_lem :
      (n i : ℕ) (buf : Option (List ℕ)) (m : FileMap)
      → Reads m file
      → i * c + n * c ≤ length file
      → whole_chunks c sum1 md4 n i buf m file ≡ some (wholes n i, left_at n i buf)
  unfolding whole_chunks
  whole_chunks_lem zero i buf m r h = refl
  whole_chunks_lem (suc n) i buf m r h =
      let (m', e, r') = read_at-Reads m file (i * c) c r (omega arith) in
      rw (e, whole_chunks_lem n (i + 1) (some (slice (i * c) c file)) m' r' (omega arith))

  -- Entries that follow one another from `at` up to `end`, with what their fields hold.
  abbrev pub Covers : ℕ → List ChunkInfo → ℕ → Type 0
  Covers at [] end = at ≡ end
  Covers at (ch ∷ chs) end =
      (ch.from ≡ true)
      × (ch.offset ≡ at)
      × (at + ch.length_of ≤ length file)
      × Covers (at + ch.length_of) chs end

  wholes-Covers :
      (n i : ℕ) (rest : List ChunkInfo) (end : ℕ)
      → i * c + n * c ≤ length file
      → Covers ((i + n) * c) rest end
      → Covers (i * c) (wholes n i ++ rest) end
  wholes-Covers zero i rest end h k = subst (λ at. Covers at rest end) (omega arith) k
  wholes-Covers (suc n) i rest end h k = (
    refl,
    refl,
    omega arith,
    subst (λ at. Covers at (wholes n (i + 1) ++ rest) end) (omega arith)
        (wholes-Covers n (i + 1) rest end (omega arith)
          (subst (λ at. Covers at rest end) (omega arith) k)),
  )

  length-wholes : (n i : ℕ) → length (wholes n i) ≡ n
  length-wholes zero i = refl
  length-wholes (suc n) i = ap suc (length-wholes n (i + 1))

  count_le : 0 < c → length file / c ≤ length file
  count_le pos = div-le_self (length file) c

  module _ (sums : (b : List ℕ) → sum1 b < word_limit) (digest : IsDigest md4) where
    wholes-AllFit :
        (n i : ℕ) (rest : List ChunkInfo)
        → i * c + n * c ≤ length file
        → length file < word_limit
        → AllFit rest
        → AllFit (wholes n i ++ rest)
    wholes-AllFit zero i rest h l k = k
    wholes-AllFit (suc n) i rest h l k = (
      record {
        weak = sums (slice (i * c) c file);
        offset = omega arith;
        length_of = omega arith;
        strong = length-strong_sum md4 digest (slice (i * c) c file);
        from = refl;
      },
      wholes-AllFit n (i + 1) rest (omega arith) l k,
    )

    -- GenerateMetaList of a file below 20 MiB makes entries that follow
    -- one another through the file and fit their fields, no more than the file has bytes and one.
    pub generate_meta_list-Covers :
        (junk garbage : ℕ)
        → 0 < c
        → length file < default_buffer_length
        → (chs : List ChunkInfo) × (generate_meta_list c sum1 md4 junk garbage file ≡ some chs)
          × Covers 0 chs (length file)
          × AllFit chs
          × (length chs ≤ length file + 1)
    unfolding generate_meta_list last_chunk
    generate_meta_list-Covers junk garbage pos small =
        let count = length file / c in
        let last = length file % c in
        let all = div-add-mod' (length file) c in
        let le = div-mul-le_self (length file) c in
        let few : count ≤ length file = count_le pos in
        let (m, e, r) = new_reader junk garbage file small in
        let whole = whole_chunks_lem count 0 none m r (omega (arith, le)) in
        elim (Bool-cases (ltb 0 last)) [
          | inl more ↦
              let buf = left_at count 0 none in
              let end = tail_of count last buf in
              (
                wholes count 0 ++ end ∷ [],
                rw (e, whole, more) refl,
                subst (λ at. Covers at (wholes count 0 ++ end ∷ []) (length file)) (omega arith)
                    (wholes-Covers count 0 (end ∷ []) (length file) (omega (arith, le))
                      (refl, omega arith, omega (arith, all), omega (arith, all))),
                wholes-AllFit count 0 (end ∷ []) (omega (arith, le)) (omega (arith, small)) (
                  record {
                    weak = omega arith;
                    offset = omega (arith, le, small);
                    length_of = omega (arith, all, small);
                    strong =
                        length-strong_sum md4 digest
                          (elim buf [ none ↦ [] | some block ↦ take last block ]);
                    from = refl;
                  },
                  tt,
                ),
                omega
                    (arith, length-append (wholes count 0) (end ∷ []), length-wholes count 0, few),
              )
          | inr none_left ↦ (
            wholes count 0 ++ [],
            rw (e, whole, none_left) (ap some (sym (append-nil (wholes count 0)))),
            subst (λ at. Covers at (wholes count 0 ++ []) (length file)) (omega arith)
                (wholes-Covers count 0 [] (length file) (omega (arith, le))
                  (omega (arith, all, ltb→le _ _ none_left))),
            wholes-AllFit count 0 [] (omega (arith, le)) (omega (arith, small)) tt,
            omega (arith, length-append (wholes count 0) [], length-wholes count 0, few),
          )
        ]
