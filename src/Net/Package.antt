-- ===== src/Net/Package.antt =====
-- single_fs/depends/net/package.h and package.cpp: a cursor over a block of memory. A host integer
-- is the list of its four bytes in memory; a length or a count is an int32_t, a number below
-- 2 ^ 32 that stands for its bit pattern. `none` is undefined behaviour.
pub mod Fields
use just_for_test_and_try.Base.{
  ℕ, ◌+◌, ◌-◌, ◌%◌, ◌^◌, Bool, Option, none, some, List, [], ◌∷◌, ltb, leb, if◌then◌else◌, length,
  slice, memmove, ◌>>=◌, ◌>>◌, require, int_limit,
}

abbrev pub word_limit : ℕ
word_limit = 2 ^ 32

-- a < b for the int32_t values of two bit patterns.
unfoldable pub signed_ltb : ℕ → ℕ → Bool
signed_ltb a b = ltb ((a + int_limit) % word_limit) ((b + int_limit) % word_limit)

-- `data_` as a block, `pointer_` as a place in it, `data_length_` and `left_length_`.
pub record Package : Type 0 where
  pub block : List ℕ
  pub pointer : ℕ
  pub data_length : ℕ
  pub left_length : ℕ

unfoldable pub set_data : List ℕ → ℕ → Package
set_data block n = record { block = block; pointer = 0; data_length = n; left_length = n }

abbrev pub zero_word : List ℕ
zero_word = 0 ∷ 0 ∷ 0 ∷ 0 ∷ []

-- `GetInt32_t` and `GetUint32_t`, whose bodies are the same. The test is one of size_t, in which a
-- negative `left_length_` is large.
unfoldable pub get_int : Package → Option (List ℕ × Package)
get_int p =
    let read = (do
      require (leb (p.pointer + 4) (length p.block))
      some (
        slice p.pointer 4 p.block,
        record p { pointer = p.pointer + 4; left_length = p.left_length - 4 },
      )) in
    if leb 4 p.left_length then read else some (zero_word, p)

-- `SetInt32_t` and `SetUint32_t`.
unfoldable pub set_int : Package → List ℕ → Option (List ℕ × Package)
set_int p v =
    let write = (do
      block ← memmove p.block p.pointer v 0 4
      some (
        v,
        record p { block = block; pointer = p.pointer + 4; left_length = p.left_length - 4 },
      )) in
    if leb 4 p.left_length then write else some (zero_word, p)

-- `GetString(n)`; the inner `none` is NULL. The loop has no round for a negative length, which is
-- then taken from `left_length_` all the same.
unfoldable pub get_string : Package → ℕ → Option (Option (List ℕ) × Package)
get_string p n =
    let rounds = if ltb n int_limit then n else 0 in
    let left = (p.left_length + word_limit - n) % word_limit in
    let read = (do
      require (leb (p.pointer + rounds) (length p.block))
      require (ltb left int_limit)
      some (
        some (slice p.pointer rounds p.block),
        record p { pointer = p.pointer + rounds; left_length = left },
      )) in
    if signed_ltb p.left_length n then some (none, p) else read

-- `SetString(str, n)`, where the list is the memory at `str`.
unfoldable pub set_string : Package → List ℕ → ℕ → Option Package
set_string p str n =
    let write = (do
      require (ltb n int_limit)
      block ← memmove p.block p.pointer str 0 n
      some
          (record p { block = block; pointer = p.pointer + n; left_length = p.left_length - n })) in
    if signed_ltb p.left_length n then some p else write
