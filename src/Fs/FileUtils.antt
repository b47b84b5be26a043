-- ===== src/Fs/FileUtils.antt =====
-- single_fs/depends/fs/file_utils.cpp. The file system is a map from names to contents; a file
-- that is there can be opened. A negative result is the constructor `failed` with its absolute
-- value. The calls of fwrite are given by how many bytes each accepts.
pub mod Contents
use just_for_test_and_try.Base.{
  ℕ, ◌+◌, ◌-◌, ◌%◌, ◌^◌, Bool, true, false, Option, none, some, List, [], ◌∷◌, ◌++◌, ltb, ◌==◌,
  if◌then◌else◌, length, take, drop, slice, lookup, insert, bytes_eq_eq, min, int_limit,
}

abbrev pub Files : Type 0
Files = List (List ℕ × List ℕ)

unfoldable pub is_exists_file : List ℕ → Files → Bool
is_exists_file name fs = elim (lookup name fs) [ none ↦ false | some _ ↦ true ]

-- `get_file_size`: `none` is -1; a size is cut to 32 bits.
unfoldable pub get_file_size : List ℕ → Files → Option ℕ
get_file_size name fs = elim (lookup name fs) [
  | none ↦ none
  | some bytes ↦ some (length bytes % 2 ^ 32)
]

pub data Result {ℓ} (A : Type ℓ) : Type ℓ where
  failed : ℕ → Result A
  done : A → Result A

-- `write(buff, length, file_name)`, with the one call of fwrite.
unfoldable pub write_new : List ℕ → ℕ → List ℕ → Files → Result (ℕ × Files)
unfolding is_exists_file
write_new buff accept name fs =
    let n = min accept (length buff) in
    if is_exists_file name fs then failed 1 else done (n, insert name (take n buff) fs)

-- The loop of `write(buff, length, file_name, cover)` behind the bytes `file`: it ends at a call
-- that writes nothing. What the list of calls does not say writes nothing.
unfoldable pub write_loop : List ℕ → ℕ → List ℕ → List ℕ → ℕ × List ℕ
write_loop buff len file [] = (len, file)
write_loop buff len file (a ∷ accepts) =
    let n = min a (length buff - len) in
    let rest = write_loop buff (len + n) (file ++ slice len n buff) accepts in
    if n == 0 then (len, file) else rest

-- `write(buff, length, file_name, cover)`
unfoldable pub write : List ℕ → List ℕ → List ℕ → Bool → Files → Result (ℕ × Files)
unfolding is_exists_file
write buff accepts name cover fs =
    let (len, file) = write_loop buff 0 [] accepts in
    let go = done (len, insert name file fs) in
    if is_exists_file name fs then (if cover then go else failed 1) else go

-- `read(buff, length, file_name)`, and `read(buff, length, file_name, reserve_size)`, whose buffer
-- starts behind the reserved bytes: the bytes read.
unfoldable pub read : List ℕ → Files → Result (List ℕ)
read name fs = elim (lookup name fs) [ none ↦ failed 1 | some bytes ↦ done bytes ]

-- `read(buff, offset, length, file_name)`: `length` is not used; a seek before the start fails
-- and leaves the position at the start.
unfoldable pub read_from : ℕ → List ℕ → Files → Result (List ℕ)
read_from offset name fs = elim (lookup name fs) [
  | none ↦ failed 1
  | some bytes ↦ done (if ltb offset int_limit then drop offset bytes else bytes)
]
