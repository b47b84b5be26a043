-- ===== src/Rsync/Patch.antt =====
-- `PatchFile` of rsync_core.cpp. `none` is undefined behaviour; a negative offset into the old
-- file, which no delta of this program has, counts as such too.
pub mod Apply
use just_for_test_and_try.Base.{
  ℕ, zero, suc, ◌+◌, ◌≡◌, Option, none, some, List, [], ◌∷◌, ltb, ◌==◌, if◌then◌else◌, length,
  ◌>>=◌, ◌>>◌, require, int_limit,
}
use just_for_test_and_try.FileMap.{FileMap, new_file_map}
use just_for_test_and_try.FileWriter.{WriteFileMap, new_writer, close}
use just_for_test_and_try.Rsync.{delta_magic, read_at, read_word}
use just_for_test_and_try.Rsync.Copy.{copy_range}

-- The loop's end, with the result file so far: all pieces done, or one of neither kind.
pub data Stop : Type 0 where
  finished : WriteFileMap → Stop
  bad_piece : WriteFileMap → Stop

-- A file that is no delta is refused before the result file is opened.
pub data PatchResult : Type 0 where
  wrong_magic : PatchResult
  wrong_format : List ℕ → PatchResult
  patched : List ℕ → PatchResult

-- A length that is negative as an int32_t copies nothing: both of its loops have no round.
unfoldable pub rounds : ℕ → ℕ
rounds n = if ltb n int_limit then n else 0

unfoldable pub patch_loop : ℕ → FileMap → List ℕ → ℕ → FileMap → List ℕ → WriteFileMap → Option Stop
patch_loop zero dm delta at om old w = some (finished w)
patch_loop (suc left) dm delta at om old w = do
  (tag, m1) ← read_at dm delta at 1
  let copy = (do
    (offset, m2) ← read_word m1 delta (at + 1)
    (n, m3) ← read_word m2 delta (at + 5)
    require (ltb offset int_limit)
    (om', _, w') ← copy_range om old offset w (rounds n)
    patch_loop left m3 delta (at + 9) om' old w')
  let literal = (do
    (n, m2) ← read_word m1 delta (at + 1)
    (m3, next, w') ← copy_range m2 delta (at + 5) w (rounds n)
    patch_loop left m3 delta next om old w')
  elim tag [
    | [] ↦ none
    | b ∷ _ ↦ if b == 0xff then copy else if b == 0 then literal else some (bad_piece w)
  ]

unfoldable pub outcome : Stop → PatchResult
outcome (finished w) = patched (close w)
outcome (bad_piece w) = wrong_format (close w)

-- `PatchFile(old_file, delta_file, result_file)`. A count that is negative as an int32_t leaves the
-- loop at once.
unfoldable pub patch_file : ℕ → ℕ → List ℕ → List ℕ → Option PatchResult
patch_file junk garbage old delta = do
  dm ← new_file_map junk garbage delta
  (magic, m1) ← read_word dm delta 0
  let go = (do
    (count, m2) ← read_word m1 delta 4
    om ← new_file_map junk garbage old
    stop ← patch_loop (rounds count) m2 delta 8 om old (new_writer junk)
    some (outcome stop))
  if magic == delta_magic then go else some wrong_magic
