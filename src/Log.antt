-- ===== src/Log.antt =====
-- single_fs/depends/utils/log.cpp: a line of the log. `none` is undefined behaviour.
mod Tests
use just_for_test_and_try.Base.{
  ℕ, ◌+◌, ◌<◌, ◌≡◌, refl, ap, Option, some, none, List, [], ◌∷◌, ◌++◌, arith, ltb, leb, ◌==◌,
  lt→ltb, le→leb, ne→==, if◌then◌else◌, length, take, ◌>>=◌, ◌>>◌, require,
}

-- The size of the buffer of `WriteLog`.
abbrev pub log_size : ℕ
log_size = 4096

-- What %s takes of a string.
unfoldable pub until_nul : List ℕ → List ℕ
until_nul [] = []
until_nul (b ∷ bs) = let rest = until_nul bs in if b == 0 then [] else b ∷ rest

-- `WriteLog` for a level that is logged: `stamp` is what stands before the text, with the level,
-- the time and the place in the code. A text that does not fit is cut, and the place of the end of
-- the line is then taken from what it would have needed.
unfoldable pub write_log : List ℕ → List ℕ → Option (List ℕ)
write_log stamp text = do
  require (leb (length stamp) log_size)
  let len = length stamp + length text
  if ltb len log_size
      then some (stamp ++ (text ++ 10 ∷ []))
      else if len == log_size
      then some (take 4095 (stamp ++ text) ++ 10 ∷ [])
      else none

abbrev pub NoNul : List ℕ → Type 0
NoNul [] = Unit {0}
NoNul (b ∷ bs) = (0 < b) × NoNul bs

pub until_nul-NoNul : (text : List ℕ) → NoNul text → until_nul text ≡ text
unfolding until_nul
until_nul-NoNul [] h = refl
until_nul-NoNul (b ∷ bs) h =
    rw (ne→== b 0 (λ e. omega (arith, e, h.0))) (ap (λ k. b ∷ k) (until_nul-NoNul bs h.1))

pub write_log_fits :
    (stamp text : List ℕ)
    → length stamp + length text < log_size
    → write_log stamp text ≡ some (stamp ++ (text ++ 10 ∷ []))
unfolding write_log
write_log_fits stamp text h =
    rw
      (le→leb (length stamp) log_size (omega arith), lt→ltb (length stamp + length text) log_size h)
