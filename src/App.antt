-- ===== src/App.antt =====
-- single_fs/app: the file server over the index file system, and its client. The requests and
-- answers of common.h, and what both use of the C library.
pub mod Server
pub mod Client
pub mod Answers
pub mod Numbers
pub mod Requests
pub mod Exchange
mod Tests
use just_for_test_and_try.Base.{
  ℕ, zero, suc, ◌+◌, ◌-◌, ◌*◌, ◌^◌, Bool, true, false, ◌&&◌, ◌||◌, Option, none, some, List, [],
  ◌∷◌, ◌++◌, ltb, leb, ◌==◌, if◌then◌else◌, int_limit, ◌>>=◌, ◌>>◌, require,
}

pub data RequestType : Type 0 where
  get_request put_request delete_request : RequestType

pub data Response : Type 0 where
  file_did_not_exist success file_is_too_big other_error : Response

-- The values of the two enums, as words.
unfoldable pub request_code : RequestType → ℕ
request_code get_request = 1
request_code put_request = 2
request_code delete_request = 3

unfoldable pub response_code : Response → ℕ
response_code file_did_not_exist = 2 ^ 32 - 1
response_code success = 1
response_code file_is_too_big = 2 ^ 32 - 2
response_code other_error = 2 ^ 32 - 3

unfoldable pub is_digit : ℕ → Bool
is_digit b = leb 48 b && leb b 57

-- The digits at the start of a text in memory; a text that does not end in its block is read
-- past it.
unfoldable pub digits_value : ℕ → List ℕ → Option ℕ
digits_value acc [] = none
digits_value acc (b ∷ bs) =
    let rest = digits_value (acc * 10 + (b - 48)) bs in if is_digit b then rest else some acc

-- The digits behind a sign, as a sign and an absolute value that an int holds.
unfoldable pub signed_value : Bool → List ℕ → Option (Bool × ℕ)
signed_value negative bs = do n ← digits_value 0 bs; require (ltb n int_limit); some (negative, n)

-- atoi; beyond the range of an int it is undefined.
unfoldable pub atoi : List ℕ → Option (Bool × ℕ)
atoi [] = none
atoi (b ∷ bs) =
    let rest = atoi bs in
    if b == 32 || (leb 9 b && leb b 13)
    then rest
    else if b == 45
    then signed_value true bs
    else if b == 43
    then signed_value false bs
    else signed_value false (b ∷ bs)
