-- ===== src/Http/Response.antt =====
-- http_server.1.1.0/src/response.h and response.cpp, cgi.cpp, http_work_flow.cpp, and SafeSendFile of
-- depend/util/util.cpp: a request is read and answered. The program php is a parameter, a function
-- of the script and of the files that are there, and so is the time. Texts are lists of bytes
-- without the NUL. `undefined` is undefined behaviour; `waiting` is a history of the socket that
-- ends within a loop.
pub mod Names
pub mod Sending
pub mod Answer
pub mod Digits
use just_for_test_and_try.Base.{
  ℕ, zero, suc, ◌+◌, ◌-◌, ◌*◌, ◌/◌, ◌%◌, Bool, true, false, ◌&&◌, ◌||◌, Option, none, some, List,
  [], ◌∷◌, ◌++◌, ltb, leb, ◌==◌, if◌then◌else◌, length, take, drop, slice, get_elem?, min, lookup,
  erase, bytes_eq, bytes_eq_eq,
}
use just_for_test_and_try.Net.Packet.{
  Outcome, undefined, waiting, returned, ◌>>=◌, ◌>>◌, require, defined,
}
use just_for_test_and_try.Net.Stream.{Outgoing}
use just_for_test_and_try.Fs.FileUtils.{Files, is_exists_file}
use just_for_test_and_try.Http.Config.{Conf, c_string, get_type, cgi, tmp}

-- SafeSendFile: the loop, with `total` bytes sent. `false` is a failed call.
unfoldable pub send_loop : List ℕ → ℕ → List (Option ℕ) → List ℕ → Outcome (Bool × Outgoing)
send_loop bytes total [] wire =
    if ltb total (length bytes)
    then waiting
    else returned (true, record { wire = wire; accepts = [] })
send_loop bytes total (none ∷ accepts) wire =
    if ltb total (length bytes)
    then returned (false, record { wire = wire; accepts = accepts })
    else returned (true, record { wire = wire; accepts = none ∷ accepts })
send_loop bytes total (some k ∷ accepts) wire =
    let n = min k (length bytes - total) in
    let rest = send_loop bytes (total + n) accepts (wire ++ slice total n bytes) in
    if ltb total (length bytes)
    then rest
    else returned (true, record { wire = wire; accepts = some k ∷ accepts })

unfoldable pub safe_send_file : List ℕ → Outgoing → Outcome (Bool × Outgoing)
safe_send_file bytes o = send_loop bytes 0 o.accepts o.wire

-- The loop of `SendFile` on the bytes that are left: what SafeSendFile returns is not used. The
-- first number bounds the rounds.
unfoldable pub send_chunks : ℕ → List ℕ → Outgoing → Outcome Outgoing
send_chunks zero bytes o = waiting
send_chunks (suc left) bytes o =
    let go = (do
      (_, o') ← safe_send_file (take 10000 bytes) o
      send_chunks left (drop 10000 bytes) o') in
    if length bytes == 0 then returned o else go

-- A file that is not there cannot be read.
unfoldable pub send_file : List ℕ → Files → Outgoing → Outcome Outgoing
send_file name fs o = elim (lookup name fs) [
  | none ↦ returned o
  | some bytes ↦ send_chunks (suc (length bytes)) bytes o
]

-- The place of the last '.' at or before `i`: without one, the loop goes on before the start.
unfoldable pub find_dot : List ℕ → ℕ → Option ℕ
find_dot name zero = elim (get_elem? name zero) [
  | none ↦ none
  | some b ↦ if b == 46 then some zero else none
]
find_dot name (suc i) =
    let before = find_dot name i in
    elim (get_elem? name (suc i)) [
      | none ↦ none
      | some b ↦ if b == 46 then some (suc i) else before
    ]

unfoldable pub file_end : List ℕ → Option (List ℕ)
file_end name =
    let found : Option (List ℕ) = elim (find_dot name (length name - 1)) [
      | none ↦ none
      | some i ↦ some (drop (suc i) name)
    ] in
    if length name == 0 then some [] else found

-- A space, for sscanf.
unfoldable pub is_space : ℕ → Bool
is_space b = b == 32 || (leb 9 b && leb b 13)

unfoldable pub skip_space : List ℕ → List ℕ
skip_space [] = []
skip_space (b ∷ bs) = let rest = skip_space bs in if is_space b then rest else b ∷ bs

-- The bytes before the next space, and the rest.
unfoldable pub word : List ℕ → List ℕ × List ℕ
word [] = ([], [])
word (b ∷ bs) = let (w, rest) = word bs in if is_space b then ([], b ∷ bs) else (b ∷ w, rest)

-- "default.html" and "GET".
abbrev pub default_html : List ℕ
default_html = 100 ∷ 101 ∷ 102 ∷ 97 ∷ 117 ∷ 108 ∷ 116 ∷ 46 ∷ 104 ∷ 116 ∷ 109 ∷ 108 ∷ []

abbrev pub get_word : List ℕ
get_word = 71 ∷ 69 ∷ 84 ∷ []

-- `RequestFeile`, on the text at `data`: sscanf with "%s /%s" into 10 and 998 bytes.
unfoldable pub request_file : List ℕ → Outcome (List ℕ)
unfolding word
request_file data_ =
    let (request, after) = word (skip_space data_) in
    let path : Outcome (List ℕ) = elim (skip_space after) [
      | [] ↦ returned default_html
      | b ∷ rest ↦
          let (name, _) = word (skip_space rest) in
          let named : Outcome (List ℕ) = (do
            require (ltb (length name) 998)
            returned (if bytes_eq request get_word then 46 ∷ 47 ∷ name else default_html)) in
          if b == 47
          then (if length name == 0 then returned default_html else named)
          else returned default_html
    ] in
    if length request == 0
    then returned default_html
    else (do require (ltb (length request) 10); path)

-- A number in decimal digits, for "%lu". The first number bounds how many.
unfoldable pub digits_of : ℕ → ℕ → List ℕ → List ℕ
digits_of zero n acc = acc
digits_of (suc left) n acc =
    let acc' = (48 + n % 10) ∷ acc in
    let more = digits_of left (n / 10) acc' in if ltb n 10 then acc' else more

unfoldable pub decimal : ℕ → List ℕ
decimal n = digits_of (suc n) n []

-- "HTTP/1.0 200 OK\r\nContent-type: ", and a type with "\r\n" behind it.
unfoldable pub head_text : List ℕ → List ℕ
head_text file_type =
    72
    ∷ 84
    ∷ 84
    ∷ 80
    ∷ 47
    ∷ 49
    ∷ 46
    ∷ 48
    ∷ 32
    ∷ 50
    ∷ 48
    ∷ 48
    ∷ 32
    ∷ 79
    ∷ 75
    ∷ 13
    ∷ 10
    ∷ 67
    ∷ 111
    ∷ 110
    ∷ 116
    ∷ 101
    ∷ 110
    ∷ 116
    ∷ 45
    ∷ 116
    ∷ 121
    ∷ 112
    ∷ 101
    ∷ 58
    ∷ 32
    ∷ (file_type ++ 13 ∷ 10 ∷ [])

-- "Content-Length: ", a number, and "\r\n\n".
unfoldable pub length_text : ℕ → List ℕ
length_text n =
    67
    ∷ 111
    ∷ 110
    ∷ 116
    ∷ 101
    ∷ 110
    ∷ 116
    ∷ 45
    ∷ 76
    ∷ 101
    ∷ 110
    ∷ 103
    ∷ 116
    ∷ 104
    ∷ 58
    ∷ 32
    ∷ (decimal n ++ 13 ∷ 10 ∷ 10 ∷ [])

-- A text of more than the 1000 bytes of the buffer is sent past it; one of just so many has its last
-- byte replaced by the NUL of snprintf.
unfoldable pub send_head : Conf → List ℕ → Outgoing → Outcome Outgoing
send_head ftype name o = do
  end ← defined (file_end name)
  let text = head_text (get_type end ftype)
  require (leb (length text) 1000)
  let printed = if ltb (length text) 1000 then text else take 999 text ++ 0 ∷ []
  (_, o') ← safe_send_file printed o
  returned o'

unfoldable pub send_file_size : List ℕ → Files → Outgoing → Outcome Outgoing
send_file_size name fs o = elim (lookup name fs) [
  | none ↦ returned o
  | some bytes ↦ do (_, o') ← safe_send_file (length_text (length bytes)) o; returned o'
]

-- The three parts of an answer.
unfoldable pub send_answer : Conf → List ℕ → Files → Outgoing → Outcome Outgoing
send_answer ftype name fs o = do
  o1 ← send_head ftype name o
  o2 ← send_file_size name fs o1
  send_file name fs o2

-- `GenerateSendFile` and `SafeRemoveFile` stand for the shell's `php src > dis` and `rm dis`.
unfoldable pub deal_with_request :
    (List ℕ → List ℕ → Files → Files)
    → ℕ
    → Conf
    → Conf
    → List ℕ
    → Files
    → Outgoing
    → Outcome (Files × Outgoing)
deal_with_request php time ftype http data_ fs o = do
  request ← request_file data_
  let name = cgi http ++ request
  let other = cgi http ++ 46 ∷ 47 ∷ default_html
  let generated =
      cgi http ++ (tmp http ++ take 19 (decimal time ++ 46 ∷ 104 ∷ 116 ∷ 109 ∷ 108 ∷ []))
  let missing = (do o' ← send_answer ftype other fs o; returned (fs, o'))
  let plain = (do o' ← send_answer ftype name fs o; returned (fs, o'))
  let script = (do
    let fs' = php name generated fs
    o' ← send_answer ftype generated fs' o
    returned (erase generated fs', o'))
  let found = (do
    end ← defined (file_end name)
    if bytes_eq end (112 ∷ 104 ∷ 112 ∷ []) then script else plain)
  if is_exists_file name fs then found else missing

-- `HttpWorkFlow::Response`, from its one call of recv, with room for 10240 bytes, to the close:
-- `none` is a failed call. The NUL is written behind the bytes.
unfoldable pub respond :
    (List ℕ → List ℕ → Files → Files)
    → ℕ
    → Conf
    → Conf
    → Option (List ℕ)
    → Files
    → Outgoing
    → Outcome (Files × Outgoing)
respond php time ftype http none fs o = undefined
respond php time ftype http (some bytes) fs o =
    let deal = (do
      require (ltb (length bytes) 10240)
      deal_with_request php time ftype http (c_string bytes) fs o) in
    if length bytes == 0 then returned (fs, o) else deal
