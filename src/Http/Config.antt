-- ===== src/Http/Config.antt =====
-- http_server.1.1.0/depend/config/config.cpp: settings in lines of a file, and
-- http_server.1.1.0/src/http_conf.h and http_conf.cpp: the server's. std::map is an association
-- list.
pub mod Settings
use just_for_test_and_try.Base.{
  ℕ, Bool, true, false, not, Option, none, some, List, [], ◌∷◌, ◌++◌, ◌==◌, if◌then◌else◌, lookup,
  insert, bytes_eq, bytes_eq_eq,
}
use just_for_test_and_try.App.{atoi}

abbrev pub Conf : Type 0
Conf = List (List ℕ × List ℕ)

-- The lines that getline brings, each with its newline.
unfoldable pub lines : List ℕ → List (List ℕ)
lines [] = []
lines (b ∷ bs) =
    let rest = lines bs in
    let joined : List (List ℕ) = elim rest [
      | [] ↦ (b ∷ []) ∷ []
      | line ∷ more ↦ (b ∷ line) ∷ more
    ] in
    if b == 10 then (b ∷ []) ∷ rest else joined

-- The text of a line as a C string.
unfoldable pub c_string : List ℕ → List ℕ
c_string [] = []
c_string (b ∷ bs) = let rest = c_string bs in if b == 0 then [] else b ∷ rest

unfoldable pub until_newline : List ℕ → List ℕ
until_newline [] = []
until_newline (b ∷ bs) = let rest = until_newline bs in if b == 10 then [] else b ∷ rest

-- `Parse`: the key before the first `mode`, and the value behind it.
unfoldable pub parse : ℕ → List ℕ → List ℕ × List ℕ
parse mode [] = ([], [])
parse mode (b ∷ bs) =
    let (key, value) = parse mode bs in
    if b == mode then ([], until_newline bs) else (b ∷ key, value)

unfoldable pub add_lines : ℕ → List (List ℕ) → Conf → Conf
add_lines mode [] conf = conf
add_lines mode (line ∷ rest) conf =
    let (key, value) = parse mode (c_string line) in add_lines mode rest (insert key value conf)

-- The constructor, on the text of the file.
unfoldable pub config : ℕ → List ℕ → Conf
config mode file = add_lines mode (lines file) []

unfoldable pub get_string : List ℕ → Conf → List ℕ
get_string key conf = elim (lookup key conf) [ none ↦ [] | some value ↦ value ]

unfoldable pub exist : List ℕ → Conf → Bool
exist key conf =
    let found : Bool = elim (lookup key conf) [ none ↦ false | some _ ↦ true ] in
    elim key [ [] ↦ false | _ ∷ _ ↦ found ]

-- As a sign and an absolute value.
unfoldable pub get_int : List ℕ → Conf → Option (Bool × ℕ)
unfolding get_string
get_int key conf = atoi (get_string key conf ++ 0 ∷ [])

-- The text is "false".
unfoldable pub get_bool : List ℕ → Conf → Bool
unfolding get_string
get_bool key conf = not (bytes_eq (get_string key conf) (102 ∷ 97 ∷ 108 ∷ 115 ∷ 101 ∷ []))

-- `FTypeConfig::GetType`; "application/x-gzip" for an unknown end of a name.
unfoldable pub get_type : List ℕ → Conf → List ℕ
unfolding get_string exist
get_type file_type conf =
    if exist file_type conf
    then get_string file_type conf
    else 97 ∷ 112 ∷ 112 ∷ 108 ∷ 105 ∷ 99 ∷ 97 ∷ 116 ∷ 105 ∷ 111 ∷ 110 ∷ 47 ∷ 120 ∷ 45 ∷ 103 ∷ 122
      ∷ 105 ∷ 112 ∷ []

-- The keys of `HttpConfig`: "cgi", "tmp", "thread_num" and "PORT".
unfoldable pub cgi : Conf → List ℕ
cgi conf = get_string (99 ∷ 103 ∷ 105 ∷ []) conf

unfoldable pub tmp : Conf → List ℕ
tmp conf = get_string (116 ∷ 109 ∷ 112 ∷ []) conf

unfoldable pub thread_num : Conf → Option (Bool × ℕ)
thread_num conf = get_int (116 ∷ 104 ∷ 114 ∷ 101 ∷ 97 ∷ 100 ∷ 95 ∷ 110 ∷ 117 ∷ 109 ∷ []) conf

unfoldable pub port : Conf → Option (Bool × ℕ)
port conf = get_int (80 ∷ 79 ∷ 82 ∷ 84 ∷ []) conf
