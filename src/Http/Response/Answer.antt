-- ===== src/Http/Response/Answer.antt =====
-- The answer to a request.
use just_for_test_and_try.Base.{
  ℕ, ◌≤◌, ◌<◌, ◌≡◌, ◌≢◌, refl, ap, sym, ◌∙◌, true, false, none, some, List, [], ◌∷◌, ◌++◌,
  append_assoc, arith, ne→==, length, lt→ltb, lookup, bytes_eq_self, ne→bytes_eq, bytes_eq_eq,
}
use just_for_test_and_try.Net.Packet.{returned}
use just_for_test_and_try.Net.Stream.{Outgoing}
use just_for_test_and_try.Net.Stream.Sending.{accepting}
use just_for_test_and_try.Fs.FileUtils.{Files, is_exists_file}
use just_for_test_and_try.Http.Config.{Conf, get_type, cgi}
use just_for_test_and_try.Http.Config.Settings.{Without}
use just_for_test_and_try.Http.Response.{
  is_space, skip_space, word, default_html, get_word, request_file, file_end, head_text,
  deal_with_request,
}
use just_for_test_and_try.Http.Response.Names.{file_end-append}
use just_for_test_and_try.Http.Response.Sending.{NoFailure, answer_text, send_answer-Sound}

-- A word of a request.
abbrev pub NoSpace : List ℕ → Type 0
NoSpace [] = Unit {0}
NoSpace (b ∷ text) = (is_space b ≡ false) × NoSpace text

blank : is_space 32 ≡ true
unfolding is_space
blank = refl

word-NoSpace : (text rest : List ℕ) → NoSpace text → word (text ++ 32 ∷ rest) ≡ (text, 32 ∷ rest)
unfolding word
word-NoSpace [] rest h = rw blank
word-NoSpace (b ∷ text) rest h = rw (h.0, word-NoSpace text rest h.1)

-- The text of a GET for a name.
abbrev pub get_text : List ℕ → List ℕ → List ℕ
get_text name rest = get_word ++ 32 ∷ 47 ∷ (name ++ 32 ∷ rest)

request_file-get :
    (b : ℕ) (name rest : List ℕ)
    → NoSpace (b ∷ name)
    → length (b ∷ name) < 998
    → request_file (get_text (b ∷ name) rest) ≡ returned (46 ∷ 47 ∷ b ∷ name)
unfolding request_file skip_space word is_space
request_file-get b name rest h k = rw (
  h.0,
  word-NoSpace (b ∷ name) rest h,
  lt→ltb (length (b ∷ name)) 998 k,
  bytes_eq_self get_word,
  ne→== (length (b ∷ name)) 0 (λ e. omega (arith, e)),
)

is_exists_file-lookup :
    (name bytes : List ℕ) (fs : Files) → lookup name fs ≡ some bytes → is_exists_file name fs ≡ true
unfolding is_exists_file
is_exists_file-lookup name bytes fs f = rw (f, is_exists_file)

is_exists_file-none :
    (name : List ℕ) (fs : Files) → lookup name fs ≡ none → is_exists_file name fs ≡ false
unfolding is_exists_file
is_exists_file-none name fs f = rw (f, is_exists_file)

-- The text "php".
abbrev pub php_end : List ℕ
php_end = 112 ∷ 104 ∷ 112 ∷ []

-- A GET for a file that is there and is no script is answered with the head for the type that the
-- settings give the end of its name, the length of the file and the file itself, and changes no
-- file: for a name without spaces of less than 998 bytes, a head below 1000 bytes, no call of send
-- that fails, and as many that take something as there are bytes.
pub deal_with_request-get :
    (php : List ℕ → List ℕ → Files → Files) (time : ℕ) (ftype http : Conf) (b : ℕ)
    (name rest stem ext bytes : List ℕ) (fs : Files) (o : Outgoing)
    → NoSpace (b ∷ name)
    → length (b ∷ name) < 998
    → cgi http ++ 46 ∷ 47 ∷ b ∷ name ≡ stem ++ 46 ∷ ext
    → Without 46 ext
    → ext ≢ php_end
    → lookup (cgi http ++ 46 ∷ 47 ∷ b ∷ name) fs ≡ some bytes
    → length (head_text (get_type ext ftype)) < 1000
    → NoFailure o.accepts
    → length (answer_text (get_type ext ftype) bytes) ≤ accepting o.accepts
    → (o' : Outgoing) × (deal_with_request php time ftype http (get_text (b ∷ name) rest) fs o
        ≡ returned (fs, o'))
      × (o'.wire ≡ o.wire ++ answer_text (get_type ext ftype) bytes)
unfolding deal_with_request
deal_with_request-get php time ftype http b name rest stem ext bytes fs o ns len e w np f small v
      k =
    let file = cgi http ++ 46 ∷ 47 ∷ b ∷ name in
    let end : file_end file ≡ some ext = ap file_end e ∙ file_end-append stem ext w in
    let (o', q, s) = send_answer-Sound ftype file ext bytes fs o f end small v k in
    (
      o',
      rw (
        request_file-get b name rest ns len,
        is_exists_file-lookup file bytes fs f,
        end,
        ne→bytes_eq ext php_end np,
        q,
      ),
      s.sent.wire,
    )

-- The text "html".
abbrev pub html_end : List ℕ
html_end = 104 ∷ 116 ∷ 109 ∷ 108 ∷ []

default-end : (dir : List ℕ) → file_end (dir ++ 46 ∷ 47 ∷ default_html) ≡ some html_end
default-end dir =
    let stem = 46 ∷ 47 ∷ 100 ∷ 101 ∷ 102 ∷ 97 ∷ 117 ∷ 108 ∷ 116 ∷ [] in
    ap file_end (sym (append_assoc dir stem (46 ∷ html_end)))
    ∙ file_end-append (dir ++ stem) html_end (
      (λ e. omega (arith, e)),
      ((λ e. omega (arith, e)), ((λ e. omega (arith, e)), ((λ e. omega (arith, e)), tt))),
    )

-- A GET for a file that is not there is answered as one for "./default.html", with 200 as for any
-- file, and changes no file: under the same conditions on the name, the head and the calls of send,
-- if that file is there.
pub deal_with_request_missing :
    (php : List ℕ → List ℕ → Files → Files) (time : ℕ) (ftype http : Conf) (b : ℕ)
    (name rest bytes : List ℕ) (fs : Files) (o : Outgoing)
    → NoSpace (b ∷ name)
    → length (b ∷ name) < 998
    → lookup (cgi http ++ 46 ∷ 47 ∷ b ∷ name) fs ≡ none
    → lookup (cgi http ++ 46 ∷ 47 ∷ default_html) fs ≡ some bytes
    → length (head_text (get_type html_end ftype)) < 1000
    → NoFailure o.accepts
    → length (answer_text (get_type html_end ftype) bytes) ≤ accepting o.accepts
    → (o' : Outgoing) × (deal_with_request php time ftype http (get_text (b ∷ name) rest) fs o
        ≡ returned (fs, o'))
      × (o'.wire ≡ o.wire ++ answer_text (get_type html_end ftype) bytes)
unfolding deal_with_request
deal_with_request_missing php time ftype http b name rest bytes fs o ns len none_there f small v k =
    let file = cgi http ++ 46 ∷ 47 ∷ b ∷ name in
    let other = cgi http ++ 46 ∷ 47 ∷ default_html in
    let (o', q, s) =
      send_answer-Sound ftype other html_end bytes fs o f (default-end (cgi http)) small v k in
    (
      o',
      rw (request_file-get b name rest ns len, is_exists_file-none file fs none_there, q),
      s.sent.wire,
    )
