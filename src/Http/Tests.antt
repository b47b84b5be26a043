-- ===== src/Http/Tests.antt =====
-- Runs of the server's settings and answers, for the folder "w/" with the files "a.gif" and
-- "default.html".
use just_for_test_and_try.Base.{
  ℕ, ◌≡◌, refl, ap, none, some, List, [], ◌∷◌, ◌++◌, arith, length, replicate, lookup, bytes_eq,
  bytes_eq_eq,
}
use just_for_test_and_try.Net.Packet.{returned}
use just_for_test_and_try.Net.Stream.{Outgoing}
use just_for_test_and_try.Net.Stream.Sending.{accepting}
use just_for_test_and_try.Fs.FileUtils.{Files}
use just_for_test_and_try.Http.Config.{Conf, config, get_string, exist, get_type, cgi}
use just_for_test_and_try.Http.Config.Settings.{written, last_value, get_string-config}
use just_for_test_and_try.Http.Response.{
  default_html, request_file, word, skip_space, is_space, file_end, decimal, digits_of, head_text,
  length_text, deal_with_request,
}
use just_for_test_and_try.Http.Response.Names.{file_end-request_file}
use just_for_test_and_try.Http.Response.Sending.{answer_text}
use just_for_test_and_try.Http.Response.Answer.{get_text, html_end, deal_with_request-get}

-- gif=g, x=1 and gif=h
abbrev settings : Conf
settings =
    (103 ∷ 105 ∷ 102 ∷ [], 103 ∷ []) ∷ (120 ∷ [], 49 ∷ []) ∷ (103 ∷ 105 ∷ 102 ∷ [], 104 ∷ []) ∷ []

last_gif : last_value (103 ∷ 105 ∷ 102 ∷ []) settings none ≡ some (104 ∷ [])
unfolding bytes_eq
last_gif = refl

get_string-config_example :
    get_string (103 ∷ 105 ∷ 102 ∷ []) (config 61 (written 61 settings))
    ≡ (elim (last_value (103 ∷ 105 ∷ 102 ∷ []) settings none) as (λ _. List ℕ) [
      | none ↦ []
      | some v ↦ v
    ])
get_string-config_example =
    get_string-config 61 settings (103 ∷ 105 ∷ 102 ∷ []) (λ e. omega (arith, e))
      (λ e. omega (arith, e))
      (
        record {
          no_mode =
              ((λ e. omega (arith, e)), ((λ e. omega (arith, e)), ((λ e. omega (arith, e)), tt)));
          key_line =
              ((λ e. omega (arith, e)), ((λ e. omega (arith, e)), ((λ e. omega (arith, e)), tt)));
          key_text =
              ((λ e. omega (arith, e)), ((λ e. omega (arith, e)), ((λ e. omega (arith, e)), tt)));
          value_line = ((λ e. omega (arith, e)), tt);
          value_text = ((λ e. omega (arith, e)), tt);
        },
        (
          record {
            no_mode = ((λ e. omega (arith, e)), tt);
            key_line = ((λ e. omega (arith, e)), tt);
            key_text = ((λ e. omega (arith, e)), tt);
            value_line = ((λ e. omega (arith, e)), tt);
            value_text = ((λ e. omega (arith, e)), tt);
          },
          (
            record {
              no_mode = (
                (λ e. omega (arith, e)),
                ((λ e. omega (arith, e)), ((λ e. omega (arith, e)), tt)),
              );
              key_line = (
                (λ e. omega (arith, e)),
                ((λ e. omega (arith, e)), ((λ e. omega (arith, e)), tt)),
              );
              key_text = (
                (λ e. omega (arith, e)),
                ((λ e. omega (arith, e)), ((λ e. omega (arith, e)), tt)),
              );
              value_line = ((λ e. omega (arith, e)), tt);
              value_text = ((λ e. omega (arith, e)), tt);
            },
            tt,
          ),
        ),
      )

-- "w/" as the folder.
abbrev http : Conf
http = (99 ∷ 103 ∷ 105 ∷ [], 119 ∷ 47 ∷ []) ∷ []

http-cgi : cgi http ≡ 119 ∷ 47 ∷ []
unfolding cgi get_string lookup bytes_eq
http-cgi = refl

-- "a.gif"
abbrev name : List ℕ
name = 46 ∷ 103 ∷ 105 ∷ 102 ∷ []

abbrev files : Files
files =
    (119 ∷ 47 ∷ 46 ∷ 47 ∷ 97 ∷ name, 1 ∷ 2 ∷ []) ∷ (119 ∷ 47 ∷ 46 ∷ 47 ∷ default_html, 3 ∷ []) ∷ []

a_found : lookup (cgi http ++ 46 ∷ 47 ∷ 97 ∷ name) files ≡ some (1 ∷ 2 ∷ [])
unfolding cgi get_string lookup bytes_eq
a_found = refl

b_missing : lookup (cgi http ++ 46 ∷ 47 ∷ 98 ∷ name) files ≡ none
unfolding cgi get_string lookup bytes_eq
b_missing = refl

default_found : lookup (cgi http ++ 46 ∷ 47 ∷ default_html) files ≡ some (3 ∷ [])
unfolding cgi get_string lookup bytes_eq
default_found = refl

abbrev outgoing : Outgoing
outgoing = record { wire = []; accepts = replicate 100 (some 40) }

accepting-outgoing : accepting outgoing.accepts ≡ 100
accepting-outgoing = refl

gif_head : length (head_text (get_type (103 ∷ 105 ∷ 102 ∷ []) settings)) ≡ 34
unfolding head_text get_type exist get_string lookup bytes_eq
gif_head = refl

gif_text : length (answer_text (get_type (103 ∷ 105 ∷ 102 ∷ []) settings) (1 ∷ 2 ∷ [])) ≡ 56
unfolding head_text length_text decimal digits_of get_type exist get_string lookup bytes_eq
gif_text = refl

html_head : length (head_text (get_type html_end settings)) ≡ 51
unfolding head_text get_type exist get_string lookup bytes_eq
html_head = refl

html_text : length (answer_text (get_type html_end settings) (3 ∷ [])) ≡ 72
unfolding head_text length_text decimal digits_of get_type exist get_string lookup bytes_eq
html_text = refl

a_named :
    cgi http ++ 46 ∷ 47 ∷ 97 ∷ name ≡ (119 ∷ 47 ∷ 46 ∷ 47 ∷ 97 ∷ []) ++ 46 ∷ 103 ∷ 105 ∷ 102 ∷ []
unfolding cgi get_string lookup bytes_eq
a_named = refl

abbrev first_byte : List ℕ → ℕ
first_byte [] = 0
first_byte (b ∷ _) = b

-- The name that php would give, were it asked.
abbrev no_php : List ℕ → List ℕ → Files → Files
no_php src dis fs = fs

deal_with_request-get_example :
    (o : Outgoing) × (deal_with_request no_php 0 settings http
        (get_text (97 ∷ name) [])
        files
        outgoing
      ≡ returned (files, o))
    × (o.wire ≡ [] ++ answer_text (get_type (103 ∷ 105 ∷ 102 ∷ []) settings) (1 ∷ 2 ∷ []))
unfolding is_space
deal_with_request-get_example =
    deal_with_request-get no_php 0 settings http 97 name [] (119 ∷ 47 ∷ 46 ∷ 47 ∷ 97 ∷ [])
      (103 ∷ 105 ∷ 102 ∷ []) (1 ∷ 2 ∷ []) files outgoing (refl, (refl, (refl, (refl, (refl, tt)))))
      (omega arith) a_named
      ((λ e. omega (arith, e)), ((λ e. omega (arith, e)), ((λ e. omega (arith, e)), tt)))
      (λ e. omega (arith, ap first_byte e)) a_found (omega (arith, gif_head)) tt
      (omega (arith, gif_text, accepting-outgoing))

asked : request_file (get_text (97 ∷ name) []) ≡ returned (46 ∷ 47 ∷ 97 ∷ name)
unfolding request_file word skip_space is_space bytes_eq
asked = refl

file_end-request_file_example :
    (stem : List ℕ) × (ext : List ℕ) × ((119 ∷ []) ++ 46 ∷ 47 ∷ 97 ∷ name ≡ stem ++ 46 ∷ ext)
    × (file_end ((119 ∷ []) ++ 46 ∷ 47 ∷ 97 ∷ name) ≡ some ext)
file_end-request_file_example =
    file_end-request_file (119 ∷ []) (get_text (97 ∷ name) []) (46 ∷ 47 ∷ 97 ∷ name) asked
