-- ===== src/Http/Config/Settings.antt =====
-- Settings written as lines are read back.
use just_for_test_and_try.Base.{
  ℕ, ◌≡◌, ◌≢◌, refl, ap, ◌∙◌, true, Option, none, some, List, [], ◌∷◌, ◌++◌, append_assoc, ◌==◌,
  ==_iff, ne→==, if◌then◌else◌, lookup, insert, lookup-insert, lookup-nil, bytes_eq, bytes_eq_eq,
  arith,
}
use just_for_test_and_try.Http.Config.{
  Conf, lines, c_string, until_newline, parse, add_lines, config, get_string,
}

-- A text without a byte.
abbrev pub Without : ℕ → List ℕ → Type 0
Without b [] = Unit {0}
Without b (c ∷ text) = (c ≢ b) × Without b text

-- A setting that can be written in a line.
pub record IsSetting (mode : ℕ) (setting : List ℕ × List ℕ) : Type 0 where
  pub no_mode : Without mode setting.0
  pub key_line : Without 10 setting.0
  pub key_text : Without 0 setting.0
  pub value_line : Without 10 setting.1
  pub value_text : Without 0 setting.1

abbrev pub AllSettings : ℕ → Conf → Type 0
AllSettings mode [] = Unit {0}
AllSettings mode (setting ∷ rest) = IsSetting mode setting × AllSettings mode rest

abbrev pub line_of : ℕ → List ℕ × List ℕ → List ℕ
line_of mode setting = setting.0 ++ mode ∷ (setting.1 ++ 10 ∷ [])

-- The text of a file of settings.
abbrev pub written : ℕ → Conf → List ℕ
written mode [] = []
written mode (setting ∷ rest) = line_of mode setting ++ written mode rest

-- What the last setting of a key says.
abbrev pub last_value : List ℕ → Conf → Option (List ℕ) → Option (List ℕ)
last_value key [] found = found
last_value key ((k, v) ∷ rest) found =
    last_value key rest (if bytes_eq k key then some v else found)

lines_nil : lines [] ≡ []
unfolding lines
lines_nil = refl

-- A text without a newline, and one, are a line.
lines-line :
    (text rest : List ℕ)
    → Without 10 text
    → lines (text ++ 10 ∷ rest) ≡ (text ++ 10 ∷ []) ∷ lines rest
unfolding lines
lines-line [] rest h = refl
lines-line (b ∷ text) rest h = rw (ne→== b 10 h.0, lines-line text rest h.1)

c_string-Without : (text : List ℕ) → Without 0 text → c_string text ≡ text
unfolding c_string
c_string-Without [] h = refl
c_string-Without (b ∷ text) h = rw (ne→== b 0 h.0, c_string-Without text h.1)

Without-append : (b : ℕ) (xs ys : List ℕ) → Without b xs → Without b ys → Without b (xs ++ ys)
Without-append b [] ys h k = k
Without-append b (x ∷ xs) ys h k = (h.0, Without-append b xs ys h.1 k)

until_newline-line : (text : List ℕ) → Without 10 text → until_newline (text ++ 10 ∷ []) ≡ text
unfolding until_newline
until_newline-line [] h = refl
until_newline-line (b ∷ text) h = rw (ne→== b 10 h.0, until_newline-line text h.1)

parse-line :
    (mode : ℕ) (key value : List ℕ)
    → Without mode key
    → Without 10 value
    → parse mode (key ++ mode ∷ (value ++ 10 ∷ [])) ≡ (key, value)
unfolding parse
parse-line mode [] value h k =
    let e : (mode == mode) ≡ true = (==_iff mode mode).1 refl in rw (e, until_newline-line value k)
parse-line mode (b ∷ key) value h k = rw (ne→== b mode h.0, parse-line mode key value h.1 k)

add_lines-written :
    (mode : ℕ) (settings conf : Conf) (key : List ℕ)
    → mode ≢ 0
    → mode ≢ 10
    → AllSettings mode settings
    → lookup key (add_lines mode (lines (written mode settings)) conf)
      ≡ last_value key settings (lookup key conf)
unfolding add_lines
add_lines-written mode [] conf key m0 m10 h = rw lines_nil
add_lines-written mode ((k, v) ∷ rest) conf key m0 m10 h =
    let text = k ++ mode ∷ v in
    let ok = h.0 in
    let start : line_of mode (k, v) ++ written mode rest ≡ text ++ 10 ∷ written mode rest =
      simp append_assoc in
    let end : text ++ 10 ∷ [] ≡ line_of mode (k, v) = append_assoc k (mode ∷ v) (10 ∷ []) in
    let split : lines (written mode ((k, v) ∷ rest))
        ≡ line_of mode (k, v) ∷ lines (written mode rest) =
      ap lines start
      ∙ lines-line text (written mode rest)
          (Without-append 10 k (mode ∷ v) ok.key_line (m10, ok.value_line))
      ∙ ap (λ l. l ∷ lines (written mode rest)) end in
    let whole : c_string (line_of mode (k, v)) ≡ line_of mode (k, v) =
      c_string-Without (line_of mode (k, v)) (
        Without-append 0 k (mode ∷ (v ++ 10 ∷ [])) ok.key_text (
          m0,
          Without-append 0 v (10 ∷ []) ok.value_text ((λ e. absurd (omega (arith, e))), tt),
        )) in
    let parsed = parse-line mode k v ok.no_mode ok.value_line in
    ap (λ l. lookup key (add_lines mode l conf)) split
    ∙ ap (λ p. lookup key (add_lines mode (lines (written mode rest)) (insert p.0 p.1 conf)))
        (ap (parse mode) whole ∙ parsed)
    ∙ add_lines-written mode rest (insert k v conf) key m0 m10 h.1
    ∙ ap (last_value key rest) (lookup-insert k key v conf)

-- The settings of a file of lines, each a key, the mode character and a value, are what the last
-- line with a key says, and the empty text for a key without a line: for a mode that is no newline
-- and no NUL, keys without the mode, and keys and values without newlines and NULs.
pub get_string-config :
    (mode : ℕ) (settings : Conf) (key : List ℕ)
    → mode ≢ 0
    → mode ≢ 10
    → AllSettings mode settings
    → get_string key (config mode (written mode settings))
      ≡ (elim (last_value key settings none) [ none ↦ [] | some value ↦ value ])
unfolding get_string config
get_string-config mode settings key m0 m10 h =
    let e =
      add_lines-written mode settings [] key m0 m10 h
      ∙ ap (last_value key settings) (lookup-nil key [] refl) in
    rw (e, get_string)
