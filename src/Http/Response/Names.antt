-- ===== src/Http/Response/Names.antt =====
-- The name in a request, and the end of a name.
use just_for_test_and_try.Base.{
  ℕ, zero, suc, ◌+◌, ◌-◌, ◌≤◌, ◌≡◌, ◌≢◌, refl, ap, sym, subst, Bool, ◌∙◌, ◌⊎◌, inl, inr, Bool-cases,
  true, false, Option, none, some, List, [], ◌∷◌, ◌++◌, arith, ltb, ◌==◌, if◌then◌else◌, ==_iff,
  ne→==, length, drop, get_elem?, get_elem?-drop, get_elem?-lt, length-append, drop-append,
  drop-drop, bytes_eq,
}
use mathlib.Core.Option.{some-injective}
use just_for_test_and_try.Net.Packet.{returned, require}
use just_for_test_and_try.Net.Packet.Ensured.{Ensures, Ensures-bind, Ensures-if}
use just_for_test_and_try.Http.Config.Settings.{Without}
use just_for_test_and_try.Http.Response.{
  find_dot, file_end, skip_space, word, default_html, get_word, request_file,
}

find_dot-here : (name : List ℕ) (i : ℕ) → get_elem? name i ≡ some 46 → find_dot name i ≡ some i
unfolding find_dot
find_dot-here name zero h = rw (h, find_dot)
find_dot-here name (suc i) h = rw (h, find_dot)

find_dot-next :
    (name : List ℕ) (i b : ℕ)
    → get_elem? name (suc i) ≡ some b
    → b ≢ 46
    → find_dot name (suc i) ≡ find_dot name i
unfolding find_dot
find_dot-next name i b h k =
    let not_dot : (if b == 46 then some (suc i) else find_dot name i) ≡ find_dot name i =
      rw (ne→== b 46 k) in
    ap
      (λ o. elim o as (λ _. Option ℕ) [
        | none ↦ none
        | some c ↦ if c == 46 then some (suc i) else find_dot name i
      ])
      h
    ∙ not_dot

get_elem?-behind :
    (stem xs : List ℕ) (i : ℕ) → get_elem? (stem ++ xs) (length stem + i) ≡ get_elem? xs i
get_elem?-behind stem xs i =
    sym (get_elem?-drop (length stem) i (stem ++ xs))
    ∙ ap (λ k. get_elem? k i) (drop-append stem xs)

Without-get_elem? : (b : ℕ) (xs : List ℕ) (i c : ℕ) → Without b xs → get_elem? xs i ≡ some c → c ≢ b
Without-get_elem? b [] i c h e = absurd (cc e)
Without-get_elem? b (x ∷ xs) zero c h e = λ k. h.0 (some-injective x c e ∙ k)
Without-get_elem? b (x ∷ xs) (suc i) c h e = Without-get_elem? b xs i c h.1 e

find_dot-last :
    (stem ext : List ℕ) (i : ℕ)
    → Without 46 ext
    → i ≤ length ext
    → find_dot (stem ++ 46 ∷ ext) (length stem + i) ≡ some (length stem)
find_dot-last stem ext zero h k =
    let e : length stem + 0 ≡ length stem = omega arith in
    let at_dot = get_elem?-behind stem (46 ∷ ext) 0 in
    rw e (find_dot-here (stem ++ 46 ∷ ext) (length stem) (rw e at at_dot))
find_dot-last stem ext (suc i) h k =
    let e : length stem + suc i ≡ suc (length stem + i) = omega arith in
    let (b, f) = get_elem?-lt ext i (omega arith) in
    let at_next : get_elem? (stem ++ 46 ∷ ext) (suc (length stem + i)) ≡ some b =
      ap (get_elem? (stem ++ 46 ∷ ext)) (sym e) ∙ get_elem?-behind stem (46 ∷ ext) (suc i) ∙ f in
    rw e (
      find_dot-next (stem ++ 46 ∷ ext) (length stem + i) b at_next
        (Without-get_elem? 46 ext i b h f)
      ∙ find_dot-last stem ext i h (omega arith))

-- FileEnd is what stands behind the last '.' of a name.
pub file_end-append : (stem ext : List ℕ) → Without 46 ext → file_end (stem ++ 46 ∷ ext) ≡ some ext
unfolding file_end
file_end-append stem ext h =
    let n = length-append stem (46 ∷ ext) in
    let last : length (stem ++ 46 ∷ ext) - 1 ≡ length stem + length ext = omega (arith, n) in
    let next : suc (length stem) ≡ length stem + 1 = omega arith in
    let behind : drop (suc (length stem)) (stem ++ 46 ∷ ext) ≡ ext =
      ap (λ k. drop k (stem ++ 46 ∷ ext)) next
      ∙ sym (drop-drop 1 (length stem) (stem ++ 46 ∷ ext))
      ∙ ap (drop 1) (drop-append stem (46 ∷ ext)) in
    rw (
      ne→== (length (stem ++ 46 ∷ ext)) 0 (λ e. omega (arith, e, n)),
      last,
      find_dot-last stem ext (length ext) h (omega arith),
      behind,
    )

-- A text with a '.' has a last one.
pub last_dot :
    (text : List ℕ)
    → Without 46 text
      ⊎ ((stem : List ℕ) × (ext : List ℕ) × (text ≡ stem ++ 46 ∷ ext) × Without 46 ext)
last_dot [] = inl tt
last_dot (b ∷ text) = elim (last_dot text) [
  | inr (stem, ext, e, h) ↦ inr (b ∷ stem, ext, ap (λ k. b ∷ k) e, h)
  | inl h ↦ elim (Bool-cases (b == 46)) [
    | inl e ↦ inr ([], text, ap (λ k. k ∷ text) ((==_iff b 46).0 e), h)
    | inr e ↦ inl ((λ k. cc (e, (==_iff b 46).1 k)), h)
  ]
]

no_dot-stem : (stem ext : List ℕ) → Without 46 (stem ++ 46 ∷ ext) → ⊥
no_dot-stem [] ext w = w.0 refl
no_dot-stem (b ∷ stem) ext w = no_dot-stem stem ext w.1

no_dot : (dir stem ext : List ℕ) → Without 46 (dir ++ (stem ++ 46 ∷ ext)) → ⊥
no_dot [] stem ext w = no_dot-stem stem ext w
no_dot (b ∷ dir) stem ext w = no_dot dir stem ext w.1

-- A text has a '.' in it.
abbrev Dotted : List ℕ → Type 0
Dotted name = (stem : List ℕ) × (ext : List ℕ) × (name ≡ stem ++ 46 ∷ ext)

default_html-Dotted : Dotted default_html
default_html-Dotted =
    (100 ∷ 101 ∷ 102 ∷ 97 ∷ 117 ∷ 108 ∷ 116 ∷ [], 104 ∷ 116 ∷ 109 ∷ 108 ∷ [], refl)

List-cases : (xs : List ℕ) → (xs ≡ []) ⊎ ((b : ℕ) × (rest : List ℕ) × (xs ≡ b ∷ rest))
List-cases [] = inl refl
List-cases (b ∷ rest) = inr (b, rest, refl)

chosen-Dotted : (b : Bool) (name : List ℕ) → Dotted (if b then 46 ∷ 47 ∷ name else default_html)
chosen-Dotted true name = ([], 47 ∷ name, refl)
chosen-Dotted false name = default_html-Dotted

request_file-Dotted : (data_ : List ℕ) → Ensures Dotted (request_file data_)
unfolding request_file
request_file-Dotted data_ =
    let request = (word (skip_space data_)).0 in
    let after = (word (skip_space data_)).1 in
    let default = default_html-Dotted in
    elim (List-cases (skip_space after)) [
      | inl e ↦ rw e (
          Ensures-if Dotted (length request == 0) _ _ default
            (Ensures-bind Dotted (require (ltb (length request) 10)) _ λ _ _. default))
      | inr (b, rest, e) ↦
          let name = (word (skip_space rest)).0 in
          rw e (
            Ensures-if Dotted (length request == 0) _ _ default (
              Ensures-bind Dotted (require (ltb (length request) 10)) _ λ _ _.
                Ensures-if Dotted (b == 47) _ _
                  (Ensures-if Dotted (length name == 0) _ _ default (
                    Ensures-bind Dotted (require (ltb (length name) 998)) _
                      λ _ _. chosen-Dotted (bytes_eq request get_word) name))
                  default))
    ]

-- The names that a request can ask for have a '.': so the end of the file's name is within it,
-- whatever folder the name is in.
pub file_end-request_file :
    (dir data_ name : List ℕ)
    → request_file data_ ≡ returned name
    → (stem : List ℕ) × (ext : List ℕ) × (dir ++ name ≡ stem ++ 46 ∷ ext)
      × (file_end (dir ++ name) ≡ some ext)
file_end-request_file dir data_ name h =
    let (stem, ext, e) = subst (Ensures Dotted) h (request_file-Dotted data_) in
    elim (last_dot (dir ++ name)) [
      | inr (s, x, f, w) ↦ (s, x, f, ap file_end f ∙ file_end-append s x w)
      | inl w ↦
          let v : Without 46 (dir ++ (stem ++ 46 ∷ ext)) = rw (← e) w in
          absurd (no_dot dir stem ext v)
    ]
