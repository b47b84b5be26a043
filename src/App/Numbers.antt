-- ===== src/App/Numbers.antt =====
-- The text of a number on its way from the client to the server.
use just_for_test_and_try.Base.{
  ℕ, suc, ◌+◌, ◌-◌, ◌*◌, ◌≤◌, ◌<◌, ◌≡◌, refl, ap, true, false, ◌&&◌, ◌||◌, some, List, [], ◌∷◌,
  ◌++◌, arith, leb, ◌==◌, ne→==, length, set, lt→ltb, int_limit,
}
use just_for_test_and_try.Net.Packet.{returned}
use just_for_test_and_try.App.{is_digit, digits_value, signed_value, atoi}
use just_for_test_and_try.App.Server.{file_number}
use just_for_test_and_try.App.Client.{formatted}

-- A text of decimal digits, and the number that it stands for behind the digits of `acc`.
abbrev pub AllDigits : List ℕ → Type 0
AllDigits [] = Unit {0}
AllDigits (b ∷ bs) = (is_digit b ≡ true) × AllDigits bs

abbrev pub value : ℕ → List ℕ → ℕ
value acc [] = acc
value acc (b ∷ bs) = value (acc * 10 + (b - 48)) bs

is_digit_nul : is_digit 0 ≡ false
unfolding is_digit
is_digit_nul = refl

digits_value-AllDigits :
    (acc : ℕ) (text rest : List ℕ)
    → AllDigits text
    → digits_value acc (text ++ 0 ∷ rest) ≡ some (value acc text)
unfolding digits_value
digits_value-AllDigits acc [] rest h = rw is_digit_nul
digits_value-AllDigits acc (b ∷ text) rest h =
    rw h.0 (digits_value-AllDigits (acc * 10 + (b - 48)) text rest h.1)

signed_value-AllDigits :
    (text rest : List ℕ)
    → AllDigits text
    → value 0 text < int_limit
    → signed_value false (text ++ 0 ∷ rest) ≡ some (false, value 0 text)
unfolding signed_value
signed_value-AllDigits text rest h k =
    rw (digits_value-AllDigits 0 text rest h, lt→ltb (value 0 text) int_limit k)

digit-bounds : (b : ℕ) → is_digit b ≡ true → (48 ≤ b) × (b ≤ 57)
unfolding is_digit
digit-bounds b h = (ground arith, ground arith)

atoi-AllDigits :
    (text rest : List ℕ)
    → AllDigits text
    → value 0 text < int_limit
    → atoi (text ++ 0 ∷ rest) ≡ some (false, value 0 text)
unfolding atoi
atoi-AllDigits [] rest h k = signed_value-AllDigits [] rest h k
atoi-AllDigits (b ∷ text) rest h k =
    let (low, high) = digit-bounds b h.0 in
    let blank : (b == 32 || (leb 9 b && leb b 13)) ≡ false = ground arith in
    rw (blank, ne→== b 45 (λ e. omega (arith, e)), ne→== b 43 (λ e. omega (arith, e)))
      (signed_value-AllDigits (b ∷ text) rest h k)

pub file_number-AllDigits :
    (text rest : List ℕ)
    → AllDigits text
    → 0 < value 0 text
    → value 0 text < int_limit
    → file_number (text ++ 0 ∷ rest) ≡ returned (value 0 text)
unfolding file_number
file_number-AllDigits text rest h p k =
    rw (atoi-AllDigits text rest h k, ne→== (value 0 text) 0 (omega arith))

pub formatted-AllDigits : (text : List ℕ) → AllDigits text → formatted text ≡ some text
unfolding formatted
formatted-AllDigits [] h = refl
formatted-AllDigits (b ∷ []) h =
    let (low, _) = digit-bounds b h.0 in rw (ne→== b 37 (λ e. omega (arith, e)))
formatted-AllDigits (b ∷ c ∷ text) h =
    let (low, _) = digit-bounds b h.0 in
    rw (ne→== b 37 (λ e. omega (arith, e)), formatted-AllDigits (c ∷ text) h.1)

-- A byte written behind a NUL.
pub set-behind :
    (text rest : List ℕ) (i v : ℕ)
    → set (text ++ 0 ∷ rest) (length text + suc i) v ≡ text ++ 0 ∷ set rest i v
set-behind [] rest i v = let e : 0 + suc i ≡ suc i = omega arith in rw e
set-behind (b ∷ text) rest i v =
    let e : suc (length text) + suc i ≡ suc (length text + suc i) = omega arith in
    rw e (ap (λ k. b ∷ k) (set-behind text rest i v))
