-- ===== src/Http/Response/Digits.antt =====
-- The number in a Content-Length.
use just_for_test_and_try.Base.{
  ℕ, zero, suc, ◌+◌, ◌-◌, ◌*◌, ◌/◌, ◌%◌, ◌≤◌, ◌<◌, ◌≡◌, ap, ◌∙◌, inl, inr, Bool-cases, true, List,
  [], ◌∷◌, arith, ltb, ltb→lt, ltb→le, le→leb,
}
use just_for_test_and_try.App.{is_digit}
use just_for_test_and_try.App.Numbers.{AllDigits, value}
use just_for_test_and_try.Http.Response.{digits_of, decimal}

digit_lem : (n : ℕ) → is_digit (48 + n % 10) ≡ true
unfolding is_digit
digit_lem n =
    let low : 48 ≤ 48 + n % 10 = omega arith in
    let high : 48 + n % 10 ≤ 57 = omega arith in
    rw (le→leb 48 (48 + n % 10) low, le→leb (48 + n % 10) 57 high)

digits_of_lem :
    (left n : ℕ) (acc : List ℕ)
    → n < left
    → AllDigits acc
    → AllDigits (digits_of left n acc) × (value 0 (digits_of left n acc) ≡ value n acc)
unfolding digits_of
digits_of_lem zero n acc h d = absurd (omega arith)
digits_of_lem (suc left) n acc h d =
    let acc' = (48 + n % 10) ∷ acc in
    let d' : AllDigits acc' = (digit_lem n, d) in
    elim (Bool-cases (ltb n 10)) [
      | inl e ↦
          let small = ltb→lt n 10 e in
          let one : 0 * 10 + (48 + n % 10 - 48) ≡ n = omega arith in
          rw e (d', ap (λ k. value k acc) one)
      | inr e ↦
          let large = ltb→le n 10 e in
          let (more, v) = digits_of_lem left (n / 10) acc' (omega arith) d' in
          let whole : n / 10 * 10 + (48 + n % 10 - 48) ≡ n = omega arith in
          rw e (more, v ∙ ap (λ k. value k acc) whole)
    ]

-- The length of a file is sent as decimal digits that stand for it.
pub value-decimal : (n : ℕ) → AllDigits (decimal n) × (value 0 (decimal n) ≡ n)
unfolding decimal
value-decimal n = digits_of_lem (suc n) n [] (omega arith) tt
