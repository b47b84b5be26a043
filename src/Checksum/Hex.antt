-- ===== src/Checksum/Hex.antt =====
-- The printed digest of `StrongSum`: 32 characters, none of them NUL, and one print for one digest.
use just_for_test_and_try.Base.{ℕ, ◌*◌, ◌/◌, ◌%◌, ◌<◌, ◌≡◌, refl, ap₂, List, [], ◌∷◌, arith, length}
use just_for_test_and_try.Checksum.{AllBytes, hex_digit, hex}

abbrev pub AllNonzero : List ℕ → Type 0
AllNonzero [] = Unit {0}
AllNonzero (b ∷ bs) = (0 < b) × AllNonzero bs

pub length-hex : (bs : List ℕ) → length (hex bs) ≡ 2 * length bs
unfolding hex
length-hex [] = refl
length-hex (b ∷ bs) = omega (arith, length-hex bs)

pub hex-AllNonzero : (bs : List ℕ) → AllNonzero (hex bs)
unfolding hex hex_digit
hex-AllNonzero [] = tt
hex-AllNonzero (b ∷ bs) = (ground arith, (ground arith, hex-AllNonzero bs))

hex_digit_cancel : (d e : ℕ) → d < 16 → e < 16 → hex_digit d ≡ hex_digit e → d ≡ e
unfolding hex_digit
hex_digit_cancel d e hd he h = ground arith

head_eq : (a b : ℕ) (xs ys : List ℕ) → a ∷ xs ≡ b ∷ ys → (a ≡ b) × (xs ≡ ys)
head_eq a b xs ys h = (cc, cc)

-- Two lists of bytes with the same print of StrongSum are the same.
pub hex_cancel : (xs ys : List ℕ) → AllBytes xs → AllBytes ys → hex xs ≡ hex ys → xs ≡ ys
unfolding hex
hex_cancel [] [] hx hy h = refl
hex_cancel [] (y ∷ ys) hx hy h = cc
hex_cancel (x ∷ xs) [] hx hy h = cc
hex_cancel (x ∷ xs) (y ∷ ys) hx hy h =
    let (e1, t1) = head_eq (hex_digit (x / 16)) (hex_digit (y / 16)) _ _ h in
    let (e2, t2) = head_eq (hex_digit (x % 16)) (hex_digit (y % 16)) _ _ t1 in
    let high : x / 16 ≡ y / 16 = hex_digit_cancel _ _ (omega arith) (omega arith) e1 in
    let low : x % 16 ≡ y % 16 = hex_digit_cancel _ _ (omega arith) (omega arith) e2 in
    let same : x ≡ y = omega arith in ap₂ ◌∷◌ same (hex_cancel xs ys hx.1 hy.1 t2)
