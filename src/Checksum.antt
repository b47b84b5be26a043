-- ===== src/Checksum.antt =====
-- What the checksums of single_fs/librsync share: bytes, uint32_t, and the printed strong sum of
-- basesum.h. The digest function itself (MD4 of OpenSSL) is a parameter.
pub mod Adler
pub mod Hex
mod Tests
use just_for_test_and_try.Base.{ℕ, ◌+◌, ◌/◌, ◌%◌, ◌^◌, ◌<◌, ◌≡◌, List, [], ◌∷◌, ltb, if◌then◌else◌}

abbrev pub IsByte : ℕ → Type 0
IsByte b = b < 256

abbrev pub AllBytes : List ℕ → Type 0
AllBytes [] = Unit {0}
AllBytes (b ∷ bs) = IsByte b × AllBytes bs

abbrev pub u32 : ℕ → ℕ
u32 x = x % 2 ^ 32

-- A digit of `%02X`, as its character's code.
unfoldable pub hex_digit : ℕ → ℕ
hex_digit d = if ltb d 10 then d + 48 else d + 55

-- sprintf(tmp, "%02X", md[i]) and strcat, for every byte of the digest.
unfoldable pub hex : List ℕ → List ℕ
hex [] = []
hex (b ∷ bs) = hex_digit (b / 16) ∷ hex_digit (b % 16) ∷ hex bs

-- `StrongSum(data, length)`: the digest of the bytes, printed.
unfoldable pub strong_sum : (List ℕ → List ℕ) → List ℕ → List ℕ
strong_sum md4 block = hex (md4 block)
