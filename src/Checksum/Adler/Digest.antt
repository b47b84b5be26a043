-- ===== src/Checksum/Adler/Digest.antt =====
-- `Sum1` and `Update` of checksum3.cpp against the two sums that they stand for.
use native.Mathlib.Nat.{div-add-mod'}
use just_for_test_and_try.Base.{
  ℕ, suc, ◌+◌, ◌*◌, ◌/◌, ◌%◌, ◌^◌, ◌<◌, ◌≡◌, ap, ◌∙◌, List, [], ◌∷◌, ◌++◌, arith, length,
  length-append,
}
use just_for_test_and_try.Checksum.{u32, IsByte}
use just_for_test_and_try.Checksum.Adler.{sum_each, sum_blocks, join, sum1, roll}

abbrev pub byte_sum : List ℕ → ℕ
byte_sum [] = 0
byte_sum (b ∷ bs) = b + byte_sum bs

-- Each byte is weighted by its distance from the end.
abbrev pub weighted_sum : List ℕ → ℕ
weighted_sum [] = 0
weighted_sum (b ∷ bs) = suc (length bs) * b + weighted_sum bs

-- The two sums modulo 2 ^ 16, side by side.
abbrev pub digest : List ℕ → ℕ
digest bs = byte_sum bs % 2 ^ 16 + weighted_sum bs % 2 ^ 16 * 2 ^ 16

-- What the loops keep: both counters modulo 2 ^ 16.
abbrev Sums : ℕ → ℕ → List ℕ → ℕ × ℕ → Type 0
Sums s1 s2 bs (t1, t2) =
    (t1 % 2 ^ 16 ≡ (s1 + byte_sum bs) % 2 ^ 16)
    × (t2 % 2 ^ 16 ≡ (s2 + length bs * s1 + weighted_sum bs) % 2 ^ 16)

mul_u32 : (n a : ℕ) → n * u32 a + n * (a / 2 ^ 32) * 2 ^ 32 ≡ n * a
mul_u32 n a = omega (arith, ap (λ (t : ℕ). n * t) (div-add-mod' a (2 ^ 32)))

sum_each-Sums : (s1 s2 : ℕ) (bs : List ℕ) → Sums s1 s2 bs (sum_each s1 s2 bs)
unfolding sum_each
sum_each-Sums s1 s2 [] = omega arith
sum_each-Sums s1 s2 (b ∷ bs) =
    let ih = sum_each-Sums (u32 (s1 + b)) (u32 (s2 + u32 (s1 + b))) bs in
    (omega arith, omega (arith, mul_u32 (length bs) (s1 + b)))

sum_blocks-Sums : (s1 s2 : ℕ) (bs : List ℕ) → Sums s1 s2 bs (sum_blocks s1 s2 bs)
unfolding sum_blocks
sum_blocks-Sums s1 s2 (a ∷ b ∷ c ∷ d ∷ e ∷ bs) =
    let ih =
      sum_blocks-Sums (u32 (s1 + (a + b + c + d))) (u32 (s2 + (4 * (s1 + a) + 3 * b + 2 * c + d)))
        (e ∷ bs) in
    (omega arith, omega (arith, mul_u32 (suc (length bs)) (s1 + (a + b + c + d))))
sum_blocks-Sums s1 s2 [] = sum_each-Sums s1 s2 []
sum_blocks-Sums s1 s2 (a ∷ []) = sum_each-Sums s1 s2 (a ∷ [])
sum_blocks-Sums s1 s2 (a ∷ b ∷ []) = sum_each-Sums s1 s2 (a ∷ b ∷ [])
sum_blocks-Sums s1 s2 (a ∷ b ∷ c ∷ []) = sum_each-Sums s1 s2 (a ∷ b ∷ c ∷ [])
sum_blocks-Sums s1 s2 (a ∷ b ∷ c ∷ d ∷ []) = sum_each-Sums s1 s2 (a ∷ b ∷ c ∷ d ∷ [])

join_mod : (s1 s2 : ℕ) → join s1 s2 ≡ s1 % 2 ^ 16 + s2 % 2 ^ 16 * 2 ^ 16
unfolding join
join_mod s1 s2 = omega arith

-- Sum1 returns the sum of the bytes and the sum of the bytes weighted by their distance from the
-- end, each modulo 2 ^ 16, side by side, for every length: the loop that takes four bytes at a
-- time and the overflows of both counters change nothing.
pub sum1-digest : (bytes : List ℕ) → sum1 bytes ≡ digest bytes
unfolding sum1
sum1-digest bytes =
    let h = sum_blocks-Sums 0 0 bytes in
    join_mod (sum_blocks 0 0 bytes).0 (sum_blocks 0 0 bytes).1 ∙ omega arith

byte_sum-append : (bs : List ℕ) (b : ℕ) → byte_sum (bs ++ (b ∷ [])) ≡ byte_sum bs + b
byte_sum-append [] b = omega arith
byte_sum-append (a ∷ bs) b = omega (arith, byte_sum-append bs b)

weighted_sum-append :
    (bs : List ℕ) (b : ℕ) → weighted_sum (bs ++ (b ∷ [])) ≡ weighted_sum bs + byte_sum bs + b
weighted_sum-append [] b = omega arith
weighted_sum-append (a ∷ bs) b =
    omega (arith, weighted_sum-append bs b, ap (λ (t : ℕ). suc t * a) (length-append bs (b ∷ [])))

-- The arithmetic of Update takes the digest of a window to the digest of the window moved on by
-- one byte, if the byte that goes is below 256 and the length is the window's.
pub roll-digest :
    (n next gone : ℕ) (bs : List ℕ)
    → IsByte gone
    → n ≡ length (gone ∷ bs)
    → roll (digest (gone ∷ bs)) n next gone ≡ digest (bs ++ (next ∷ []))
unfolding roll
roll-digest n next gone bs hg hn =
    join_mod _ _
    ∙ omega (
      arith,
      byte_sum-append bs next,
      weighted_sum-append bs next,
      ap (λ (t : ℕ). t * gone) (div-add-mod' n (2 ^ 16)),
      ap (λ (t : ℕ). t * gone) hn,
      small,
    )
  where
    small : n % 2 ^ 16 * gone < 2 ^ 32
    small = grind arith
