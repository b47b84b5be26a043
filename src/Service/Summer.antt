-- ===== src/Service/Summer.antt =====
-- single_fs/simple_rsync/checksum3.cpp: the weak sum of this program, which adds CHAR_OFFSET to
-- each byte.
use just_for_test_and_try.Base.{ℕ, ◌+◌, ◌*◌, ◌<◌, List, [], ◌∷◌, arith}
use just_for_test_and_try.Checksum.{u32}
use just_for_test_and_try.Checksum.Adler.{join}
use just_for_test_and_try.Net.Package.{word_limit}

abbrev pub char_offset : ℕ
char_offset = 5

-- The second loop of `Sum1`.
unfoldable pub sum_each : ℕ → ℕ → List ℕ → ℕ × ℕ
sum_each s1 s2 [] = (s1, s2)
sum_each s1 s2 (b ∷ bs) = let s1' = u32 (s1 + (b + char_offset)) in sum_each s1' (u32 (s2 + s1')) bs

-- The first loop, four bytes at a time while more than four are left, and then the second.
unfoldable pub sum_blocks : ℕ → ℕ → List ℕ → ℕ × ℕ
sum_blocks s1 s2 (a ∷ b ∷ c ∷ d ∷ e ∷ bs) =
    sum_blocks (u32 (s1 + (a + b + c + d + 4 * char_offset)))
      (u32 (s2 + (4 * (s1 + a) + 3 * b + 2 * c + d + 10 * char_offset))) (e ∷ bs)
sum_blocks s1 s2 bs = sum_each s1 s2 bs

-- `Sum1(buf, length)` over the bytes that it reads.
unfoldable pub sum1 : List ℕ → ℕ
sum1 bytes = let (s1, s2) = sum_blocks 0 0 bytes in join s1 s2

pub sum1_small : (bytes : List ℕ) → sum1 bytes < word_limit
unfolding sum1 join
sum1_small bytes = omega arith
