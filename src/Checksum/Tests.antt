-- ===== src/Checksum/Tests.antt =====
-- Sums and windows of a few bytes.
use just_for_test_and_try.Base.{ℕ, ◌≡◌, refl, some, List, [], ◌∷◌, arith, drop, ◌>>=◌}
use just_for_test_and_try.Checksum.{AllBytes}
use just_for_test_and_try.Checksum.Adler.{Checksum3, new_checksum, init, sum1}
use just_for_test_and_try.Checksum.Adler.Digest.{digest, sum1-digest}
use just_for_test_and_try.Checksum.Adler.Rolling.{
  new_checksum-CanInit, update_all, tmp_sum-update_all,
}

abbrev bytes : List ℕ
bytes = 200 ∷ 7 ∷ 255 ∷ 0 ∷ 31 ∷ 90 ∷ []

sum1-digest_example : sum1 bytes ≡ digest bytes
sum1-digest_example = sum1-digest bytes

two-AllBytes : AllBytes (200 ∷ 7 ∷ [])
two-AllBytes = (omega arith, (omega arith, tt))

tmp_sum-update_all_example :
    (s' : Checksum3) × ((init 0 (new_checksum 0 4) (200 ∷ 7 ∷ []) 2 >>= λ s1.
    update_all 0 s1 (9 ∷ 31 ∷ []))
      ≡ some s')
    × (s'.tmp_sum ≡ sum1 (drop 2 (200 ∷ 7 ∷ 9 ∷ 31 ∷ [])))
tmp_sum-update_all_example =
    tmp_sum-update_all 0 2 (new_checksum 0 4) (200 ∷ 7 ∷ []) (9 ∷ 31 ∷ [])
      (new_checksum-CanInit 0 4 2 (omega arith) (omega arith)) (omega arith) refl two-AllBytes
      (omega arith, (omega arith, tt))
