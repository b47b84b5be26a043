-- ===== src/Log/Tests.antt =====
-- Lines of the log that do not fit.
use just_for_test_and_try.Base.{ℕ, ◌≡◌, refl, none, some, List, [], ◌∷◌, ◌++◌, replicate}
use just_for_test_and_try.Log.{until_nul, write_log}

abbrev stamp : List ℕ
stamp = replicate 4000 1

cut_at_nul : until_nul (7 ∷ 8 ∷ 0 ∷ 9 ∷ []) ≡ 7 ∷ 8 ∷ []
unfolding until_nul
cut_at_nul = refl

text_of_96 : write_log stamp (replicate 96 2) ≡ some (stamp ++ (replicate 95 2 ++ 10 ∷ []))
unfolding write_log
text_of_96 = refl

text_of_97 : write_log stamp (replicate 97 2) ≡ none
unfolding write_log
text_of_97 = refl
