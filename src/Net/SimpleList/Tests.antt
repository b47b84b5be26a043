-- ===== src/Net/SimpleList/Tests.antt =====
-- Runs of the list with two nodes.
use just_for_test_and_try.Base.{
  ℕ, ◌≡◌, ◌≢◌, refl, inl, inr, none, some, [], ◌∷◌, arith, lookup, nat_eq,
}
use just_for_test_and_try.Net.SimpleList.{SimpleList, new_list, push_back, remove_node, destroy}
use just_for_test_and_try.Net.SimpleList.Order.{Represents}
use just_for_test_and_try.Net.SimpleList.Push.{push_back-Represents}
use just_for_test_and_try.Net.SimpleList.Remove.{remove_node-Represents}
use just_for_test_and_try.Net.SimpleList.Each.{Freed, destroy-Represents}

new_list-Represents : Represents new_list []
unfolding new_list lookup
new_list-Represents =
    inr (record { empty = refl; forward = refl; back = refl; above = omega arith })

push_back-Represents_example :
    (s : SimpleList) × (push_back 7 new_list ≡ some (3, s))
    × Represents s (3 ∷ [])
    × (lookup 3 s.data_ ≡ some 7)
    × ((k : ℕ) → 3 ≢ k → lookup k s.data_ ≡ lookup k [])
unfolding new_list
push_back-Represents_example = push_back-Represents 7 new_list [] new_list-Represents

-- Nodes 3 and 4 behind `head_`.
abbrev two : SimpleList
two = record {
  next = (1, 3) ∷ (2, 0) ∷ (3, 4) ∷ (4, 2) ∷ [];
  pre = (1, 0) ∷ (2, 4) ∷ (3, 1) ∷ (4, 3) ∷ [];
  data_ = (3, 7) ∷ (4, 8) ∷ [];
  fresh = 5;
}

two-Represents : Represents two (3 ∷ 4 ∷ [])
unfolding lookup
two-Represents = inl (record {
  forward = (refl, (refl, refl));
  back = (refl, (refl, refl));
  distinct = (((λ e. omega (arith, e)), tt), (tt, tt));
  within = (omega arith, omega arith, (omega arith, omega arith, tt));
  above = omega arith;
})

remove_node-Represents_example :
    (s : SimpleList) × (remove_node 3 two ≡ some s)
    × Represents s (4 ∷ [])
    × (lookup 3 s.data_ ≡ none)
    × ((j : ℕ) → 3 ≢ j → lookup j s.data_ ≡ lookup j two.data_)
remove_node-Represents_example = remove_node-Represents two [] 3 (4 ∷ []) two-Represents

destroy-Represents_example :
    (s : SimpleList) × (destroy 3 two ≡ some s) × Represents s [] × Freed s.data_ (3 ∷ 4 ∷ [])
destroy-Represents_example = destroy-Represents 3 two (3 ∷ 4 ∷ []) two-Represents (omega arith)
