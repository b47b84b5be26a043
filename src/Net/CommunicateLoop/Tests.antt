-- ===== src/Net/CommunicateLoop/Tests.antt =====
-- A loop with one context, the stream at the address 9.
use just_for_test_and_try.Base.{◌≡◌, ◌==◌, refl, true, none, some, [], ◌∷◌, arith, lookup, nat_eq}
use just_for_test_and_try.Net.SimpleList.Order.{Linked}
use just_for_test_and_try.Net.CommunicateLoop.{CommunicateLoop, close_all}
use just_for_test_and_try.Net.CommunicateLoop.Closing.{close_all_undefined}

abbrev watching : CommunicateLoop
watching = record {
  context_list = record {
    next = (1, 3) ∷ (2, 0) ∷ (3, 2) ∷ [];
    pre = (1, 0) ∷ (2, 3) ∷ (3, 1) ∷ [];
    data_ = (3, 9) ∷ [];
    fresh = 4;
  };
  nodes = (9, 3) ∷ [];
  watched = (9, record { readable = true; writable = true }) ∷ [];
}

watching-Linked : Linked watching.context_list (3 ∷ [])
unfolding lookup
watching-Linked = record {
  forward = (refl, refl);
  back = (refl, refl);
  distinct = (tt, tt);
  within = (omega arith, omega arith, tt);
  above = omega arith;
}

node_found : lookup 3 watching.context_list.data_ ≡ some 9
unfolding lookup
node_found = refl

context_found : lookup 9 watching.nodes ≡ some 3
unfolding lookup
context_found = refl

close_all_undefined_example : close_all (λ c. c == 9) 5 watching ≡ none
close_all_undefined_example =
    close_all_undefined (λ c. c == 9) 4 watching 3 [] 9 watching-Linked refl node_found
      context_found
