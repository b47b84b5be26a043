-- ===== src/Net/CommunicateLoop/Closing.antt =====
-- A loop that is destroyed with contexts in it.
use just_for_test_and_try.Base.{
  ℕ, suc, Bool, true, ◌≡◌, inl, none, some, List, [], ◌∷◌, arith, ne→==, lookup, nat_eq,
}
use just_for_test_and_try.Net.SimpleList.{
  SimpleList, Field, null, tail, put, every_loop, handle_every_node,
}
use just_for_test_and_try.Net.SimpleList.Chain.{NextChain-first}
use just_for_test_and_try.Net.SimpleList.Order.{Linked}
use just_for_test_and_try.Net.SimpleList.Remove.{remove_node-Represents}
use just_for_test_and_try.Net.CommunicateLoop.{
  CommunicateLoop, Interest, clear_event, delete_context, close_node, close_all,
}

put_freed : (node v : ℕ) (m : Field) → lookup node m ≡ none → put node v m ≡ none
unfolding put
put_freed node v m h = rw (h, put)

close_node_undefined :
    (is_stream : ℕ → Bool) (s : SimpleList) (x : ℕ) (xs : List ℕ) (c : ℕ) (nodes : Field)
    (watched : List (ℕ × Interest))
    → Linked s (x ∷ xs)
    → is_stream c ≡ true
    → lookup x s.data_ ≡ some c
    → lookup c nodes ≡ some x
    → close_node is_stream x s (nodes, watched) ≡ none
unfolding close_node delete_context clear_event
close_node_undefined is_stream s x xs c nodes watched v k d n =
    let (s', e, _, freed, _) = remove_node-Represents s [] x xs (inl v) in
    rw (d, k, n, e, put_freed x null s'.data_ freed)

-- Destroying a loop whose first context is a StreamSocketContext is undefined: the context's
-- destructor frees the node that the loop then writes to.
pub close_all_undefined :
    (is_stream : ℕ → Bool) (left : ℕ) (l : CommunicateLoop) (x : ℕ) (xs : List ℕ) (c : ℕ)
    → Linked l.context_list (x ∷ xs)
    → is_stream c ≡ true
    → lookup x l.context_list.data_ ≡ some c
    → lookup c l.nodes ≡ some x
    → close_all is_stream (suc left) l ≡ none
unfolding close_all handle_every_node every_loop
close_all_undefined is_stream left l x xs c v k d n =
    let not_null = ne→== x null (λ q. omega (arith, q, v.within.0)) in
    let not_tail = ne→== x tail (λ q. omega (arith, q, v.within.0)) in
    rw (
      v.forward.0,
      not_null,
      not_tail,
      NextChain-first l.context_list.next x xs tail v.forward.1,
      close_node_undefined is_stream l.context_list x xs c l.nodes l.watched v k d n,
    )
