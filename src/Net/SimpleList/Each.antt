-- ===== src/Net/SimpleList/Each.antt =====
-- The destructor goes over every node.
use just_for_test_and_try.Base.{
  ℕ, zero, suc, ◌<◌, ◌≡◌, refl, sym, ◌∙◌, inl, inr, none, some, List, [], ◌∷◌, arith, ne→==, length,
  lookup, nat_eq,
}
use just_for_test_and_try.Net.SimpleList.{
  SimpleList, Field, null, tail, delete_node, every_loop, handle_every_node, destroy,
}
use just_for_test_and_try.Net.SimpleList.Chain.{NotIn, first_of, NextChain-first}
use just_for_test_and_try.Net.SimpleList.Order.{Linked, Represents}
use just_for_test_and_try.Net.SimpleList.Remove.{unlink-Linked}

-- No node of these is left in the heap.
abbrev pub Freed : Field → List ℕ → Type 0
Freed m [] = Unit {0}
Freed m (x ∷ xs) = (lookup x m ≡ none) × Freed m xs

record Emptied (s : SimpleList) (nodes : List ℕ) (s' : SimpleList) : Type 0 where
  linked : Linked s' []
  freed : Freed s'.data_ nodes
  others : (j : ℕ) → NotIn j nodes → lookup j s'.data_ ≡ lookup j s.data_

every_loop-Emptied :
    (left : ℕ) (s : SimpleList) (nodes : List ℕ)
    → Linked s nodes
    → length nodes < left
    → (s' : SimpleList) × (every_loop delete_node left (first_of nodes tail) s tt ≡ some (s', tt))
      × Emptied s nodes s'
unfolding every_loop delete_node
every_loop-Emptied zero s nodes v h = absurd (omega arith)
every_loop-Emptied (suc left) s [] v h =
    (s, refl, record { linked = v; freed = tt; others = λ j n. refl })
every_loop-Emptied (suc left) s (k ∷ ys) v h =
    let kt = ne→== k tail (λ e. omega (arith, e, v.within.0)) in
    let (s1, e1, v1, freed, others) = unlink-Linked s [] k ys v in
    let (s', e', r) = every_loop-Emptied left s1 ys v1 (omega arith) in
    (
      s',
      rw (kt, NextChain-first s.next k ys tail v.forward.1, e1, e'),
      record {
        linked = r.linked;
        freed = (r.others k v.distinct.0 ∙ freed, r.freed);
        others = λ j n. r.others j n.1 ∙ others j (λ q. n.0 (sym q));
      },
    )

-- The destructor takes every node out of the list and frees it, reading where to go on before it
-- frees: for every list that is new or made by push_back and remove_node, and more rounds than it has
-- nodes.
pub destroy-Represents :
    (left : ℕ) (s : SimpleList) (nodes : List ℕ)
    → Represents s nodes
    → length nodes < left
    → (s' : SimpleList) × (destroy left s ≡ some s') × Represents s' [] × Freed s'.data_ nodes
unfolding destroy handle_every_node
destroy-Represents left s [] (inl v) h = (s, rw v.forward, inl v, tt)
destroy-Represents left s (k ∷ ys) (inl v) h =
    let (s', e, r) = every_loop-Emptied left s (k ∷ ys) v h in
    let not_null = ne→== k null (λ q. omega (arith, q, v.within.0)) in
    let not_tail = ne→== k tail (λ q. omega (arith, q, v.within.0)) in
    (s', rw (v.forward.0, not_null, not_tail, e), inl r.linked, r.freed)
destroy-Represents left s [] (inr u) h = (s, rw u.forward, inr u, tt)
destroy-Represents left s (k ∷ ys) (inr u) h = absurd (cc u.empty)
