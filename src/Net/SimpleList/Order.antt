-- ===== src/Net/SimpleList/Order.antt =====
-- The list of the nodes that `push_back` and `remove_node` keep.
use just_for_test_and_try.Base.{
  ℕ, suc, ◌≤◌, ◌<◌, ◌≡◌, ◌≢◌, sym, ◌∙◌, ◌⊎◌, true, ◌||◌, some, List, [], ◌∷◌, ◌++◌, arith, ◌==◌,
  lookup, insert, nat_eq,
}
use just_for_test_and_try.Net.SimpleList.{SimpleList, null, head, tail, push_back}
use just_for_test_and_try.Net.SimpleList.Chain.{
  NextChain, PreChain, NotIn, Distinct, last_of, insert_self, insert-other, put-some,
}

-- Addresses of nodes that are allocated.
abbrev pub Within : ℕ → List ℕ → Type 0
Within fresh [] = Unit {0}
Within fresh (x ∷ xs) = (2 < x) × (x < fresh) × Within fresh xs

-- The fields link the nodes in this order, both ways.
pub record Linked (s : SimpleList) (nodes : List ℕ) : Type 0 where
  pub forward : NextChain s.next head nodes tail
  pub back : PreChain s.pre head nodes tail
  pub distinct : Distinct nodes
  pub within : Within s.fresh nodes
  pub above : 2 < s.fresh

-- A list that no node has been put into yet.
pub record Unused (s : SimpleList) (nodes : List ℕ) : Type 0 where
  pub empty : nodes ≡ []
  pub forward : lookup head s.next ≡ some null
  pub back : lookup tail s.pre ≡ some null
  pub above : 2 < s.fresh

abbrev pub Represents : SimpleList → List ℕ → Type 0
Represents s nodes = Linked s nodes ⊎ Unused s nodes

pub NotIn-low : (k fresh : ℕ) (xs : List ℕ) → k ≤ 2 → Within fresh xs → NotIn k xs
NotIn-low k fresh [] h w = tt
NotIn-low k fresh (x ∷ xs) h w = ((λ e. omega (arith, e, w.0)), NotIn-low k fresh xs h w.2)

pub NotIn-fresh : (fresh : ℕ) (xs : List ℕ) → Within fresh xs → NotIn fresh xs
NotIn-fresh fresh [] w = tt
NotIn-fresh fresh (x ∷ xs) w = ((λ e. omega (arith, e, w.1)), NotIn-fresh fresh xs w.2)

pub last_of-fresh : (a fresh : ℕ) (xs : List ℕ) → a < fresh → Within fresh xs → last_of a xs < fresh
last_of-fresh a fresh [] h w = h
last_of-fresh a fresh (x ∷ xs) h w = last_of-fresh x fresh xs w.1 w.2

pub Within-snoc :
    (fresh : ℕ) (xs : List ℕ) → 2 < fresh → Within fresh xs → Within (suc fresh) (xs ++ fresh ∷ [])
Within-snoc fresh [] h w = (h, omega arith, tt)
Within-snoc fresh (x ∷ xs) h w = (w.0, omega (arith, w.1), Within-snoc fresh xs h w.2)

NotIn-snoc : (k x : ℕ) (xs : List ℕ) → NotIn k xs → k ≢ x → NotIn k (xs ++ x ∷ [])
NotIn-snoc k x [] h n = (n, tt)
NotIn-snoc k x (y ∷ xs) h n = (h.0, NotIn-snoc k x xs h.1 n)

pub Distinct-snoc : (x : ℕ) (xs : List ℕ) → Distinct xs → NotIn x xs → Distinct (xs ++ x ∷ [])
Distinct-snoc x [] d n = (tt, tt)
Distinct-snoc x (y ∷ xs) d n =
    (NotIn-snoc y x xs d.0 (λ e. n.0 (sym e)), Distinct-snoc x xs d.1 n.1)

-- What push_back returns, and what it does to the data.
pub record Pushed (t : ℕ) (s : SimpleList) (nodes : List ℕ) (s' : SimpleList) : Type 0 where
  pub linked : Linked s' (nodes ++ s.fresh ∷ [])
  pub new : lookup s.fresh s'.data_ ≡ some t
  pub others : (k : ℕ) → s.fresh ≢ k → lookup k s'.data_ ≡ lookup k s.data_

-- The first node.
pub push_back-empty :
    (t : ℕ) (s : SimpleList) (first w : ℕ)
    → lookup head s.next ≡ some first
    → (first == null || first == tail) ≡ true
    → lookup tail s.pre ≡ some w
    → 2 < s.fresh
    → (s' : SimpleList) × (push_back t s ≡ some (s.fresh, s')) × Pushed t s [] s'
unfolding push_back
push_back-empty t s first w f c b h =
    let node = s.fresh in
    let nh : node ≢ head = λ e. omega (arith, e) in
    let nt : node ≢ tail = λ e. omega (arith, e) in
    let hn : head ≢ node = λ e. omega (arith, e) in
    let tn : tail ≢ node = λ e. omega (arith, e) in
    let next = insert node null s.next in
    let pre = insert node null s.pre in
    let next1 = insert head node next in
    let pre1 = insert tail node pre in
    let at_head = insert-other node null head s.next nh ∙ f in
    let at_tail = insert-other node null tail s.pre nt ∙ b in
    let node_next = insert-other head node node next hn ∙ insert_self node null s.next in
    let node_pre = insert-other tail node node pre tn ∙ insert_self node null s.pre in
    (
      record {
        next = insert node tail next1;
        pre = insert node head pre1;
        data_ = insert node t s.data_;
        fresh = suc node;
      },
      rw (
        at_head,
        c,
        put-some head node first next at_head,
        put-some tail node w pre at_tail,
        put-some node tail null next1 node_next,
        put-some node head null pre1 node_pre,
      ),
      record {
        linked = record {
          forward = (
            insert-other node tail head next1 nh ∙ insert_self head node next,
            insert_self node tail next1,
          );
          back = (
            insert_self node head pre1,
            insert-other node head tail pre1 nt ∙ insert_self tail node pre,
          );
          distinct = (tt, tt);
          within = (h, omega arith, tt);
          above = omega arith;
        };
        new = insert_self node t s.data_;
        others = λ k n. insert-other node t k s.data_ n;
      },
    )
