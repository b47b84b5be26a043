-- ===== src/Net/SimpleList/Remove.antt =====
-- `remove_node` takes a node out.
use just_for_test_and_try.Base.{
  ℕ, ◌<◌, ◌≡◌, ◌≢◌, sym, ◌∙◌, inl, inr, none, some, List, [], ◌∷◌, ◌++◌, arith, ne→==, lookup,
  insert, erase, lookup-erase, ==_self, nat_eq,
}
use just_for_test_and_try.Net.SimpleList.{SimpleList, Field, head, tail, unlink, remove_node}
use just_for_test_and_try.Net.SimpleList.Chain.{
  NextChain, PreChain, NotIn, Distinct, last_of, first_of, insert-other, erase-other, put-some,
  NextChain-insert, NextChain-erase, PreChain-erase, NextChain-retarget, PreChain-last,
  NextChain-last, NextChain-first, PreChain-start, NextChain-split, PreChain-split,
}
use just_for_test_and_try.Net.SimpleList.Order.{Linked, Represents, Within, NotIn-low}

-- What the nodes behind and before a place need of a field.
abbrev NextRest : Field → List ℕ → ℕ → Type 0
NextRest m [] z = Unit {0}
NextRest m (y ∷ ys) z = NextChain m y ys z

abbrev PreFront : Field → ℕ → List ℕ → Type 0
PreFront m a [] = Unit {0}
PreFront m a (x ∷ xs) = (lookup x m ≡ some a) × PreFront m x xs

NextChain-skip :
    (m : Field) (a : ℕ) (xs ys : List ℕ) (z : ℕ)
    → NextChain m a xs (first_of ys z)
    → NextRest m ys z
    → NextChain m a (xs ++ ys) z
NextChain-skip m a [] [] z c d = c
NextChain-skip m a [] (y ∷ ys) z c d = (c, d)
NextChain-skip m a (x ∷ xs) ys z c d = (c.0, NextChain-skip m x xs ys z c.1 d)

PreChain-skip :
    (m : Field) (a : ℕ) (xs ys : List ℕ) (z : ℕ)
    → PreFront m a xs
    → PreChain m (last_of a xs) ys z
    → PreChain m a (xs ++ ys) z
PreChain-skip m a [] ys z c d = d
PreChain-skip m a (x ∷ xs) ys z c d = (c.0, PreChain-skip m x xs ys z c.1 d)

NextRest-cut :
    (m : Field) (p v k : ℕ) (ys : List ℕ) (z : ℕ)
    → NextChain m k ys z
    → NotIn p ys
    → NotIn k ys
    → NextRest (erase k (insert p v m)) ys z
NextRest-cut m p v k [] z c h n = tt
NextRest-cut m p v k (y ∷ ys) z c h n =
    NextChain-erase (insert p v m) k y ys z (NextChain-insert m p v y ys z c.1 h) n

PreFront-cut :
    (m : Field) (p v k a : ℕ) (xs : List ℕ) (z : ℕ)
    → PreChain m a xs z
    → NotIn p xs
    → NotIn k xs
    → PreFront (erase k (insert p v m)) a xs
PreFront-cut m p v k a [] z c h n = tt
PreFront-cut m p v k a (x ∷ xs) z c h n = (
  erase-other k x (insert p v m) n.0 ∙ insert-other p v x m h.0 ∙ c.0,
  PreFront-cut m p v k x xs z c.1 h.1 n.1,
)

PreChain-first :
    (m : Field) (a : ℕ) (xs : List ℕ) (z : ℕ)
    → PreChain m a xs z
    → lookup (first_of xs z) m ≡ some a
PreChain-first m a [] z c = c
PreChain-first m a (x ∷ xs) z c = c.0

NotIn-split :
    (k : ℕ) (xs : List ℕ) (y : ℕ) (ys : List ℕ)
    → NotIn k (xs ++ y ∷ ys)
    → NotIn k xs × (k ≢ y) × NotIn k ys
NotIn-split k [] y ys h = (tt, h.0, h.1)
NotIn-split k (x ∷ xs) y ys h = let (p, q, r) = NotIn-split k xs y ys h.1 in ((h.0, p), q, r)

NotIn-append : (k : ℕ) (xs ys : List ℕ) → NotIn k xs → NotIn k ys → NotIn k (xs ++ ys)
NotIn-append k [] ys h n = n
NotIn-append k (x ∷ xs) ys h n = (h.0, NotIn-append k xs ys h.1 n)

first_of-ne : (x z : ℕ) (ys : List ℕ) → x ≢ z → NotIn x ys → first_of ys z ≢ x
first_of-ne x z [] h n = λ e. h (sym e)
first_of-ne x z (y ∷ ys) h n = λ e. n.0 (sym e)

not_empty : (xs : List ℕ) (k : ℕ) (ys : List ℕ) → (xs ++ k ∷ ys ≡ []) → ⊥
not_empty [] k ys h = cc
not_empty (x ∷ xs) k ys h = cc

erase_self : (k : ℕ) (m : Field) → lookup k (erase k m) ≡ none
erase_self k m = rw (lookup-erase k k m, ==_self k)

-- What the nodes of a list without repetition have to do with one of them.
record Apart (xs : List ℕ) (k : ℕ) (ys : List ℕ) : Type 0 where
  before : Distinct xs
  after : Distinct ys
  not_before : NotIn k xs
  not_after : NotIn k ys
  rest : Distinct (xs ++ ys)
  last : (a : ℕ) → NotIn a ys → NotIn (last_of a xs) ys
  first : (z : ℕ) → NotIn z xs → NotIn (first_of ys z) xs

Distinct-Apart : (xs : List ℕ) (k : ℕ) (ys : List ℕ) → Distinct (xs ++ k ∷ ys) → Apart xs k ys
Distinct-Apart [] k ys d = record {
  before = tt;
  after = d.1;
  not_before = tt;
  not_after = d.0;
  rest = d.1;
  last = λ a h. h;
  first = λ z h. tt;
}
Distinct-Apart (x ∷ xs) k ys d =
    let r = Distinct-Apart xs k ys d.1 in
    let (p, q, n) = NotIn-split x xs k ys d.0 in
    record {
      before = (p, r.before);
      after = r.after;
      not_before = ((λ e. q (sym e)), r.not_before);
      not_after = r.not_after;
      rest = (NotIn-append x xs ys p n, r.rest);
      last = λ a h. r.last x n;
      first = λ z h. ((λ e. first_of-ne x z ys (λ q. h.0 (sym q)) n e), r.first z h.1);
    }

Within-rest :
    (fresh : ℕ) (xs : List ℕ) (k : ℕ) (ys : List ℕ)
    → Within fresh (xs ++ k ∷ ys)
    → Within fresh (xs ++ ys)
Within-rest fresh [] k ys w = w.2
Within-rest fresh (x ∷ xs) k ys w = (w.0, w.1, Within-rest fresh xs k ys w.2)

Within-node : (fresh : ℕ) (xs : List ℕ) (k : ℕ) (ys : List ℕ) → Within fresh (xs ++ k ∷ ys) → 2 < k
Within-node fresh [] k ys w = w.0
Within-node fresh (x ∷ xs) k ys w = Within-node fresh xs k ys w.2

pub unlink-Linked :
    (s : SimpleList) (xs : List ℕ) (k : ℕ) (ys : List ℕ)
    → Linked s (xs ++ k ∷ ys)
    → (s' : SimpleList) × (unlink k s ≡ some s')
      × Linked s' (xs ++ ys)
      × (lookup k s'.data_ ≡ none)
      × ((j : ℕ) → k ≢ j → lookup j s'.data_ ≡ lookup j s.data_)
unfolding unlink
unlink-Linked s xs k ys v =
    let (fx, fy) = NextChain-split s.next head xs k ys tail v.forward in
    let (bx, by) = PreChain-split s.pre head xs k ys tail v.back in
    let a = Distinct-Apart xs k ys v.distinct in
    let high = Within-node s.fresh xs k ys v.within in
    let low_rest = Within-rest s.fresh xs k ys v.within in
    let kh : k ≢ head = λ e. omega (arith, e, high) in
    let kt : k ≢ tail = λ e. omega (arith, e, high) in
    let (head_xs, _, head_ys) =
      NotIn-split head xs k ys (NotIn-low head s.fresh (xs ++ k ∷ ys) (omega arith) v.within) in
    let (tail_xs, _, tail_ys) =
      NotIn-split tail xs k ys (NotIn-low tail s.fresh (xs ++ k ∷ ys) (omega arith) v.within) in
    let before = last_of head xs in
    let after = first_of ys tail in
    let ak : after ≢ k = first_of-ne k tail ys kt a.not_after in
    let k_next = NextChain-first s.next k ys tail fy in
    let k_pre = PreChain-last s.pre head xs k bx in
    let pre1 = insert after before s.pre in
    let next1 = insert before after s.next in
    (
      record s { next = erase k next1; pre = erase k pre1; data_ = erase k s.data_ },
      rw (
        k_next,
        k_pre,
        put-some after before k s.pre (PreChain-first s.pre k ys tail by),
        insert-other after before k s.pre ak ∙ k_pre,
        put-some before after k s.next (NextChain-last s.next head xs k fx),
      ),
      record {
        forward =
            NextChain-skip (erase k next1) head xs ys tail
              (NextChain-erase next1 k head xs after
                (NextChain-retarget s.next after head xs k fx (head_xs, a.before))
                (kh, a.not_before))
              (NextRest-cut s.next before after k ys tail fy (a.last head head_ys) a.not_after);
        back =
            PreChain-skip (erase k pre1) head xs ys tail
              (PreFront-cut s.pre after before k head xs k bx (a.first tail tail_xs) a.not_before)
              (PreChain-erase pre1 k before ys tail
                (PreChain-start s.pre before k ys tail by (tail_ys, a.after)) (kt, a.not_after));
        distinct = a.rest;
        within = low_rest;
        above = v.above;
      },
      erase_self k s.data_,
      λ j n. erase-other k j s.data_ n,
    )

-- remove_node takes the node out of the list and frees it, and the other nodes keep their order and
-- their data: for a node that is in a list made by these operations.
pub remove_node-Represents :
    (s : SimpleList) (xs : List ℕ) (k : ℕ) (ys : List ℕ)
    → Represents s (xs ++ k ∷ ys)
    → (s' : SimpleList) × (remove_node k s ≡ some s')
      × Represents s' (xs ++ ys)
      × (lookup k s'.data_ ≡ none)
      × ((j : ℕ) → k ≢ j → lookup j s'.data_ ≡ lookup j s.data_)
unfolding remove_node
remove_node-Represents s xs k ys (inr u) = absurd (not_empty xs k ys u.empty)
remove_node-Represents s xs k ys (inl v) =
    let high = Within-node s.fresh xs k ys v.within in
    let (s', e, l, freed, others) = unlink-Linked s xs k ys v in
    (
      s',
      rw (
        ne→== k head (λ q. omega (arith, q, high)),
        ne→== k tail (λ q. omega (arith, q, high)),
        e,
      ),
      inl l,
      freed,
      others,
    )
