-- ===== src/Net/SimpleList/Push.antt =====
-- `push_back` puts a node at the end.
use just_for_test_and_try.Base.{
  ℕ, suc, ◌≡◌, ◌≢◌, refl, ◌∙◌, inl, inr, some, List, [], ◌∷◌, ◌++◌, arith, ne→==, lookup, insert,
  nat_eq,
}
use just_for_test_and_try.Net.SimpleList.{SimpleList, null, head, tail, push_back}
use just_for_test_and_try.Net.SimpleList.Chain.{
  NextChain, PreChain, last_of, insert_self, insert-other, put-some, NextChain-insert,
  PreChain-insert, NextChain-retarget, PreChain-last, NextChain-last, PreChain-end, NextChain-join,
  PreChain-join,
}
use just_for_test_and_try.Net.SimpleList.Order.{
  Linked, Represents, Pushed, NotIn-low, NotIn-fresh, last_of-fresh, Within-snoc, Distinct-snoc,
  push_back-empty,
}

push_back-behind :
    (t : ℕ) (s : SimpleList) (x : ℕ) (xs : List ℕ)
    → Linked s (x ∷ xs)
    → (s' : SimpleList) × (push_back t s ≡ some (s.fresh, s')) × Pushed t s (x ∷ xs) s'
unfolding push_back
push_back-behind t s x xs v =
    let node = s.fresh in
    let h = v.above in
    let last = last_of x xs in
    let nh : node ≢ head = λ e. omega (arith, e, h) in
    let nt : node ≢ tail = λ e. omega (arith, e, h) in
    let tn : tail ≢ node = λ e. omega (arith, e, h) in
    let low = last_of-fresh x s.fresh xs v.within.1 v.within.2 in
    let nl : node ≢ last = λ e. omega (arith, e, low) in
    let ln : last ≢ node = λ e. omega (arith, e, low) in
    let unused = NotIn-fresh s.fresh (x ∷ xs) v.within in
    let next = insert node null s.next in
    let pre = insert node null s.pre in
    let next1 = insert node tail next in
    let pre1 = insert node last pre in
    let pre2 = insert tail node pre1 in
    let at_head = insert-other node null head s.next nh ∙ v.forward.0 in
    let not_null = ne→== x null (λ e. omega (arith, e, v.within.0)) in
    let not_tail = ne→== x tail (λ e. omega (arith, e, v.within.0)) in
    let at_tail =
      insert-other node null tail s.pre nt ∙ PreChain-last s.pre head (x ∷ xs) tail v.back in
    let back = insert-other tail node node pre1 tn ∙ insert_self node last pre in
    let last_next =
      insert-other node tail last next nl
      ∙ insert-other node null last s.next nl
      ∙ NextChain-last s.next head (x ∷ xs) tail v.forward in
    let forward : NextChain next1 head (x ∷ xs) tail =
      NextChain-insert next node tail head (x ∷ xs) tail
        (NextChain-insert s.next node null head (x ∷ xs) tail v.forward (nh, unused))
        (nh, unused) in
    let backward : PreChain pre1 head (x ∷ xs) tail =
      PreChain-insert pre node last head (x ∷ xs) tail
        (PreChain-insert s.pre node null head (x ∷ xs) tail v.back (nt, unused)) (nt, unused) in
    let not_head = NotIn-low head s.fresh (x ∷ xs) (omega arith) v.within in
    let no_tail = NotIn-low tail s.fresh (x ∷ xs) (omega arith) v.within in
    let next2 = insert last node next1 in
    (
      record { next = next2; pre = pre2; data_ = insert node t s.data_; fresh = suc node },
      rw (
        at_head,
        not_null,
        not_tail,
        at_tail,
        put-some node last null pre (insert_self node null s.pre),
        put-some node tail null next (insert_self node null s.next),
        put-some tail node last pre1 (insert-other node last tail pre nt ∙ at_tail),
        back,
        put-some last node tail next1 last_next,
      ),
      record {
        linked = record {
          forward =
              NextChain-join next2 head (x ∷ xs) node [] tail
                (NextChain-retarget next1 node head (x ∷ xs) tail forward (not_head, v.distinct))
                (insert-other last node node next1 ln ∙ insert_self node tail next);
          back =
              PreChain-join pre2 head (x ∷ xs) node [] tail
                (PreChain-insert pre1 tail node head (x ∷ xs) node
                  (PreChain-end pre1 head (x ∷ xs) tail node backward (insert_self node last pre))
                  (tn, no_tail))
                (insert_self tail node pre1);
          distinct = Distinct-snoc node (x ∷ xs) v.distinct unused;
          within = Within-snoc s.fresh (x ∷ xs) h v.within;
          above = omega (arith, h);
        };
        new = insert_self node t s.data_;
        others = λ k n. insert-other node t k s.data_ n;
      },
    )

-- push_back returns a new node, which then stands at the end of the list with its data, and the
-- other nodes keep their places and their data: for every list that is new or made by these
-- operations.
pub push_back-Represents :
    (t : ℕ) (s : SimpleList) (nodes : List ℕ)
    → Represents s nodes
    → (s' : SimpleList) × (push_back t s ≡ some (s.fresh, s'))
      × Represents s' (nodes ++ s.fresh ∷ [])
      × (lookup s.fresh s'.data_ ≡ some t)
      × ((k : ℕ) → s.fresh ≢ k → lookup k s'.data_ ≡ lookup k s.data_)
push_back-Represents t s [] (inl v) =
    let (s', e, p) = push_back-empty t s tail head v.forward refl v.back v.above in
    (s', e, inl p.linked, p.new, p.others)
push_back-Represents t s (x ∷ xs) (inl v) =
    let (s', e, p) = push_back-behind t s x xs v in (s', e, inl p.linked, p.new, p.others)
push_back-Represents t s [] (inr u) =
    let (s', e, p) = push_back-empty t s null null u.forward refl u.back u.above in
    (s', e, inl p.linked, p.new, p.others)
push_back-Represents t s (x ∷ xs) (inr u) = absurd (cc (u.empty))
