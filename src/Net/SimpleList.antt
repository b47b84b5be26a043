-- ===== src/Net/SimpleList.antt =====
-- single_fs/depends/net/simple_list.h: nodes linked both ways between `head_` and `tail_`. A heap
-- has a map for each field of a node; a node that is freed has no entry. `none` is undefined
-- behaviour: NULL or a freed node is used.
pub mod Chain
pub mod Order
pub mod Push
pub mod Remove
pub mod Each
mod Tests
use just_for_test_and_try.Base.{
  ℕ, zero, suc, ◌+◌, Bool, true, false, ◌||◌, Option, none, some, List, [], ◌∷◌, ◌==◌,
  if◌then◌else◌, lookup, insert, erase, nat_eq, ◌>>=◌,
}

abbrev pub Field : Type 0
Field = List (ℕ × ℕ)

-- `fresh` is the address of the next node. An address and the data of a node are numbers.
pub record SimpleList : Type 0 where
  pub next : Field
  pub pre : Field
  pub data_ : Field
  pub fresh : ℕ

abbrev pub null : ℕ
null = 0

abbrev pub head : ℕ
head = 1

abbrev pub tail : ℕ
tail = 2

unfoldable pub new_list : SimpleList
new_list = record {
  next = (head, null) ∷ (tail, null) ∷ [];
  pre = (head, null) ∷ (tail, null) ∷ [];
  data_ = [];
  fresh = 3;
}

-- Writing a field of a node.
unfoldable pub put : ℕ → ℕ → Field → Option Field
put node v field = elim (lookup node field) [ none ↦ none | some _ ↦ some (insert node v field) ]

-- The new node, and the list.
unfoldable pub push_back : ℕ → SimpleList → Option (ℕ × SimpleList)
push_back t s =
    let node = s.fresh in
    let next = insert node null s.next in
    let pre = insert node null s.pre in
    let linked : Field → Field → Option (ℕ × SimpleList) = λ next' pre'. some (
      node,
      record { next = next'; pre = pre'; data_ = insert node t s.data_; fresh = suc node },
    ) in
    let first_node = (do
      next1 ← put head node next
      pre1 ← put tail node pre
      next2 ← put node tail next1
      pre2 ← put node head pre1
      linked next2 pre2) in
    let last_node = (do
      last ← lookup tail pre
      pre1 ← put node last pre
      next1 ← put node tail next
      pre2 ← put tail node pre1
      back ← lookup node pre2
      next2 ← put back node next1
      linked next2 pre2) in
    do first ← lookup head next; if first == null || first == tail then first_node else last_node

-- A node is taken out and freed: the rest of `remove_node`, and the action of `IteratorDel`.
unfoldable pub unlink : ℕ → SimpleList → Option SimpleList
unlink node s = do
  after ← lookup node s.next
  before ← lookup node s.pre
  pre ← put after before s.pre
  before' ← lookup node pre
  next ← put before' after s.next
  some (record s { next = erase node next; pre = erase node pre; data_ = erase node s.data_ })

unfoldable pub remove_node : ℕ → SimpleList → Option SimpleList
remove_node node s = if node == head || node == tail then some s else unlink node s

-- The loop of `HandleEveryNode` at `node`; the action changes the list and a state of its own. The
-- first number bounds the rounds.
module _ {ℓ} {S : Type ℓ} (action : ℕ → SimpleList → S → Option (SimpleList × S)) where
  unfoldable pub every_loop : ℕ → ℕ → SimpleList → S → Option (SimpleList × S)
  every_loop zero node s x = none
  every_loop (suc left) node s x =
      let go = (do
        tmp ← lookup node s.next
        (s', x') ← action node s x
        every_loop left tmp s' x') in
      if node == tail then some (s, x) else go

  unfoldable pub handle_every_node : ℕ → SimpleList → S → Option (SimpleList × S)
  handle_every_node left s x = do
    first ← lookup head s.next
    if first == null || first == tail then some (s, x) else every_loop left first s x

-- The action of `IteratorDel`, which has no state.
unfoldable pub delete_node : ℕ → SimpleList → Unit {0} → Option (SimpleList × Unit {0})
delete_node node s x = do s' ← unlink node s; some (s', tt)

-- The destructor, for a list of less than so many nodes.
unfoldable pub destroy : ℕ → SimpleList → Option SimpleList
destroy left s = do r ← handle_every_node delete_node left s tt; some r.0
