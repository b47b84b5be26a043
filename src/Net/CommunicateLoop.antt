-- ===== src/Net/CommunicateLoop.antt =====
-- single_fs/depends/net/communicate_loop.h and communicate_loop.cpp: the contexts that a loop
-- watches. A context is its address. epoll keeps an interest list; adding twice and deleting what
-- is not there fail. `none` is undefined behaviour.
pub mod Closing
mod Tests
use just_for_test_and_try.Base.{
  ℕ, Bool, true, false, not, ◌&&◌, Option, none, some, List, [], ◌∷◌, ◌==◌, if◌then◌else◌, lookup,
  insert, erase, nat_eq, ◌>>=◌,
}
use just_for_test_and_try.Net.SimpleList.{
  SimpleList, Field, null, put, push_back, remove_node, handle_every_node,
}

-- What epoll waits for.
pub record Interest : Type 0 where
  pub readable : Bool
  pub writable : Bool

-- `nodes` holds the field `node_` of each context, `watched` the interest list of epoll.
pub record CommunicateLoop : Type 0 where
  pub context_list : SimpleList
  pub nodes : Field
  pub watched : List (ℕ × Interest)

unfoldable pub is_watched : ℕ → CommunicateLoop → Bool
is_watched context l = elim (lookup context l.watched) [ none ↦ false | some _ ↦ true ]

-- `AddEvent`: the result is whether epoll_ctl succeeded.
unfoldable pub add_event : ℕ → Bool → Bool → CommunicateLoop → Option (Bool × CommunicateLoop)
unfolding is_watched
add_event context readable writable l = do
  (node, contexts) ← push_back context l.context_list
  let new = not (is_watched context l)
  let interest : Interest = record { readable = readable; writable = writable }
  some (
    new,
    record {
      context_list = contexts;
      nodes = insert context node l.nodes;
      watched = if new then insert context interest l.watched else l.watched;
    },
  )

unfoldable pub set_event : ℕ → Bool → Bool → CommunicateLoop → Bool × CommunicateLoop
unfolding is_watched
set_event context writable readable l =
    let interest : Interest = record { readable = readable; writable = writable } in
    if is_watched context l
    then (true, record l { watched = insert context interest l.watched })
    else (false, l)

-- `ClearEvent`: the node of a context that was never added is not set.
unfoldable pub clear_event : ℕ → CommunicateLoop → Option (Bool × CommunicateLoop)
unfolding is_watched
clear_event context l = do
  node ← lookup context l.nodes
  contexts ← remove_node node l.context_list
  some (
    is_watched context l,
    record l { context_list = contexts; watched = erase context l.watched },
  )

-- An entry of the array that epoll_wait fills: EPOLLIN and EPOLLOUT.
pub record Event : Type 0 where
  pub context : ℕ
  pub input : Bool
  pub output : Bool

-- The deletion of a context, as far as the loop sees it: the destructor of a StreamSocketContext
-- calls ClearEvent, that of a ListenSocketContext does not. The memory that they free is left out.
unfoldable pub delete_context : (ℕ → Bool) → ℕ → CommunicateLoop → Option CommunicateLoop
delete_context is_stream context l =
    let cleared = (do (_, l') ← clear_event context l; some l') in
    if is_stream context then cleared else some l

-- The loop of `HandleEvent`. The contexts' handlers are parameters, which may change a state of
-- their own; `true` is a negative result of HandleInput, after which the context is deleted.
-- `is_stream` tells the class of a context.
module _ {ℓ} {S : Type ℓ} (is_stream : ℕ → Bool)
    (handle_input : ℕ → CommunicateLoop → S → Option (Bool × CommunicateLoop × S))
    (handle_output : ℕ → CommunicateLoop → S → Option (CommunicateLoop × S)) where
  unfoldable pub handle_one : Event → CommunicateLoop → S → Option (CommunicateLoop × S)
  handle_one event l x =
      let read = (do
        (failed, l1, x1) ← handle_input event.context l x
        let closed = (do l2 ← delete_context is_stream event.context l1; some (l2, x1))
        if failed then closed else some (l1, x1)) in
      if event.input
      then read
      else if event.output
      then handle_output event.context l x
      else some (l, x)

  unfoldable pub handle_event : List Event → CommunicateLoop → S → Option (CommunicateLoop × S)
  handle_event [] l x = some (l, x)
  handle_event (event ∷ events) l x = do (l', x') ← handle_one event l x; handle_event events l' x'

-- The action of the loop's `IteratorDel`, which deletes a context and then writes to its node.
unfoldable pub close_node :
    (ℕ → Bool)
    → ℕ
    → SimpleList
    → Field × List (ℕ × Interest)
    → Option (SimpleList × (Field × List (ℕ × Interest)))
close_node is_stream node s x = do
  context ← lookup node s.data_
  l ←
      delete_context is_stream context
        (record { context_list = s; nodes = x.0; watched = erase context x.1 })
  data_ ← put node null l.context_list.data_
  some (record l.context_list { data_ = data_ }, (l.nodes, l.watched))

-- The destructor's round over the contexts.
unfoldable pub close_all :
    (ℕ → Bool) → ℕ → CommunicateLoop → Option (SimpleList × (Field × List (ℕ × Interest)))
close_all is_stream left l =
    handle_every_node (close_node is_stream) left l.context_list (l.nodes, l.watched)
