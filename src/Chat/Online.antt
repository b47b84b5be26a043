-- ===== src/Chat/Online.antt =====
-- Who is online: the two maps of UserConnection are inverse to one another, as long as nobody logs
-- in twice.
use just_for_test_and_try.Base.{
  ℕ, ◌≡◌, ◌≢◌, ◌↔◌, refl, sym, subst, inl, inr, false, Option-cases, none, some, List, arith,
  lookup, insert, erase, lookup-insert, lookup-erase, nat_eq, bytes_eq_eq, bytes_eq_iff,
  bytes_eq_self, ne→bytes_eq, ==_iff, ==_self, ne→==,
}
use just_for_test_and_try.Chat.{
  UserConnection, add_user, remove_user, remove_end_point, contains, get_end_point_by_user,
  on_close,
}

-- A user has the end point that has the user.
abbrev pub Paired : UserConnection → Type 0
Paired c =
    (user : List ℕ) (end_point : ℕ)
    → (lookup user c.user_connections ≡ some end_point)
      ↔ (lookup end_point c.connection_users ≡ some user)

-- Login of a user who is not online, from an end point that has none, pairs the two and keeps the
-- maps inverse to one another; everybody else's end point stays.
pub add_user-Paired :
    (user : List ℕ) (end_point : ℕ) (c : UserConnection)
    → Paired c
    → lookup user c.user_connections ≡ none
    → lookup end_point c.connection_users ≡ none
    → Paired (add_user user end_point c)
      × (get_end_point_by_user user (add_user user end_point c) ≡ some end_point)
      × ((other : List ℕ)
          → other ≢ user
          → get_end_point_by_user other (add_user user end_point c) ≡ get_end_point_by_user other c)
unfolding add_user get_end_point_by_user
add_user-Paired user end_point c p h k = (
  λ u e.
      rw
        (
          lookup-insert user u end_point c.user_connections,
          lookup-insert end_point e user c.connection_users,
        )
        (ground (
          arith,
          bytes_eq_iff user u,
          ==_iff end_point e,
          (p u e).0,
          (p u e).1,
          (p user e).1,
          (p u end_point).0,
          (p user e).0,
          (p u end_point).1,
        )),
  rw (lookup-insert user user end_point c.user_connections, bytes_eq_self user),
  λ other ne. rw (
    lookup-insert user other end_point c.user_connections,
    ne→bytes_eq user other (λ q. ne (sym q)),
  ),
)

-- The maps without a pair that they have.
erase_pair :
    (user : List ℕ) (end_point : ℕ) (c : UserConnection)
    → Paired c
    → lookup user c.user_connections ≡ some end_point
    → lookup end_point c.connection_users ≡ some user
    → Paired (record {
      user_connections = erase user c.user_connections;
      connection_users = erase end_point c.connection_users;
    })
erase_pair user end_point c p h k u e =
    rw (lookup-erase user u c.user_connections, lookup-erase end_point e c.connection_users)
      (ground (
        arith,
        bytes_eq_iff user u,
        ==_iff end_point e,
        (p u e).0,
        (p u e).1,
        (p user e).1,
        (p u end_point).0,
        (p user e).0,
        (p u end_point).1,
      ))

-- Nobody else is touched, and the user is gone.
abbrev pub Without : List ℕ → UserConnection → UserConnection → Type 0
Without user c c' =
    (contains user c' ≡ false)
    × ((other : List ℕ)
        → other ≢ user
        → get_end_point_by_user other c' ≡ get_end_point_by_user other c)

erase-Without :
    (user : List ℕ) (c c' : UserConnection)
    → c'.user_connections ≡ erase user c.user_connections
    → Without user c c'
unfolding contains get_end_point_by_user
erase-Without user c c' h = (
  rw (h, contains, lookup-erase user user c.user_connections, bytes_eq_self user),
  λ other ne.
      rw (h, lookup-erase user other c.user_connections, ne→bytes_eq user other (λ q. ne (sym q))),
)

-- The maps without a user and an end point.
without : List ℕ → ℕ → UserConnection → UserConnection
without user end_point c = record {
  user_connections = erase user c.user_connections;
  connection_users = erase end_point c.connection_users;
}

remove_user-some :
    (user : List ℕ) (end_point : ℕ) (c : UserConnection)
    → lookup user c.user_connections ≡ some end_point
    → remove_user user c ≡ without user end_point c
unfolding remove_user without
remove_user-some user end_point c h = rw (h, remove_user)

on_close-some :
    (user : List ℕ) (end_point : ℕ) (c : UserConnection)
    → lookup end_point c.connection_users ≡ some user
    → on_close end_point c ≡ without user end_point c
unfolding on_close remove_end_point without
on_close-some user end_point c h = rw (h, remove_end_point)

-- removeUser of a user keeps the maps inverse to one another, takes the user out and nobody else.
pub remove_user-Paired :
    (user : List ℕ) (c : UserConnection)
    → Paired c
    → Paired (remove_user user c) × Without user c (remove_user user c)
unfolding remove_user contains without
remove_user-Paired user c p = elim (Option-cases (lookup user c.user_connections)) [
  | inl e ↦
      let same : remove_user user c ≡ c = rw (e, remove_user) in
      subst (λ c'. Paired c' × Without user c c') (sym same)
        (p, (rw (e, contains), λ other ne. refl))
  | inr (end_point, e) ↦
      subst (λ c'. Paired c' × Without user c c') (sym (remove_user-some user end_point c e))
        (erase_pair user end_point c p e ((p user end_point).0 e), erase-Without user c _ refl)
]

-- OnClose of an end point that a user has keeps the maps inverse to one another, takes the user
-- out and nobody else.
pub on_close-Paired :
    (user : List ℕ) (end_point : ℕ) (c : UserConnection)
    → Paired c
    → get_end_point_by_user user c ≡ some end_point
    → Paired (on_close end_point c) × Without user c (on_close end_point c)
unfolding get_end_point_by_user without
on_close-Paired user end_point c p h =
    let k = (p user end_point).0 h in
    subst (λ c'. Paired c' × Without user c c') (sym (on_close-some user end_point c k))
      (erase_pair user end_point c p h k, erase-Without user c _ refl)

-- A user who logs in from a second end point while the first is open is lost when the first is
-- closed: the server no longer finds the user, though the second end point is still that user's.
pub on_close-add_user_lost :
    (user : List ℕ) (first second : ℕ) (c : UserConnection)
    → Paired c
    → get_end_point_by_user user c ≡ some first
    → first ≢ second
    → (contains user (on_close first (add_user user second c)) ≡ false)
      × (lookup second (on_close first (add_user user second c)).connection_users ≡ some user)
unfolding get_end_point_by_user add_user without
on_close-add_user_lost user first second c p h ne =
    let c1 = add_user user second c in
    let k : lookup first (insert second user c.connection_users) ≡ some user =
      rw (lookup-insert second first user c.connection_users, ne→== second first (λ q. ne (sym q)))
        ((p user first).0 h) in
    subst (λ c'. (contains user c' ≡ false) × (lookup second c'.connection_users ≡ some user))
      (sym (on_close-some user first c1 k))
      (
        (erase-Without user c1 (without user first c1) refl).0,
        rw (
          lookup-erase first second (insert second user c.connection_users),
          ne→== first second ne,
          lookup-insert second second user c.connection_users,
          ==_self second,
        ),
      )
