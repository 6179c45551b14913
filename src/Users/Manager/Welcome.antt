-- ===== src/Users/Manager/Welcome.antt =====
-- internal/user/manager.go: a server that is not full takes a user with a name of its own.
use go_mumble_server.Base.{
  ℕ, ◌+◌, ◌*◌, ◌%◌, ◌^◌, ◌≤◌, ◌<◌, ◌≡◌, ◌∙◌, refl, sym, ap, false, Option, none, some, length, leb,
  arith, Option-cases, inl, inr,
}
use go_mumble_server.Base.Maps.{find, find-insert}
use go_mumble_server.Base.Sets.{contains}
use go_mumble_server.Users.Names.{find_name}
use go_mumble_server.Users.Pool.{Pool, alloc}
use go_mumble_server.Users.Pool.Fresh.{Given, alloc-Given}
use go_mumble_server.Users.Manager.{User, Manager, Outcome, at_address, add, add_with}
use go_mumble_server.Users.Manager.Index.{missing}
use go_mumble_server.Users.Manager.{snapshot}
use go_mumble_server.Users.Manager.Run.{IsSound}

-- A user who was taken: the id is not 0 and was no session's, and the record is found under it.
pub record Taken (m : Manager) (u : User) (o : Outcome) : Type 0 where
  pub sid : ℕ
  pub positive : 0 < sid
  pub small : sid ≤ m.max_users * 2
  pub new : find sid m.by_session ≡ none
  pub user : User
  pub given : o.user ≡ some user
  pub id : user.session_id ≡ sid
  pub name : user.name ≡ u.name
  pub generation : user.session_generation ≡ (m.generation + 1) % 2 ^ 64
  pub found : snapshot o.manager sid ≡ some user

snapshot_stored :
    (m : Manager) (sid a : ℕ) (v : User)
    → find sid m.by_session ≡ some a
    → find a m.heap ≡ some v
    → snapshot m sid ≡ some v
unfolding snapshot
snapshot_stored m sid a v e f = rw (snapshot, e, at_address, f) refl

abbrev stored_user : Manager → User → ℕ → User
stored_user m u sid = record u {
  session_id = sid;
  session_generation = (m.generation + 1) % 2 ^ 64;
  authorization_revision = 1;
}

module _ (m : Manager) (h : IsSound m) (u : User) where
  add_with-Taken : (r : Pool × Option ℕ) → Given m.pool r → Taken m u (add_with m u r)
  unfolding add_with
  add_with-Taken (pool, none) g = elim (missing none g.sid refl g.gives) [ ]
  add_with-Taken (pool, some sid) g =
      let one : g.sid ≡ sid = ground (arith, g.gives) in
      let unused : contains m.pool.in_use sid ≡ false =
        ap (contains m.pool.in_use) (sym one) ∙ g.was_free in
      record {
        sid = sid;
        positive = omega (arith, one, g.positive);
        small = omega (arith, one, g.small, h.limit);
        new = elim (Option-cases (find sid m.by_session)) [
          | inl e ↦ e
          | inr (a, e) ↦ ground (arith, unused, (h.indexed.sessions sid a e).in_use)
        ];
        user = stored_user m u sid;
        given = refl;
        id = refl;
        name = refl;
        generation = refl;
        found =
            snapshot_stored (add_with m u (pool, some sid)).manager sid m.next_address
              (stored_user m u sid)
              (ground (arith, find-insert sid sid m.next_address m.by_session))
              (ground
                (arith, find-insert m.next_address m.next_address (stored_user m u sid) m.heap));
      }

-- While the server is not full, a user whose name no session has is taken.
pub add-Taken :
    (m : Manager) (u : User)
    → IsSound m
    → find_name u.name m.by_name ≡ none
    → length m.by_session < m.max_users
    → Taken m u (add m u)
unfolding add
add-Taken m u h unnamed room =
    let open_ : leb m.max_users (length m.by_session) ≡ false = ground (arith, room) in
    rw (unnamed, open_)
      (add_with-Taken m h u (alloc m.pool)
        (alloc-Given m.pool h.pool (omega (arith, room, h.limit, h.counted))))
