-- ===== src/Users/Manager/Run.antt =====
-- internal/user/manager.go: the calls one after the other.
use go_mumble_server.Base.{
  ℕ, suc, ◌+◌, ◌*◌, ◌%◌, ◌^◌, ◌<◌, ◌≡◌, ◌⊎◌, ◌∙◌, refl, sym, ap, Bool, true, false, Option, none,
  some, List, [], ◌∷◌, length, All, ltb, leb, ◌==◌, ◌&&◌, ◌||◌, not, arith, Bool-cases,
  Option-cases, inl, inr,
}
use go_mumble_server.Base.Maps.{
  find, delete, Distinct, Distinct-insert, Distinct-delete, length-insert_new, length-delete_one,
}
use go_mumble_server.Base.Sets.{contains, add as add_id, contains-add, contains-remove}
use go_mumble_server.Acl.Selector.{Text}
use go_mumble_server.Users.Names.{find_name}
use go_mumble_server.Users.Pool.{Pool, alloc, take_id, release}
use go_mumble_server.Base.Counting.{length-add_one, length-remove_one}
use go_mumble_server.Users.Pool.Fresh.{IsPool, Given, alloc-Given, release-IsPool, new_pool-IsPool}
use go_mumble_server.Users.Manager.{
  User, Manager, new_manager, at_address, of_session, add, add_with, remove, remove_at, update_user,
  update_at, update_identity, update_identity_at, revised, name_taken,
}
use go_mumble_server.Users.Manager.Rename.{renamed-IsIndexed}
use go_mumble_server.Users.Manager.Index.{
  missing, IsIndexed, added-IsIndexed, removed-IsIndexed, changed-IsIndexed, named_back, named_at,
}

-- The calls that change the state.
pub data Call : Type 0 where
  adds : User → Call
  removes : ℕ → ℕ → Bool → Call
  updates : ℕ → (User → User) → Call
  identifies : ℕ → ℕ → Bool → (User → User) → Call

unfoldable pub step : Manager → Call → Manager
unfolding add remove update_user update_identity
step m (Call.adds u) = (add m u).manager
step m (Call.removes sid generation conditional) = (remove m sid generation conditional).manager
step m (Call.updates sid f) = (update_user m sid f).manager
step m (Call.identifies sid generation conditional f) =
    (update_identity m sid generation conditional f).manager

unfoldable pub run : Manager → List Call → Manager
unfolding step
run m [] = m
run m (c ∷ cs) = run (step m c) cs

-- What the callers' functions keep: the session's id, and the name unless the call is one that renames.
abbrev pub IsPolite : Call → Type 0
IsPolite (Call.adds u) = Unit {0}
IsPolite (Call.removes sid generation conditional) = Unit {0}
IsPolite (Call.updates sid f) =
    (u : User) → ((f u).session_id ≡ u.session_id) × ((f u).name ≡ u.name)
IsPolite (Call.identifies sid generation conditional f) =
    (u : User) → (f u).session_id ≡ u.session_id

-- The maps agree, and so do the pool and the limit.
pub record IsSound (m : Manager) : Type 0 where
  pub indexed : IsIndexed m
  pub pool : IsPool m.pool
  pub limit : m.pool.max ≡ m.max_users * 2
  pub once : Distinct m.by_session
  pub counted : length m.pool.in_use ≡ length m.by_session

revised_id : (u v : User) → (revised u v).session_id ≡ v.session_id
unfolding revised
revised_id u v = ground arith

revised_name : (u v : User) → (revised u v).name ≡ v.name
unfolding revised
revised_name u v = ground arith

release_kept :
    (p : Pool) (sid j : ℕ)
    → (sid == j) ≡ false
    → contains p.in_use j ≡ true
    → contains (release p sid).in_use j ≡ true
unfolding release
release_kept p sid j other h = ground (arith, contains-remove sid j p.in_use)

max-release : (p : Pool) (sid : ℕ) → (release p sid).max ≡ p.max
unfolding release
max-release p sid = ground arith

length-release :
    (p : Pool) (sid : ℕ)
    → IsPool p
    → contains p.in_use sid ≡ true
    → suc (length (release p sid).in_use) ≡ length p.in_use
unfolding release
length-release p sid h e = rw e (length-remove_one sid p.in_use h.in_use_once e)

max-take_id : (p : Pool) (free : List ℕ) → (take_id p free).0.max ≡ p.max
unfolding take_id
max-take_id p [] = ground arith
max-take_id p (sid ∷ free) = refl

max-alloc : (p : Pool) → (alloc p).0.max ≡ p.max
unfolding alloc
max-alloc p = ground (arith, max-take_id p p.free)

-- A pool that is full gives nothing and stays as it is.
alloc_full : (p : Pool) → IsPool p → leb p.max (length p.in_use) ≡ true → alloc p ≡ (p, none)
unfolding alloc
alloc_full p h full =
    let limited : ltb 0 p.max ≡ true = ground (arith, h.limited) in rw (full, limited) refl

-- What a session's pointer leads to, with the reason.
pub at_address-cases :
    (m : Manager) (sid : ℕ)
    → (of_session m sid ≡ none)
      ⊎ ((a : ℕ) × (u : User) × (find sid m.by_session ≡ some a)
          × (find a m.heap ≡ some u)
          × (of_session m sid ≡ some (a, u)))
at_address-cases m sid = elim (Option-cases (find sid m.by_session)) [
  | inl e ↦ inl (rw e refl)
  | inr (a, e) ↦ elim (Option-cases (find a m.heap)) [
    | inl f ↦ inl (rw (e, at_address, f) refl)
    | inr (u, f) ↦ inr (a, u, e, f, rw (e, at_address, f) refl)
  ]
]

module _ (m : Manager) (h : IsSound m) where
  add_with-IsSound :
      (u : User)
      → find_name u.name m.by_name ≡ none
      → (r : Pool × Option ℕ) → Given m.pool r
      → r.0.max ≡ m.pool.max
      → IsSound (add_with m u r).manager
  unfolding add_with
  add_with-IsSound u e (pool, none) g k = elim (missing none g.sid refl g.gives) [ ]
  add_with-IsSound u e (pool, some sid) g k = record {
    indexed =
        added-IsIndexed m h.indexed sid
          (record u {
            session_id = sid;
            session_generation = (m.generation + 1) % 2 ^ 64;
            authorization_revision = 1;
          })
          pool ((m.generation + 1) % 2 ^ 64) unused e refl more;
    pool = g.still;
    limit = k ∙ h.limit;
    once = Distinct-insert sid m.next_address m.by_session h.once;
    counted =
        ap (λ (xs : List ℕ). length xs) (g.uses ∙ ap (λ i. add_id i m.pool.in_use) one)
        ∙ length-add_one sid m.pool.in_use unused
        ∙ ap suc h.counted
        ∙ sym (length-insert_new sid m.next_address m.by_session unbound);
  }
    where
      one : g.sid ≡ sid
      one = ground (arith, g.gives)

      unused : contains m.pool.in_use sid ≡ false
      unused = ap (contains m.pool.in_use) (sym one) ∙ g.was_free

      unbound : find sid m.by_session ≡ none
      unbound = elim (Option-cases (find sid m.by_session)) [
        | inl e ↦ e
        | inr (a, e) ↦ ground (arith, unused, (h.indexed.sessions sid a e).in_use)
      ]

      more : (j : ℕ) → contains pool.in_use j ≡ (sid == j || contains m.pool.in_use j)
      more j =
          ap (λ s. contains s j) (g.uses ∙ ap (λ i. add_id i m.pool.in_use) one)
          ∙ contains-add sid j m.pool.in_use

  add-IsSound : (u : User) → IsSound (add m u).manager
  unfolding add add_with
  add-IsSound u = elim (Option-cases (find_name u.name m.by_name)) [
    | inr (a, e) ↦ rw e h
    | inl e ↦ rw e (elim (Bool-cases (leb m.max_users (length m.by_session) && ltb 0 m.max_users)) [
      | inl full ↦ rw full h
      | inr open_ ↦ rw open_ (elim (Bool-cases (leb m.pool.max (length m.pool.in_use))) [
        | inl full ↦ rw (alloc_full m.pool h.pool full) (record {
          indexed = h.indexed;
          pool = h.pool;
          limit = h.limit;
          once = h.once;
          counted = h.counted;
        })
        | inr room ↦
            let g = alloc-Given m.pool h.pool (ground (arith, room)) in
            add_with-IsSound u e (alloc m.pool) g (max-alloc m.pool)
      ])
    ])
  ]

  remove-IsSound :
      (sid generation : ℕ) (conditional : Bool)
      → IsSound (remove m sid generation conditional).manager
  unfolding remove remove_at
  remove-IsSound sid generation conditional = elim (at_address-cases m sid) [
    | inl e ↦ rw e h
    | inr (a, u, bound, stored, e) ↦
        rw e (elim (Bool-cases (conditional && not (u.session_generation == generation))) [
          | inl stale ↦ rw stale h
          | inr fresh ↦ rw fresh (record {
            indexed =
                removed-IsIndexed m h.indexed sid a u bound stored (release m.pool sid)
                  (release_kept m.pool sid);
            pool = release-IsPool m.pool sid h.pool;
            limit = max-release m.pool sid ∙ h.limit;
            once = Distinct-delete sid m.by_session h.once;
            counted = fewer a u bound stored;
          })
        ])
  ]
    where
      fewer :
          (a : ℕ) (u : User)
          → find sid m.by_session ≡ some a
          → find a m.heap ≡ some u
          → length (release m.pool sid).in_use ≡ length (delete sid m.by_session)
      fewer a u bound stored =
          let s = h.indexed.sessions sid a bound in
          let shorter = length-delete_one sid m.by_session h.once bound in
          omega (arith, length-release m.pool sid h.pool s.in_use, shorter, h.counted)

  update_user-IsSound :
      (sid : ℕ) (f : User → User)
      → IsPolite (Call.updates sid f)
      → IsSound (update_user m sid f).manager
  unfolding update_user update_at
  update_user-IsSound sid f polite = elim (at_address-cases m sid) [
    | inl e ↦ rw e h
    | inr (a, u, bound, stored, e) ↦ rw e (record {
      indexed =
          changed-IsIndexed m h.indexed sid a u bound stored (revised u (f u)) m.by_name
            (revised_id u (f u) ∙ (polite u).0) (own u a bound stored) (λ n b found other. found)
            (back u a bound stored);
      pool = h.pool;
      limit = h.limit;
      once = h.once;
      counted = h.counted;
    })
  ]
    where
      same_name : (u : User) → (revised u (f u)).name ≡ u.name
      same_name u = revised_name u (f u) ∙ (polite u).1

      own :
          (u : User) (a : ℕ)
          → find sid m.by_session ≡ some a
          → find a m.heap ≡ some u
          → find_name (revised u (f u)).name m.by_name ≡ some a
      own u a bound stored =
          ap (λ n. find_name n m.by_name) (same_name u)
          ∙ named_back m h.indexed sid a u bound stored

      back :
          (u : User) (a : ℕ)
          → find sid m.by_session ≡ some a
          → find a m.heap ≡ some u
          → (n : Text) (b : ℕ) → find_name n m.by_name ≡ some b
          → (((a == b) ≡ true) × ((revised u (f u)).name ≡ n))
            ⊎ (((a == b) ≡ false) × (find_name n m.by_name ≡ some b))
      back u a bound stored n b found = elim (Bool-cases (a == b)) [
        | inl same ↦
            inl (same, same_name u ∙ named_at m h.indexed sid a u bound stored n b found same)
        | inr other ↦ inr (other, found)
      ]

  update_identity-IsSound :
      (sid generation : ℕ) (conditional : Bool) (f : User → User)
      → IsPolite (Call.identifies sid generation conditional f)
      → IsSound (update_identity m sid generation conditional f).manager
  unfolding update_identity update_identity_at
  update_identity-IsSound sid generation conditional f polite = elim (at_address-cases m sid) [
    | inl e ↦ rw e h
    | inr (a, u, bound, stored, e) ↦
        rw e (elim (Bool-cases (conditional && not (u.session_generation == generation))) [
          | inl stale ↦ rw stale h
          | inr fresh ↦ rw fresh (elim (Bool-cases (name_taken m sid (f u).name)) [
            | inl taken ↦ rw taken h
            | inr free ↦ rw free (record {
              indexed = renamed-IsIndexed m h.indexed sid a u bound stored (f u) (polite u) free;
              pool = h.pool;
              limit = h.limit;
              once = h.once;
              counted = h.counted;
            })
          ])
        ])
  ]

pub step-IsSound : (m : Manager) (c : Call) → IsPolite c → IsSound m → IsSound (step m c)
unfolding step
step-IsSound m (Call.adds u) polite h = add-IsSound m h u
step-IsSound m (Call.removes sid generation conditional) polite h =
    remove-IsSound m h sid generation conditional
step-IsSound m (Call.updates sid f) polite h = update_user-IsSound m h sid f polite
step-IsSound m (Call.identifies sid generation conditional f) polite h =
    update_identity-IsSound m h sid generation conditional f polite

pub run-IsSound : (m : Manager) (cs : List Call) → All IsPolite cs → IsSound m → IsSound (run m cs)
unfolding run
run-IsSound m [] polite h = h
run-IsSound m (c ∷ cs) polite h = run-IsSound (step m c) cs polite.1 (step-IsSound m c polite.0 h)

pub new_manager-IsSound :
    (max_users : ℕ) → 0 < max_users → max_users < 2 ^ 30 → IsSound (new_manager max_users)
unfolding new_manager
new_manager-IsSound max_users h k = record {
  indexed = record {
    sessions = λ sid a f. elim (missing (find sid []) a (unfold find in refl) f) [ ];
    names = λ n a f. elim (missing (find_name n []) a (unfold find_name in refl) f) [ ];
  };
  pool = new_pool-IsPool (max_users * 2) (omega arith) (omega arith);
  limit = refl;
  once = tt;
  counted = refl;
}

-- On a server with a limit, after any calls: a session's pointer leads to a record that has the session's
-- id and whose name leads back to it, a name's pointer leads to a session of that name, and no session's
-- id is 0 or free.
pub run_new-IsSound :
    (max_users : ℕ) (cs : List Call)
    → 0 < max_users
    → max_users < 2 ^ 30
    → All IsPolite cs
    → IsSound (run (new_manager max_users) cs)
run_new-IsSound max_users cs h k polite =
    run-IsSound (new_manager max_users) cs polite (new_manager-IsSound max_users h k)
