-- ===== src/Users/Manager/Stale.antt =====
-- internal/user/manager.go: the generation tells a session's user from a later one.
use go_mumble_server.Base.{
  ℕ, ◌+◌, ◌%◌, ◌^◌, ◌≤◌, ◌<◌, ◌≡◌, ◌∙◌, refl, sym, ap, Bool, true, false, Option, none, some, List,
  [], ◌∷◌, length, All, ltb, leb, ◌==◌, ◌&&◌, not, arith, Bool-cases, Option-cases, inl, inr,
  ==_iff,
}
use go_mumble_server.Base.Maps.{find, insert, delete, find-insert, find-delete}
use go_mumble_server.Acl.Selector.{Text}
use go_mumble_server.Users.Names.{find_name}
use go_mumble_server.Users.Pool.{Pool, alloc}
use go_mumble_server.Users.Manager.{
  User, Manager, refuse, at_address, of_session, add, add_with, remove, remove_at, update_user,
  update_at, update_identity, update_identity_at, revised, name_taken, rename,
}
use go_mumble_server.Users.Manager.{snapshot, snapshot_ref}
use go_mumble_server.Users.Manager.Run.{
  Call, step, run, IsPolite, IsSound, step-IsSound, at_address-cases,
}

-- No user of this session and this generation is connected.
abbrev IsGone : Manager → ℕ → ℕ → Type 0
IsGone m sid g =
    (a : ℕ) (u : User)
    → find sid m.by_session ≡ some a
    → find a m.heap ≡ some u
    → (u.session_generation == g) ≡ false

revised_generation : (u v : User) → (revised u v).session_generation ≡ u.session_generation
unfolding revised
revised_generation u v = ground arith

module _ (m : Manager) (h : IsSound m) (sid g : ℕ) (gone : IsGone m sid g) where
  add_with-IsGone :
      (u : User) (r : Pool × Option ℕ)
      → g ≤ m.generation
      → m.generation + 1 < 2 ^ 64
      → IsGone (add_with m u r).manager sid g
  unfolding add_with
  add_with-IsGone u (pool, none) old fits a v bound stored = gone a v bound stored
  add_with-IsGone u (pool, some new) old fits a v bound stored =
      let b = find-insert new sid m.next_address m.by_session in
      let s =
        find-insert m.next_address a
          (record u {
            session_id = new;
            session_generation = (m.generation + 1) % 2 ^ 64;
            authorization_revision = 1;
          })
          m.heap in
      elim (Bool-cases (new == sid)) [
        | inl same ↦
            let here : m.next_address ≡ a = ground (arith, bound, b, same) in
            let is_new : (record u {
              session_id = new;
              session_generation = (m.generation + 1) % 2 ^ 64;
              authorization_revision = 1;
            })
                ≡ v =
              ground (arith, s, stored, here) in
            let value : v.session_generation ≡ (m.generation + 1) % 2 ^ 64 =
              ap (λ (x : User). x.session_generation) (sym is_new) in
            ground (arith, value, old, fits)
        | inr other ↦
            let bound' : find sid m.by_session ≡ some a = ground (arith, bound, b, other) in
            let before = (h.indexed.sessions sid a bound').old in
            gone a v bound' (ground (arith, s, stored, before))
      ]

  -- A change of one record that keeps its generation.
  changed-IsGone :
      (c : ℕ) (u u' : User) (by_name : List (Text × ℕ))
      → find c m.heap ≡ some u
      → u'.session_generation ≡ u.session_generation
      → IsGone (record m { heap = insert c u' m.heap; by_name = by_name }) sid g
  changed-IsGone c u u' by_name was keeps a v bound stored =
      let s = find-insert c a u' m.heap in
      elim (Bool-cases (c == a)) [
        | inl same ↦
            let here : find a m.heap ≡ some u =
              ap (λ i. find i m.heap) (sym ((==_iff c a).0 same)) ∙ was in
            let is_new : u' ≡ v = ground (arith, s, stored, same) in
            let value : v.session_generation ≡ u.session_generation =
              ap (λ (x : User). x.session_generation) (sym is_new) ∙ keeps in
            ground (arith, value, gone a u bound here)
        | inr other ↦ gone a v bound (ground (arith, s, stored, other))
      ]

  add-IsGone :
      (u : User) → g ≤ m.generation → m.generation + 1 < 2 ^ 64 → IsGone (add m u).manager sid g
  unfolding add
  add-IsGone u old fits = elim (Option-cases (find_name u.name m.by_name)) [
    | inr (a, e) ↦ rw e gone
    | inl e ↦ rw e (elim (Bool-cases (leb m.max_users (length m.by_session) && ltb 0 m.max_users)) [
      | inl full ↦ rw full gone
      | inr room ↦ rw room (add_with-IsGone u (alloc m.pool) old fits)
    ])
  ]

  remove-IsGone :
      (i generation : ℕ) (conditional : Bool)
      → IsGone (remove m i generation conditional).manager sid g
  unfolding remove remove_at
  remove-IsGone i generation conditional = elim (at_address-cases m i) [
    | inl e ↦ rw e gone
    | inr (a, u, bound, stored, e) ↦
        rw e (elim (Bool-cases (conditional && not (u.session_generation == generation))) [
          | inl stale ↦ rw stale gone
          | inr fresh ↦ rw fresh (λ b v f s. gone b v (left b f) s)
        ])
  ]
    where
      left : (b : ℕ) → find sid (delete i m.by_session) ≡ some b → find sid m.by_session ≡ some b
      left b f = ground (arith, f, find-delete i sid m.by_session)

  update_user-IsGone : (i : ℕ) (f : User → User) → IsGone (update_user m i f).manager sid g
  unfolding update_user update_at
  update_user-IsGone i f = elim (at_address-cases m i) [
    | inl e ↦ rw e gone
    | inr (a, u, bound, stored, e) ↦
        rw e (changed-IsGone a u (revised u (f u)) m.by_name stored (revised_generation u (f u)))
  ]

  update_identity-IsGone :
      (i generation : ℕ) (conditional : Bool) (f : User → User)
      → IsGone (update_identity m i generation conditional f).manager sid g
  unfolding update_identity update_identity_at
  update_identity-IsGone i generation conditional f = elim (at_address-cases m i) [
    | inl e ↦ rw e gone
    | inr (a, u, bound, stored, e) ↦
        rw e (elim (Bool-cases (conditional && not (u.session_generation == generation))) [
          | inl stale ↦ rw stale gone
          | inr fresh ↦ rw fresh (elim (Bool-cases (name_taken m i (f u).name)) [
            | inl taken ↦ rw taken gone
            | inr free ↦ rw free (
                changed-IsGone a u (revised u (f u)) (rename a u.name (f u).name m.by_name) stored
                  (revised_generation u (f u)))
          ])
        ])
  ]

  step-IsGone : (c : Call) → g ≤ m.generation → m.generation + 1 < 2 ^ 64 → IsGone (step m c) sid g
  unfolding step
  step-IsGone (Call.adds u) old fits = add-IsGone u old fits
  step-IsGone (Call.removes i generation conditional) old fits =
      remove-IsGone i generation conditional
  step-IsGone (Call.updates i f) old fits = update_user-IsGone i f
  step-IsGone (Call.identifies i generation conditional f) old fits =
      update_identity-IsGone i generation conditional f

-- The count of generations goes up by one or not at all.
abbrev GoesUp : Manager → Manager → Type 0
GoesUp m m' = (m.generation ≤ m'.generation) × (m'.generation ≤ m.generation + 1)

add_with-GoesUp :
    (m : Manager) (u : User) (r : Pool × Option ℕ)
    → m.generation + 1 < 2 ^ 64
    → GoesUp m (add_with m u r).manager
unfolding add_with
add_with-GoesUp m u (pool, none) fits = (omega arith, omega arith)
add_with-GoesUp m u (pool, some sid) fits = (omega (arith, fits), omega (arith, fits))

add-GoesUp : (m : Manager) (u : User) → m.generation + 1 < 2 ^ 64 → GoesUp m (add m u).manager
unfolding add
add-GoesUp m u fits = elim (Option-cases (find_name u.name m.by_name)) [
  | inr (a, e) ↦ rw e (omega arith, omega arith)
  | inl e ↦ rw e (elim (Bool-cases (leb m.max_users (length m.by_session) && ltb 0 m.max_users)) [
    | inl full ↦ rw full (omega arith, omega arith)
    | inr room ↦ rw room (add_with-GoesUp m u (alloc m.pool) fits)
  ])
]

remove_at_generation :
    (m : Manager) (sid g : ℕ) (c : Bool) (o : Option (ℕ × User))
    → (remove_at m sid g c o).manager.generation ≡ m.generation
unfolding remove_at
remove_at_generation m sid g c none = refl
remove_at_generation m sid g c (some (a, u)) = ground arith

update_at_generation :
    (m : Manager) (f : User → User) (o : Option (ℕ × User))
    → (update_at m f o).manager.generation ≡ m.generation
unfolding update_at
update_at_generation m f none = refl
update_at_generation m f (some (a, u)) = refl

update_identity_at_generation :
    (m : Manager) (sid g : ℕ) (c : Bool) (f : User → User) (o : Option (ℕ × User))
    → (update_identity_at m sid g c f o).manager.generation ≡ m.generation
unfolding update_identity_at
update_identity_at_generation m sid g c f none = refl
update_identity_at_generation m sid g c f (some (a, u)) = ground arith

step-GoesUp : (m : Manager) (c : Call) → m.generation + 1 < 2 ^ 64 → GoesUp m (step m c)
unfolding step remove update_user update_identity
step-GoesUp m (Call.adds u) fits = add-GoesUp m u fits
step-GoesUp m (Call.removes i g c) fits =
    let e = remove_at_generation m i g c (of_session m i) in (omega (arith, e), omega (arith, e))
step-GoesUp m (Call.updates i f) fits =
    let e = update_at_generation m f (of_session m i) in (omega (arith, e), omega (arith, e))
step-GoesUp m (Call.identifies i g c f) fits =
    let e = update_identity_at_generation m i g c f (of_session m i) in
    (omega (arith, e), omega (arith, e))

run-IsGone :
    (m : Manager) (cs : List Call) (sid g : ℕ)
    → All IsPolite cs
    → IsSound m
    → g ≤ m.generation
    → m.generation + length cs < 2 ^ 64
    → IsGone m sid g
    → IsGone (run m cs) sid g
unfolding run
run-IsGone m [] sid g polite h old fits gone = gone
run-IsGone m (c ∷ cs) sid g polite h old fits gone =
    let up = step-GoesUp m c (omega (arith, fits)) in
    run-IsGone (step m c) cs sid g polite.1 (step-IsSound m c polite.0 h) (omega (arith, old, up.0))
      (omega (arith, fits, up.1)) (step-IsGone m h sid g gone c old (omega (arith, fits)))

-- What a reference that is gone finds.
snapshot_ref-none : (m : Manager) (sid g : ℕ) → IsGone m sid g → snapshot_ref m sid g ≡ none
unfolding snapshot_ref snapshot
snapshot_ref-none m sid g gone = elim (at_address-cases m sid) [
  | inl e ↦ rw (snapshot_ref, snapshot, e) refl
  | inr (a, u, bound, stored, e) ↦ rw (snapshot_ref, snapshot, e, gone a u bound stored) refl
]

remove-refused : (m : Manager) (sid g : ℕ) → IsGone m sid g → remove m sid g true ≡ refuse m
unfolding remove remove_at
remove-refused m sid g gone = elim (at_address-cases m sid) [
  | inl e ↦ rw e refl
  | inr (a, u, bound, stored, e) ↦ rw (e, gone a u bound stored) refl
]

update_identity-refused :
    (m : Manager) (sid g : ℕ) (f : User → User)
    → IsGone m sid g
    → update_identity m sid g true f ≡ refuse m
unfolding update_identity update_identity_at
update_identity-refused m sid g f gone = elim (at_address-cases m sid) [
  | inl e ↦ rw e refl
  | inr (a, u, bound, stored, e) ↦ rw (e, gone a u bound stored) refl
]

is_gone : (m : Manager) (sid g : ℕ) → snapshot_ref m sid g ≡ none → IsGone m sid g
unfolding snapshot_ref snapshot
is_gone m sid g none_there a u bound stored = elim (Bool-cases (u.session_generation == g)) [
  | inr e ↦ e
  | inl e ↦
      let here : snapshot_ref m sid g ≡ some u =
        rw (snapshot_ref, snapshot, bound, at_address, stored, e) refl in
      ground (arith, none_there, here)
]

-- A reference with a generation of the past that is not connected stays so, whatever calls come, as long
-- as the count of generations does not wrap: it is given no user, removes nobody and renames nobody, though the
-- session's id may be another user's by then.
pub stale_stays :
    (m : Manager) (cs : List Call) (sid g : ℕ) (f : User → User)
    → IsSound m
    → All IsPolite cs
    → g ≤ m.generation
    → m.generation + length cs < 2 ^ 64
    → snapshot_ref m sid g ≡ none
    → let m' = run m cs in
      (snapshot_ref m' sid g ≡ none)
      × (remove m' sid g true ≡ refuse m')
      × (update_identity m' sid g true f ≡ refuse m')
stale_stays m cs sid g f h polite old fits none_there =
    let gone = run-IsGone m cs sid g polite h old fits (is_gone m sid g none_there) in
    let m' = run m cs in
    (
      snapshot_ref-none m' sid g gone,
      remove-refused m' sid g gone,
      update_identity-refused m' sid g f gone,
    )
