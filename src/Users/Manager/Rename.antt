-- ===== src/Users/Manager/Rename.antt =====
-- internal/user/manager.go: a rename moves the name's pointer.
use go_mumble_server.Base.{
  ℕ, ◌≡◌, ◌⊎◌, ◌∙◌, refl, sym, ap, true, false, none, some, List, if◌then◌else◌, ◌==◌, not, arith,
  Bool-cases, inl, inr, ==_iff,
}
use go_mumble_server.Base.Maps.{find, insert}
use go_mumble_server.Acl.Selector.{Text, same_text}
use go_mumble_server.Users.Names.{
  find_name, delete_name, find_name-insert_name, find_name-delete_name, same_text_refl,
  same_text_equal,
}
use go_mumble_server.Users.Manager.{User, Manager, at_address, revised, name_taken, rename}
use go_mumble_server.Users.Manager.Index.{
  IsIndexed, changed-IsIndexed, named_back, named_at, other_name,
}

find_name-rename :
    (n : Text) (a : ℕ) (old new : Text) (m : List (Text × ℕ))
    → same_text old new ≡ false
    → find_name n (rename a old new m)
      ≡ (if same_text new n then some a else (if same_text old n then none else find_name n m))
unfolding rename
find_name-rename n a old new m h = rw h (
    find_name-insert_name new n a (delete_name old m)
    ∙ ground (arith, find_name-delete_name old n m))

rename_same :
    (a : ℕ) (old new : Text) (m : List (Text × ℕ))
    → same_text old new ≡ true
    → rename a old new m ≡ m
unfolding rename
rename_same a old new m h = rw h refl

revised_id : (u v : User) → (revised u v).session_id ≡ v.session_id
unfolding revised
revised_id u v = ground arith

revised_name : (u v : User) → (revised u v).name ≡ v.name
unfolding revised
revised_name u v = ground arith

name_taken_lem :
    (m : Manager) (sid b : ℕ) (name : Text) (w : User)
    → find_name name m.by_name ≡ some b
    → find b m.heap ≡ some w
    → name_taken m sid name ≡ not (w.session_id == sid)
unfolding name_taken
name_taken_lem m sid b name w f g = rw (name_taken, f, at_address, g) refl

module _ (m : Manager) (h : IsIndexed m) (sid a : ℕ) (u : User)
    (bound : find sid m.by_session ≡ some a) (stored : find a m.heap ≡ some u) (v : User)
    (id : v.session_id ≡ u.session_id) (free : name_taken m sid v.name ≡ false) where
  by_name : List (Text × ℕ)
  by_name = rename a u.name v.name m.by_name

  own : find_name v.name by_name ≡ some a
  unfolding by_name
  own = elim (Bool-cases (same_text u.name v.name)) [
    | inl same ↦ rw (rename_same a u.name v.name m.by_name same) (
        ap (λ n. find_name n m.by_name) (sym (same_text_equal u.name v.name same))
        ∙ named_back m h sid a u bound stored)
    | inr other ↦
        ground
          (arith, find_name-rename v.name a u.name v.name m.by_name other, same_text_refl v.name)
  ]

  -- Another session's name is not the new one.
  untaken :
      (n : Text) (b : ℕ)
      → find_name n m.by_name ≡ some b
      → (a == b) ≡ false
      → same_text v.name n ≡ false
  unfolding name_taken
  untaken n b found other = elim (Bool-cases (same_text v.name n)) [
    | inr e ↦ e
    | inl same ↦
        let t = h.names n b found in
        let s = h.sessions t.sid b t.bound in
        let here : find_name v.name m.by_name ≡ some b =
          ap (λ k. find_name k m.by_name) (same_text_equal v.name n same) ∙ found in
        let own_id : (s.user.session_id == sid) ≡ true =
          ground (arith, free, name_taken_lem m sid b v.name s.user here s.stored) in
        let one : t.sid ≡ sid = sym s.id ∙ (==_iff s.user.session_id sid).0 own_id in
        let g : find sid m.by_session ≡ some b =
          ap (λ i. find i m.by_session) (sym one) ∙ t.bound in
        ground (arith, bound, g, other)
  ]

  kept :
      (n : Text) (b : ℕ)
      → find_name n m.by_name ≡ some b
      → (a == b) ≡ false
      → find_name n by_name ≡ some b
  unfolding by_name
  kept n b found other = elim (Bool-cases (same_text u.name v.name)) [
    | inl same ↦ rw (rename_same a u.name v.name m.by_name same) found
    | inr differ ↦ ground (
      arith,
      find_name-rename n a u.name v.name m.by_name differ,
      untaken n b found other,
      other_name m h sid a u bound stored n b found other,
      found,
    )
  ]

  back :
      (n : Text) (b : ℕ)
      → find_name n by_name ≡ some b
      → (((a == b) ≡ true) × (v.name ≡ n)) ⊎ (((a == b) ≡ false) × (find_name n m.by_name ≡ some b))
  unfolding by_name
  back n b found = elim (Bool-cases (same_text u.name v.name)) [
    | inl same ↦
        let old : find_name n m.by_name ≡ some b =
          rw (sym (rename_same a u.name v.name m.by_name same)) found in
        elim (Bool-cases (a == b)) [
          | inl one ↦ inl (
            one,
            sym (same_text_equal u.name v.name same)
                ∙ named_at m h sid a u bound stored n b old one,
          )
          | inr other ↦ inr (other, old)
        ]
    | inr differ ↦
        let f = sym (find_name-rename n a u.name v.name m.by_name differ) ∙ found in
        elim (Bool-cases (same_text v.name n)) [
          | inl new ↦ inl (ground (arith, f, new), same_text_equal v.name n new)
          | inr unnew ↦
              let unold : same_text u.name n ≡ false = ground (arith, f, unnew) in
              let there : find_name n m.by_name ≡ some b = ground (arith, f, unnew, unold) in
              inr (apart n b there unold, there)
        ]
  ]
    where
      apart :
          (n : Text) (b : ℕ)
          → find_name n m.by_name ≡ some b
          → same_text u.name n ≡ false
          → (a == b) ≡ false
      apart n b there unold = elim (Bool-cases (a == b)) [
        | inr e ↦ e
        | inl one ↦ ground (
          arith,
          unold,
          same_text_refl u.name,
          ap (same_text u.name) (named_at m h sid a u bound stored n b there one),
        )
      ]

  pub renamed-IsIndexed : IsIndexed (record m {
    heap = insert a (revised u v) m.heap;
    by_name = rename a u.name v.name m.by_name;
  })
  unfolding by_name
  renamed-IsIndexed =
      changed-IsIndexed m h sid a u bound stored (revised u v) (rename a u.name v.name m.by_name)
        (revised_id u v ∙ id) (ap (λ n. find_name n by_name) (revised_name u v) ∙ own) kept
        (λ n b found. elim (back n b found) [
          | inl (one, e) ↦ inl (one, revised_name u v ∙ e)
          | inr other ↦ inr other
        ])
