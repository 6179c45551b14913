-- ===== src/Users/Manager/Index.antt =====
-- internal/user/manager.go: the two maps lead to the same records, and the pool knows the sessions.
use go_mumble_server.Base.{
  ℕ, ◌+◌, ◌<◌, ◌≡◌, ◌⊎◌, ◌∙◌, sym, ap, true, false, Option, none, some, List, ◌==◌, ◌||◌, arith,
  Bool-cases, inl, inr, ==_iff,
}
use mathlib.Core.Path.{subst}
use go_mumble_server.Base.Maps.{find, insert, delete, find-insert, find-delete}
use go_mumble_server.Base.Sets.{contains}
use go_mumble_server.Acl.Selector.{Text, same_text}
use go_mumble_server.Users.Names.{
  find_name, insert_name, delete_name, find_name-insert_name, find_name-delete_name, same_text_refl,
  same_text_equal,
}
use go_mumble_server.Users.Pool.{Pool}
use go_mumble_server.Users.Manager.{User, Manager}

-- A session's pointer leads to a record that has the session's id and whose name leads back to it.
pub record Session (m : Manager) (sid a : ℕ) : Type 0 where
  pub user : User
  pub stored : find a m.heap ≡ some user
  pub id : user.session_id ≡ sid
  pub named : find_name user.name m.by_name ≡ some a
  pub in_use : contains m.pool.in_use sid ≡ true
  pub old : a < m.next_address

-- A name's pointer is that of a session whose user has the name.
pub record Named (m : Manager) (name : Text) (a : ℕ) : Type 0 where
  pub sid : ℕ
  pub user : User
  pub bound : find sid m.by_session ≡ some a
  pub stored : find a m.heap ≡ some user
  pub is_name : user.name ≡ name

pub record IsIndexed (m : Manager) : Type 0 where
  pub sessions : (sid a : ℕ) → find sid m.by_session ≡ some a → Session m sid a
  pub names : (name : Text) (a : ℕ) → find_name name m.by_name ≡ some a → Named m name a

pub missing {ℓ} : {A : Type ℓ} (o : Option A) (a : A) → o ≡ none → o ≡ some a → ⊥
missing o a e f = cc

module _ (m : Manager) (h : IsIndexed m) where
  -- Two sessions never share a record.
  pub one_session :
      (i j a : ℕ) → find i m.by_session ≡ some a → find j m.by_session ≡ some a → i ≡ j
  one_session i j a f g =
      let s = h.sessions i a f in
      let t = h.sessions j a g in
      let same : s.user ≡ t.user = ground (arith, s.stored, t.stored) in
      sym s.id ∙ ap (λ (u : User). u.session_id) same ∙ t.id

  module _ (sid a : ℕ) (u : User) (bound : find sid m.by_session ≡ some a)
      (stored : find a m.heap ≡ some u) where
    pub named_back : find_name u.name m.by_name ≡ some a
    named_back =
        let s = h.sessions sid a bound in
        let same : s.user ≡ u = ground (arith, s.stored, stored) in
        subst (λ (v : User). find_name v.name m.by_name ≡ some a) same s.named

    other_session : (j b : ℕ) → find j m.by_session ≡ some b → (sid == j) ≡ false → (a == b) ≡ false
    other_session j b f other = elim (Bool-cases (a == b)) [
      | inl same ↦
          let f' : find j m.by_session ≡ some a = f ∙ ap some (sym ((==_iff a b).0 same)) in
          let clash : sid ≡ j = one_session sid j a bound f' in ground (arith, other, clash)
      | inr e ↦ e
    ]

    pub other_name :
        (n : Text) (b : ℕ)
        → find_name n m.by_name ≡ some b
        → (a == b) ≡ false
        → same_text u.name n ≡ false
    other_name n b f other = elim (Bool-cases (same_text u.name n)) [
      | inl same ↦
          let back : find_name n m.by_name ≡ some a =
            ap (λ k. find_name k m.by_name) (sym (same_text_equal u.name n same)) ∙ named_back in
          ground (arith, other, f, back)
      | inr e ↦ e
    ]

    same_record : (b : ℕ) (v : User) → (a == b) ≡ true → find b m.heap ≡ some v → u ≡ v
    same_record b v same f =
        let g : find b m.heap ≡ some u =
          ap (λ c. find c m.heap) (sym ((==_iff a b).0 same)) ∙ stored in
        ground (arith, f, g)

    -- The names of the session at hand.
    name_of : (n : Text) (b : ℕ) (t : Named m n b) → (sid == t.sid) ≡ true → u.name ≡ n
    name_of n b t same =
        let g : find t.sid m.by_session ≡ some a =
          ap (λ i. find i m.by_session) (sym ((==_iff sid t.sid).0 same)) ∙ bound in
        let one : (a == b) ≡ true = ground (arith, g, t.bound) in
        ap (λ (v : User). v.name) (same_record b t.user one t.stored) ∙ t.is_name

    pub named_at :
        (n : Text) (b : ℕ) → find_name n m.by_name ≡ some b → (a == b) ≡ true → u.name ≡ n
    named_at n b f same =
        let t = h.names n b f in
        ap (λ (v : User). v.name) (same_record b t.user same t.stored) ∙ t.is_name

    pub removed-IsIndexed :
        (pool : Pool)
        → ((j : ℕ)
            → (sid == j) ≡ false
            → contains m.pool.in_use j ≡ true
            → contains pool.in_use j ≡ true)
        → IsIndexed (record m {
          by_session = delete sid m.by_session;
          by_name = delete_name u.name m.by_name;
          pool = pool;
        })
    removed-IsIndexed pool kept = record {
      sessions = λ j b f. elim (Bool-cases (sid == j)) [
        | inl same ↦
            elim (missing (find j (delete sid m.by_session)) b
              (ground (arith, same, find-delete sid j m.by_session)) f) [ ]
        | inr other ↦
            kept_session j b (ground (arith, f, other, find-delete sid j m.by_session)) other
      ];
      names = λ n b f. elim (Bool-cases (same_text u.name n)) [
        | inl same ↦
            elim (missing (find_name n (delete_name u.name m.by_name)) b
              (ground (arith, same, find_name-delete_name u.name n m.by_name)) f) [ ]
        | inr other ↦
            kept_name n b (ground (arith, f, other, find_name-delete_name u.name n m.by_name)) other
      ];
    }
      where
        m' : Manager
        m' = record m {
          by_session = delete sid m.by_session;
          by_name = delete_name u.name m.by_name;
          pool = pool;
        }

        kept_session :
            (j b : ℕ) → find j m.by_session ≡ some b → (sid == j) ≡ false → Session m' j b
        kept_session j b f other =
            let s = h.sessions j b f in
            let apart = other_name s.user.name b s.named (other_session j b f other) in
            record {
              user = s.user;
              stored = s.stored;
              id = s.id;
              named =
                  ground
                    (arith, s.named, apart, find_name-delete_name u.name s.user.name m.by_name);
              in_use = kept j other s.in_use;
              old = s.old;
            }

        kept_name :
            (n : Text) (b : ℕ)
            → find_name n m.by_name ≡ some b
            → same_text u.name n ≡ false
            → Named m' n b
        kept_name n b f other =
            let t = h.names n b f in
            let apart : (sid == t.sid) ≡ false = elim (Bool-cases (sid == t.sid)) [
              | inl same ↦
                  ground (
                    arith,
                    other,
                    ap (same_text u.name) (name_of n b t same),
                    same_text_refl u.name,
                  )
              | inr e ↦ e
            ] in
            record {
              sid = t.sid;
              user = t.user;
              bound = ground (arith, t.bound, apart, find-delete sid t.sid m.by_session);
              stored = t.stored;
              is_name = t.is_name;
            }

    -- A change of the record that keeps its session's id, with the names that follow it.
    pub changed-IsIndexed :
        (u' : User) (by_name : List (Text × ℕ))
        → u'.session_id ≡ u.session_id
        → find_name u'.name by_name ≡ some a
        → ((n : Text) (b : ℕ)
            → find_name n m.by_name ≡ some b
            → (a == b) ≡ false
            → find_name n by_name ≡ some b)
        → ((n : Text) (b : ℕ)
            → find_name n by_name ≡ some b
            → (((a == b) ≡ true) × (u'.name ≡ n))
              ⊎ (((a == b) ≡ false) × (find_name n m.by_name ≡ some b)))
        → IsIndexed (record m { heap = insert a u' m.heap; by_name = by_name })
    changed-IsIndexed u' by_name id own kept back = record {
      sessions = λ j b f.
          let s = h.sessions j b f in
          elim (Bool-cases (a == b)) [
            | inl same ↦ record {
              user = u';
              stored = ground (arith, same, find-insert a b u' m.heap);
              id = id ∙ ap (λ (v : User). v.session_id) (same_record b s.user same s.stored) ∙ s.id;
              named = own ∙ ap some ((==_iff a b).0 same);
              in_use = s.in_use;
              old = s.old;
            }
            | inr other ↦ record {
              user = s.user;
              stored = ground (arith, s.stored, other, find-insert a b u' m.heap);
              id = s.id;
              named = kept s.user.name b s.named other;
              in_use = s.in_use;
              old = s.old;
            }
          ];
      names = λ n b f. elim (back n b f) [
        | inl (same, is_name) ↦ record {
          sid = sid;
          user = u';
          bound = bound ∙ ap some ((==_iff a b).0 same);
          stored = ground (arith, same, find-insert a b u' m.heap);
          is_name = is_name;
        }
        | inr (other, g) ↦
            let t = h.names n b g in
            record {
              sid = t.sid;
              user = t.user;
              bound = t.bound;
              stored = ground (arith, t.stored, other, find-insert a b u' m.heap);
              is_name = t.is_name;
            }
      ];
    }

  -- A record at a new address, for a session and a name that are not bound.
  pub added-IsIndexed :
      (sid : ℕ) (u : User) (pool : Pool) (generation : ℕ)
      → contains m.pool.in_use sid ≡ false
      → find_name u.name m.by_name ≡ none
      → u.session_id ≡ sid
      → ((j : ℕ) → contains pool.in_use j ≡ (sid == j || contains m.pool.in_use j))
      → IsIndexed (record m {
        heap = insert m.next_address u m.heap;
        next_address = m.next_address + 1;
        by_session = insert sid m.next_address m.by_session;
        by_name = insert_name u.name m.next_address m.by_name;
        pool = pool;
        generation = generation;
      })
  added-IsIndexed sid u pool g unused unnamed id more = record {
    sessions = λ j b f. elim (Bool-cases (sid == j)) [
      | inl same ↦
          let here : m.next_address ≡ b =
            ground (arith, f, same, find-insert sid j m.next_address m.by_session) in
          record {
            user = u;
            stored = ground (arith, here, find-insert m.next_address b u m.heap);
            id = id ∙ (==_iff sid j).0 same;
            named = ground (
              arith,
              here,
              same_text_refl u.name,
              find_name-insert_name u.name u.name m.next_address m.by_name,
            );
            in_use = ground (arith, same, more j);
            old = omega (arith, here);
          }
      | inr other ↦
          let f' : find j m.by_session ≡ some b =
            ground (arith, f, other, find-insert sid j m.next_address m.by_session) in
          let s = h.sessions j b f' in
          let apart : same_text u.name s.user.name ≡ false =
            elim (Bool-cases (same_text u.name s.user.name)) [
              | inl e ↦ ground (
                arith,
                s.named,
                unnamed,
                ap (λ i. find_name i m.by_name) (same_text_equal u.name s.user.name e),
              )
              | inr e ↦ e
            ] in
          record {
            user = s.user;
            stored = ground (arith, s.stored, s.old, find-insert m.next_address b u m.heap);
            id = s.id;
            named = ground (
              arith,
              apart,
              s.named,
              find_name-insert_name u.name s.user.name m.next_address m.by_name,
            );
            in_use = ground (arith, s.in_use, more j);
            old = omega (arith, s.old);
          }
    ];
    names = λ n b f. elim (Bool-cases (same_text u.name n)) [
      | inl same ↦
          let here : m.next_address ≡ b =
            ground (arith, f, same, find_name-insert_name u.name n m.next_address m.by_name) in
          record {
            sid = sid;
            user = u;
            bound = ground (arith, here, find-insert sid sid m.next_address m.by_session);
            stored = ground (arith, here, find-insert m.next_address b u m.heap);
            is_name = same_text_equal u.name n same;
          }
      | inr other ↦
          let f' : find_name n m.by_name ≡ some b =
            ground (arith, f, other, find_name-insert_name u.name n m.next_address m.by_name) in
          let t = h.names n b f' in
          let s = h.sessions t.sid b t.bound in
          let apart : (sid == t.sid) ≡ false = elim (Bool-cases (sid == t.sid)) [
            | inl e ↦
                ground
                  (arith, s.in_use, unused, ap (contains m.pool.in_use) ((==_iff sid t.sid).0 e))
            | inr e ↦ e
          ] in
          record {
            sid = t.sid;
            user = t.user;
            bound =
                ground (arith, apart, t.bound, find-insert sid t.sid m.next_address m.by_session);
            stored = ground (arith, t.stored, s.old, find-insert m.next_address b u m.heap);
            is_name = t.is_name;
          }
    ];
  }
