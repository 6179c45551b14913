-- ===== src/Channel/Edit/Clean.antt =====
-- internal/channel/manager.go: what the changes of the tree keep, one after the other, and the end of the
-- cleaning of temporary channels.
use go_mumble_server.Base.{
  ℕ, zero, suc, ◌<◌, ◌+◌, ◌≡◌, ◌∙◌, refl, sym, ap, Bool, true, false, none, some, [], ◌∷◌, length,
  ◌==◌, ◌||◌, not, arith, Bool-cases, Option-cases, inl, inr, ==_iff,
}
use mathlib.Core.Path.{subst}
use go_mumble_server.Base.Maps.{
  find, delete, find-insert, find-delete, Distinct, length-delete_one, length-insert_old,
}
use go_mumble_server.Base.Sets.{is_empty}
use go_mumble_server.Channel.{Node, Tree, has_channel, root_id}
use go_mumble_server.Channel.Edit.{drop_child, detach}
use go_mumble_server.Channel.Edit.{first_empty, clean_rounds, clean_empty_temp_channels}
use go_mumble_server.Channel.Edit.Family.{IsFamily, missing}
use go_mumble_server.Channel.Edit.Detach.{detach-IsFamily}

-- A temporary channel that a round may remove.
pub record IsEmpty (has_users deleted : ℕ → Bool) (t : Tree) (id parent : ℕ) : Type 0 where
  pub node : Node
  pub found : find id t ≡ some node
  pub parent_is : node.parent_id ≡ parent
  pub temporary : node.is_temporary ≡ true
  pub childless : is_empty node.children ≡ true
  pub unused : has_users id ≡ false
  pub not_root : (id == root_id) ≡ false

module _ (has_users deleted : ℕ → Bool) where
  first_empty-IsEmpty :
      (t : Tree) (id parent : ℕ)
      → Distinct t
      → first_empty has_users deleted t ≡ some (id, parent)
      → IsEmpty has_users deleted t id parent
  unfolding first_empty
  first_empty-IsEmpty [] id parent d e = elim (missing none (id, parent) refl e) [ ]
  first_empty-IsEmpty ((k, n) ∷ t) id parent d e =
      let skip = k == root_id || (not n.is_temporary || not (is_empty n.children)) in
      let keep = has_users k || not (deleted k) in
      elim (Bool-cases skip) [
        | inl a ↦ lift (first_empty-IsEmpty t id parent d.1 (ground (arith, e, a)))
        | inr a ↦ elim (Bool-cases keep) [
          | inl b ↦ lift (first_empty-IsEmpty t id parent d.1 (ground (arith, e, a, b)))
          | inr b ↦
              let one : k ≡ id = ground (arith, e, a, b) in
              let above : n.parent_id ≡ parent = ground (arith, e, a, b) in
              let same : (k == id) ≡ true = ground (arith, one) in
              record {
                node = n;
                found = unfold find in rw same refl;
                parent_is = above;
                temporary = ground (arith, a);
                childless = ground (arith, a);
                unused = ap has_users (sym one) ∙ ground (arith, b);
                not_root = ground (arith, a, one);
              }
        ]
      ]
    where
      lift :
          IsEmpty has_users deleted t id parent → IsEmpty has_users deleted ((k, n) ∷ t) id parent
      lift i = record {
        node = i.node;
        found =
            unfold find in
            elim (Bool-cases (k == id)) [
              | inl a ↦
                  elim (missing (find id t) i.node
                    (ap (λ j. find j t) (sym ((==_iff k id).0 a)) ∙ d.0) i.found) [ ]
              | inr a ↦ rw a i.found
            ];
        parent_is = i.parent_is;
        temporary = i.temporary;
        childless = i.childless;
        unused = i.unused;
        not_root = i.not_root;
      }

  -- What is left when no round finds a channel to remove.
  first_empty-none :
      (t : Tree) (id : ℕ) (n : Node)
      → first_empty has_users deleted t ≡ none
      → find id t ≡ some n
      → (id == root_id) ≡ false
      → n.is_temporary ≡ true
      → is_empty n.children ≡ true
      → (has_users id || not (deleted id)) ≡ true
  unfolding first_empty find
  first_empty-none [] id n e f r p c = ground (arith, f)
  first_empty-none ((k, m) ∷ t) id n e f r p c = elim (Bool-cases (k == id)) [
    | inl a ↦
        let one : m ≡ n = ground (arith, f, a) in
        let key : k ≡ id = (==_iff k id).0 a in
        let hm : m.is_temporary ≡ true = ap (λ (x : Node). x.is_temporary) one ∙ p in
        let hc : is_empty m.children ≡ true = ap (λ (x : Node). is_empty x.children) one ∙ c in
        let hk : (k == root_id) ≡ false = ground (arith, key, r) in
        let here : (has_users k || not (deleted k)) ≡ true = ground (arith, e, hm, hc, hk) in
        subst (λ i. (has_users i || not (deleted i)) ≡ true) key here
    | inr a ↦ first_empty-none t id n (ground (arith, e)) (ground (arith, f, a)) r p c
  ]

  -- A round takes one channel away.
  cleaned-IsFamily :
      (t : Tree) (id parent : ℕ)
      → IsFamily t
      → first_empty has_users deleted t ≡ some (id, parent)
      → IsFamily (detach id parent t)
  cleaned-IsFamily t id parent h e =
      let i = first_empty-IsEmpty t id parent h.distinct e in
      subst (λ p. IsFamily (detach id p t)) i.parent_is
        (detach-IsFamily t h id i.node i.found i.childless i.not_root)

  length-detach :
      (t : Tree) (id parent : ℕ) {n : Node}
      → Distinct t
      → find id t ≡ some n
      → suc (length (detach id parent t)) ≡ length t
  unfolding detach
  length-detach t id parent {n} d e =
      let shorter = length-delete_one id t {v = n} d e in
      elim (Option-cases (find parent (delete id t))) [
        | inl f ↦ rw (detach, f) shorter
        | inr (p, f) ↦
            rw (detach, f) (ap suc (length-insert_old parent _ (delete id t) {w = p} f) ∙ shorter)
      ]

  -- The rest of the tree stays.
  has_channel-detach :
      (t : Tree) (id parent j : ℕ)
      → (id == j) ≡ false
      → has_channel (detach id parent t) j ≡ has_channel t j
  unfolding detach has_channel
  has_channel-detach t id parent j other = elim (Option-cases (find parent (delete id t))) [
    | inl e ↦ rw (detach, e) (ground (arith, find-delete id j t, other))
    | inr (p, e) ↦
        rw (detach, e)
          (ground (
            arith,
            e,
            find-delete id j t,
            other,
            find-insert parent j (record p { children = drop_child id p.children }) (delete id t),
            same_key parent j,
          ))
  ]
    where
      same_key : (i k : ℕ) → (i == k) ≡ true → find i (delete id t) ≡ find k (delete id t)
      same_key i k a = ap (λ x. find x (delete id t)) ((==_iff i k).0 a)

  clean_rounds_lem :
      (fuel : ℕ) (t : Tree)
      → length t < fuel
      → IsFamily t
      → let r = clean_rounds fuel has_users deleted t in
        IsFamily r
        × (first_empty has_users deleted r ≡ none)
        × ((j : ℕ) → has_users j ≡ true → has_channel r j ≡ has_channel t j)
  unfolding clean_rounds
  clean_rounds_lem zero t h f = ground (arith, h)
  clean_rounds_lem (suc fuel) t h f = elim (Option-cases (first_empty has_users deleted t)) [
    | inl e ↦ rw (clean_rounds, e) (f, e, λ j u. refl)
    | inr ((id, parent), e) ↦
        let i = first_empty-IsEmpty t id parent f.distinct e in
        let rest =
          clean_rounds_lem fuel (detach id parent t)
            (omega (arith, h, length-detach t id parent {n = i.node} f.distinct i.found))
            (cleaned-IsFamily t id parent f e) in
        rw (clean_rounds, e)
          (
            rest.0,
            rest.1,
            λ j u. rest.2 j u ∙ has_channel-detach t id parent j (used id j i.unused u),
          )
  ]
    where
      used : (i j : ℕ) → has_users i ≡ false → has_users j ≡ true → (i == j) ≡ false
      used i j a b = elim (Bool-cases (i == j)) [
        | inl e ↦ ground (arith, a, b, ap has_users ((==_iff i j).0 e))
        | inr e ↦ e
      ]

-- The cleaning ends, keeps parents and children in agreement and every channel with users, and leaves no
-- temporary channel, but the root, without children and users that the database would delete.
pub clean_empty_temp_channels_lem :
    (has_users deleted : ℕ → Bool) (t : Tree)
    → IsFamily t
    → let r = clean_empty_temp_channels has_users deleted t in
      IsFamily r
      × ((id : ℕ) (n : Node)
          → find id r ≡ some n
          → (id == root_id) ≡ false
          → n.is_temporary ≡ true
          → is_empty n.children ≡ true
          → (has_users id || not (deleted id)) ≡ true)
      × ((id : ℕ) → has_users id ≡ true → has_channel r id ≡ has_channel t id)
unfolding clean_empty_temp_channels
clean_empty_temp_channels_lem has_users deleted t h =
    let r = clean_rounds (length t + 1) has_users deleted t in
    let law = clean_rounds_lem has_users deleted (length t + 1) t (omega arith) h in
    (law.0, (λ id n. first_empty-none has_users deleted r id n law.1), law.2)
