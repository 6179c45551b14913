-- ===== src/Channel/Edit/Detach.antt =====
-- internal/channel/manager.go: parents and children agree when a channel is taken out.
use go_mumble_server.Base.{
  ℕ, ◌≡◌, ◌∙◌, refl, sym, ap, Bool, true, false, none, some, List, [], ◌∷◌, if◌then◌else◌, ◌==◌,
  ◌&&◌, not, arith, Bool-cases, Option-cases, inl, inr, ==_iff,
}
use mathlib.Core.Path.{subst}
use go_mumble_server.Base.Maps.{
  find, insert, delete, find-insert, find-delete, Distinct-insert, Distinct-delete,
}
use go_mumble_server.Base.Sets.{contains, is_empty}
use go_mumble_server.Base.Counting.{NoRepeats}
use go_mumble_server.Channel.{Node, Tree, root_id}
use go_mumble_server.Channel.Edit.{drop_child, detach, remove_channel}
use go_mumble_server.Channel.Edit.Family.{
  Child, Listed, IsFamily, contains-drop_child, NoRepeats-drop_child,
}

-- A channel without children, other than the root, is taken out.
module _ (t : Tree) (h : IsFamily t) (id : ℕ) (n : Node) (there : find id t ≡ some n)
    (childless : is_empty n.children ≡ true) (not_root : (id == root_id) ≡ false) where
  t₁ : Tree
  t₁ = delete id t

  find-t₁ : (j : ℕ) → find j t₁ ≡ (if id == j then none else find j t)
  unfolding t₁
  find-t₁ j = find-delete id j t

  -- The channel is nobody's parent.
  not_above : (k j : ℕ) → Child t k j → (id == k) ≡ false
  not_above k j c = elim (Bool-cases (id == k)) [
    | inr e ↦ e
    | inl e ↦
        let same : find k t ≡ some n = ap (λ i. find i t) (sym ((==_iff id k).0 e)) ∙ there in
        let one : n ≡ c.above = ground (arith, same, c.found) in
        let empty : is_empty c.above.children ≡ true =
          ap (λ (x : Node). is_empty x.children) (sym one) ∙ childless in
        elim (nobody c.above.children empty c.listed) [ ]
  ]
    where
      nobody : (cs : List ℕ) → is_empty cs ≡ true → contains cs j ≡ true → ⊥
      nobody [] e f = unfold contains in ground (arith, f)
      nobody (x ∷ cs) e f = ground (arith, e)

  module _ (p : Node) (parent_there : find n.parent_id t₁ ≡ some p) where
    p' : Node
    p' = record p { children = drop_child id p.children }

    t₂ : Tree
    unfolding p'
    t₂ = insert n.parent_id p' t₁

    find-t₂ :
        (j : ℕ)
        → find j t₂ ≡ (if n.parent_id == j then some p' else (if id == j then none else find j t))
    unfolding t₂
    find-t₂ j = find-insert n.parent_id j p' t₁ ∙ ground (arith, find-t₁ j)

    was : find n.parent_id t ≡ some p
    was = ground (arith, find-t₁ n.parent_id, parent_there)

    other : (id == n.parent_id) ≡ false
    other = ground (arith, find-t₁ n.parent_id, parent_there)

    children-p' : (z : ℕ) → contains p'.children z ≡ (not (id == z) && contains p.children z)
    unfolding p'
    children-p' z = contains-drop_child id z p.children (h.once n.parent_id p was)

    Child-t₂ : (k j : ℕ) → (id == j) ≡ false → Child t k j → Child t₂ k j
    Child-t₂ k j f c = elim (Bool-cases (n.parent_id == k)) [
      | inl e ↦
          let same : find k t ≡ some p =
            ap (λ i. find i t) (sym ((==_iff n.parent_id k).0 e)) ∙ was in
          let one : p ≡ c.above = ground (arith, same, c.found) in
          let member : contains p.children j ≡ true =
            ap (λ (x : Node). contains x.children j) one ∙ c.listed in
          record {
            above = p';
            found = find-t₂ k ∙ rw e refl;
            listed = children-p' j ∙ rw (f, member) refl;
          }
      | inr e ↦ record {
        above = c.above;
        found = find-t₂ k ∙ rw (e, not_above k j c) c.found;
        listed = c.listed;
      }
    ]

    Listed-t₂ : (k j : ℕ) → (id == j) ≡ false → Listed t k j → Listed t₂ k j
    unfolding p'
    Listed-t₂ k j f l = elim (Bool-cases (n.parent_id == j)) [
      | inl e ↦
          let same : find j t ≡ some p =
            ap (λ i. find i t) (sym ((==_iff n.parent_id j).0 e)) ∙ was in
          let one : p ≡ l.below = ground (arith, same, l.found) in
          record {
            below = p';
            found = find-t₂ j ∙ rw e refl;
            back = ap (λ (x : Node). x.parent_id) one ∙ l.back;
            not_root = l.not_root;
          }
      | inr e ↦ record {
        below = l.below;
        found = find-t₂ j ∙ rw (e, f) l.found;
        back = l.back;
        not_root = l.not_root;
      }
    ]

    -- Who is there is not the channel taken out.
    stays : (j : ℕ) (m : Node) → find j t₂ ≡ some m → (id == j) ≡ false
    stays j m e = elim (Bool-cases (id == j)) [
      | inr f ↦ f
      | inl f ↦ ground (arith, sym (find-t₂ j) ∙ e, f, other)
    ]

    up-t₂ :
        (j : ℕ) (m : Node) → find j t₂ ≡ some m → (j == root_id) ≡ false → Child t₂ m.parent_id j
    unfolding p'
    up-t₂ j m e f =
        let here = stays j m e in
        elim (Bool-cases (n.parent_id == j)) [
          | inl a ↦
              let now : p' ≡ m = ground (arith, sym (find-t₂ j) ∙ e, a) in
              let before : find j t ≡ some p =
                ap (λ i. find i t) (sym ((==_iff n.parent_id j).0 a)) ∙ was in
              subst (λ (x : Node). Child t₂ x.parent_id j) now
                (Child-t₂ p.parent_id j here (h.up j p before f))
          | inr a ↦
              Child-t₂ m.parent_id j here
                (h.up j m (ground (arith, sym (find-t₂ j) ∙ e, a, here)) f)
        ]

    down-t₂ :
        (k : ℕ) (q : Node) (j : ℕ)
        → find k t₂ ≡ some q
        → contains q.children j ≡ true
        → Listed t₂ k j
    unfolding p'
    down-t₂ k q j e i =
        let here = stays k q e in
        elim (Bool-cases (n.parent_id == k)) [
          | inl a ↦
              let now : p' ≡ q = ground (arith, sym (find-t₂ k) ∙ e, a) in
              let member : contains p'.children j ≡ true =
                ap (λ (x : Node). contains x.children j) now ∙ i in
              let not_id : (id == j) ≡ false = ground (arith, member, children-p' j) in
              let before : contains p.children j ≡ true = ground (arith, member, children-p' j) in
              subst (λ (x : ℕ). Listed t₂ x j) ((==_iff n.parent_id k).0 a)
                (Listed-t₂ n.parent_id j not_id (h.down n.parent_id p j was before))
          | inr a ↦
              let l = h.down k q j (ground (arith, sym (find-t₂ k) ∙ e, a, here)) i in
              Listed-t₂ k j (elsewhere k j a l) l
        ]
      where
        elsewhere : (k j : ℕ) → (n.parent_id == k) ≡ false → Listed t k j → (id == j) ≡ false
        elsewhere k j a l = elim (Bool-cases (id == j)) [
          | inr f ↦ f
          | inl f ↦
              let same : find j t ≡ some n = ap (λ i. find i t) (sym ((==_iff id j).0 f)) ∙ there in
              let one : n ≡ l.below = ground (arith, same, l.found) in
              let back : n.parent_id ≡ k = ap (λ (x : Node). x.parent_id) one ∙ l.back in
              ground (arith, back, a)
        ]

    once-t₂ : (k : ℕ) (q : Node) → find k t₂ ≡ some q → NoRepeats q.children
    unfolding p'
    once-t₂ k q e = elim (Bool-cases (n.parent_id == k)) [
      | inl a ↦
          let now : p' ≡ q = ground (arith, sym (find-t₂ k) ∙ e, a) in
          subst (λ (x : Node). NoRepeats x.children) now
            (NoRepeats-drop_child id p.children (h.once n.parent_id p was))
      | inr a ↦ h.once k q (ground (arith, sym (find-t₂ k) ∙ e, a, stays k q e))
    ]

    taken-IsFamily :
        IsFamily (insert n.parent_id (record p { children = drop_child id p.children }) t₁)
    unfolding t₂ p'
    taken-IsFamily = record {
      up = up-t₂;
      down = down-t₂;
      once = once-t₂;
      distinct = Distinct-insert n.parent_id p' t₁ (unfold t₁ in Distinct-delete id t h.distinct);
    }

  pub detach-IsFamily : IsFamily (detach id n.parent_id t)
  unfolding detach t₁
  detach-IsFamily =
      let c = h.up id n there not_root in
      let there_still : find n.parent_id t₁ ≡ some c.above =
        find-t₁ n.parent_id ∙ rw (not_above n.parent_id id c) c.found in
      rw (detach, there_still) (taken-IsFamily c.above there_still)

pub remove_channel-IsFamily :
    (deleted : Bool) (t : Tree) (id : ℕ) → IsFamily t → IsFamily (remove_channel deleted t id).0
unfolding remove_channel
remove_channel-IsFamily deleted t id h = elim (Bool-cases (id == root_id)) [
  | inl e ↦ rw e h
  | inr e ↦ rw e (elim (Option-cases (find id t)) [
    | inl f ↦ rw f h
    | inr (n, f) ↦ rw f (elim (Bool-cases (is_empty n.children)) [
      | inr g ↦ rw g h
      | inl g ↦ rw g (elim (Bool-cases deleted) [
        | inr k ↦ rw k h
        | inl k ↦ rw k (detach-IsFamily t h id n f g e)
      ])
    ])
  ])
]
