-- ===== src/Channel/Edit/Replace.antt =====
-- internal/channel/manager.go: parents and children agree when a channel's other fields change.
use go_mumble_server.Base.{
  ℕ, ◌≡◌, ◌∙◌, refl, sym, ap, Bool, true, some, ◌==◌, arith, Bool-cases, Option-cases, inl, inr,
  ==_iff,
}
use mathlib.Core.Path.{subst}
use go_mumble_server.Base.Maps.{find, insert, find-insert, Distinct-insert}
use go_mumble_server.Base.Sets.{contains}
use go_mumble_server.Base.Counting.{NoRepeats}
use go_mumble_server.Channel.{Node, Tree}
use go_mumble_server.Channel.Edit.{UpdateOpts, update}
use go_mumble_server.Channel.Edit.Family.{Child, Listed, IsFamily}

-- A node that keeps its parent and its children may change in all else.
pub replaced-IsFamily :
    (t : Tree) (id : ℕ) (n m : Node)
    → IsFamily t
    → find id t ≡ some n
    → m.parent_id ≡ n.parent_id
    → m.children ≡ n.children
    → IsFamily (insert id m t)
replaced-IsFamily t id n m h there parent children = record {
  up = λ j x e f. elim (Bool-cases (id == j)) [
    | inl a ↦
        let now : m ≡ x = ground (arith, sym (find-insert id j m t) ∙ e, a) in
        let c = h.up j n (same j a) f in
        subst (λ (k : ℕ). Child (insert id m t) k j)
          (sym parent ∙ ap (λ (y : Node). y.parent_id) now) (child n.parent_id j c)
    | inr a ↦ child x.parent_id j (h.up j x (ground (arith, sym (find-insert id j m t) ∙ e, a)) f)
  ];
  down = λ k q j e i. elim (Bool-cases (id == k)) [
    | inl a ↦
        let now : m ≡ q = ground (arith, sym (find-insert id k m t) ∙ e, a) in
        let member : contains n.children j ≡ true =
          ap (λ cs. contains cs j) (sym children ∙ ap (λ (y : Node). y.children) now) ∙ i in
        listed k j (h.down k n j (same k a) member)
    | inr a ↦ listed k j (h.down k q j (ground (arith, sym (find-insert id k m t) ∙ e, a)) i)
  ];
  once = λ k q e. elim (Bool-cases (id == k)) [
    | inl a ↦
        let now : m ≡ q = ground (arith, sym (find-insert id k m t) ∙ e, a) in
        subst NoRepeats (sym children ∙ ap (λ (y : Node). y.children) now) (h.once k n (same k a))
    | inr a ↦ h.once k q (ground (arith, sym (find-insert id k m t) ∙ e, a))
  ];
  distinct = Distinct-insert id m t h.distinct;
}
  where
    same : (j : ℕ) → (id == j) ≡ true → find j t ≡ some n
    same j a = ap (λ i. find i t) (sym ((==_iff id j).0 a)) ∙ there

    child : (k j : ℕ) → Child t k j → Child (insert id m t) k j
    child k j c = elim (Bool-cases (id == k)) [
      | inl a ↦
          let one : n ≡ c.above = ground (arith, same k a, c.found) in
          record {
            above = m;
            found = ground (arith, find-insert id k m t, a);
            listed =
                ap (λ cs. contains cs j) (children ∙ ap (λ (y : Node). y.children) one) ∙ c.listed;
          }
      | inr a ↦ record {
        above = c.above;
        found = find-insert id k m t ∙ rw a c.found;
        listed = c.listed;
      }
    ]

    listed : (k j : ℕ) → Listed t k j → Listed (insert id m t) k j
    listed k j l = elim (Bool-cases (id == j)) [
      | inl a ↦
          let one : n ≡ l.below = ground (arith, same j a, l.found) in
          record {
            below = m;
            found = ground (arith, find-insert id j m t, a);
            back = parent ∙ ap (λ (y : Node). y.parent_id) one ∙ l.back;
            not_root = l.not_root;
          }
      | inr a ↦ record {
        below = l.below;
        found = find-insert id j m t ∙ rw a l.found;
        back = l.back;
        not_root = l.not_root;
      }
    ]

pub update-IsFamily :
    (saved : Bool) (t : Tree) (id : ℕ) (opts : UpdateOpts)
    → IsFamily t
    → IsFamily (update saved t id opts).0
unfolding update
update-IsFamily saved t id opts h = elim (Option-cases (find id t)) [
  | inl e ↦ rw (update, e) h
  | inr (n, e) ↦ rw (update, e) (replaced-IsFamily t id n _ h e refl refl)
]
