-- ===== src/Channel/Edit/Family.antt =====
-- internal/channel/manager.go: parents and children agree.
use go_mumble_server.Base.{
  ℕ, ◌≡◌, ◌∙◌, refl, sym, ap, true, false, Option, none, some, List, [], ◌∷◌, ◌++◌, if◌then◌else◌,
  ◌==◌, ◌&&◌, ◌||◌, not, arith, Bool-cases, Option-cases, inl, inr, ==_iff,
}
use mathlib.Core.Path.{subst}
use go_mumble_server.Base.Int.{leb_ℤ}
use go_mumble_server.Base.Maps.{find, insert, find-insert, Distinct, Distinct-insert}
use go_mumble_server.Base.Sets.{contains, is_empty}
use go_mumble_server.Base.Counting.{NoRepeats, contains-append}
use go_mumble_server.Channel.{Node, Tree, has_channel, root_id}
use go_mumble_server.Channel.Edit.{
  place_child, sort_children, position_of, Created, new_node, hang, create, drop_child,
}

-- A channel but the root is a child of its parent.
pub record Child (t : Tree) (parent id : ℕ) : Type 0 where
  pub above : Node
  pub found : find parent t ≡ some above
  pub listed : contains above.children id ≡ true

-- A listed child is a channel that has this parent.
pub record Listed (t : Tree) (parent id : ℕ) : Type 0 where
  pub below : Node
  pub found : find id t ≡ some below
  pub back : below.parent_id ≡ parent
  pub not_root : (id == root_id) ≡ false

pub record IsFamily (t : Tree) : Type 0 where
  pub up :
      (id : ℕ) (n : Node) → find id t ≡ some n → (id == root_id) ≡ false → Child t n.parent_id id
  pub down :
      (parent : ℕ) (p : Node) (id : ℕ)
      → find parent t ≡ some p
      → contains p.children id ≡ true
      → Listed t parent id
  pub once : (parent : ℕ) (p : Node) → find parent t ≡ some p → NoRepeats p.children
  pub distinct : Distinct t

contains-place_child :
    (t : Tree) (id z : ℕ) (cs : List ℕ)
    → contains (place_child t id cs) z ≡ (id == z || contains cs z)
unfolding place_child contains
contains-place_child t id z [] = refl
contains-place_child t id z (c ∷ cs) =
    elim (Bool-cases (leb_ℤ (position_of t id) (position_of t c))) [
      | inl e ↦ rw e refl
      | inr e ↦ rw e (ground (arith, contains-place_child t id z cs))
    ]

contains-sort_children :
    (t : Tree) (z : ℕ) (cs : List ℕ) → contains (sort_children t cs) z ≡ contains cs z
unfolding sort_children contains
contains-sort_children t z [] = refl
contains-sort_children t z (c ∷ cs) =
    contains-place_child t c z (sort_children t cs)
    ∙ ap (◌||◌ (c == z)) (contains-sort_children t z cs)

NoRepeats-place_child :
    (t : Tree) (id : ℕ) (cs : List ℕ)
    → contains cs id ≡ false
    → NoRepeats cs
    → NoRepeats (place_child t id cs)
unfolding place_child contains
NoRepeats-place_child t id [] h d = (refl, tt)
NoRepeats-place_child t id (c ∷ cs) h d =
    elim (Bool-cases (leb_ℤ (position_of t id) (position_of t c))) [
      | inl e ↦ rw e (h, d)
      | inr e ↦ rw e (
        ground (arith, contains-place_child t id c cs, d.0, h),
        NoRepeats-place_child t id cs (ground (arith, h)) d.1,
      )
    ]

NoRepeats-sort_children : (t : Tree) (cs : List ℕ) → NoRepeats cs → NoRepeats (sort_children t cs)
unfolding sort_children
NoRepeats-sort_children t [] d = tt
NoRepeats-sort_children t (c ∷ cs) d =
    NoRepeats-place_child t c (sort_children t cs) (contains-sort_children t c cs ∙ d.0)
      (NoRepeats-sort_children t cs d.1)

NoRepeats-snoc :
    (id : ℕ) (cs : List ℕ) → contains cs id ≡ false → NoRepeats cs → NoRepeats (cs ++ (id ∷ []))
unfolding contains
NoRepeats-snoc id [] h d = (refl, tt)
NoRepeats-snoc id (c ∷ cs) h d = (
  contains-append c cs (id ∷ []) ∙ ground (arith, d.0, h),
  NoRepeats-snoc id cs (ground (arith, h)) d.1,
)

-- What taking out a child leaves.
pub contains-drop_child :
    (id z : ℕ) (cs : List ℕ)
    → NoRepeats cs
    → contains (drop_child id cs) z ≡ (not (id == z) && contains cs z)
unfolding drop_child contains
contains-drop_child id z [] d = ground arith
contains-drop_child id z (c ∷ cs) d = elim (Bool-cases (c == id)) [
  | inl e ↦
      let gone : (c == z) ≡ true → contains cs z ≡ false =
        λ f. ap (contains cs) (sym ((==_iff c z).0 f)) ∙ d.0 in
      rw e (ground (arith, e, gone))
  | inr e ↦ rw e (ground (arith, e, contains-drop_child id z cs d.1))
]

pub NoRepeats-drop_child : (id : ℕ) (cs : List ℕ) → NoRepeats cs → NoRepeats (drop_child id cs)
unfolding drop_child
NoRepeats-drop_child id [] d = tt
NoRepeats-drop_child id (c ∷ cs) d = elim (Bool-cases (c == id)) [
  | inl e ↦ rw e d.1
  | inr e ↦
      rw e (ground (arith, contains-drop_child id c cs d.1, d.0), NoRepeats-drop_child id cs d.1)
]

pub missing {ℓ} : {A : Type ℓ} (o : Option A) (a : A) → o ≡ none → o ≡ some a → ⊥
missing o a e f = cc

-- A new channel below one of the tree.
module _ (t : Tree) (h : IsFamily t) (parent : ℕ) (p : Node) (row : Created)
    (there : find parent t ≡ some p) (fresh : find row.id t ≡ none)
    (not_root : (row.id == root_id) ≡ false) where
  id : ℕ
  id = row.id

  t₁ : Tree
  t₁ = insert row.id (new_node parent row) t

  p' : Node
  p' = record p { children = sort_children t₁ (p.children ++ (row.id ∷ [])) }

  t₂ : Tree
  unfolding t₁ p'
  t₂ = insert parent p' t₁

  apart : (row.id == parent) ≡ false
  apart = elim (Bool-cases (row.id == parent)) [
    | inl e ↦ ground (arith, fresh, there, ap (λ i. find i t) ((==_iff row.id parent).0 e))
    | inr e ↦ e
  ]

  find-t₂ :
      (j : ℕ)
      → find j t₂ ≡ (
          if parent == j
          then some p'
          else (if row.id == j then some (new_node parent row) else find j t))
  unfolding t₂ t₁
  find-t₂ j =
      find-insert parent j p' t₁ ∙ ground (arith, find-insert row.id j (new_node parent row) t)

  children-p' : (z : ℕ) → contains p'.children z ≡ (contains p.children z || row.id == z)
  unfolding p' contains
  children-p' z =
      contains-sort_children t₁ z (p.children ++ (row.id ∷ []))
      ∙ contains-append z p.children (row.id ∷ [])
      ∙ ground arith

  -- What a channel that was there is now.
  kept : (j : ℕ) (n : Node) → find j t ≡ some n → (row.id == j) ≡ false
  kept j n e = elim (Bool-cases (row.id == j)) [
    | inl f ↦ ground (arith, fresh, e, ap (λ i. find i t) ((==_iff row.id j).0 f))
    | inr f ↦ f
  ]

  Child-t₂ : (k j : ℕ) → Child t k j → Child t₂ k j
  Child-t₂ k j c = elim (Bool-cases (parent == k)) [
    | inl e ↦
        let same : find k t ≡ some p = ap (λ i. find i t) (sym ((==_iff parent k).0 e)) ∙ there in
        let one : p ≡ c.above = ground (arith, same, c.found) in
        let was : contains p.children j ≡ true =
          ap (λ (n : Node). contains n.children j) one ∙ c.listed in
        record { above = p'; found = find-t₂ k ∙ rw e refl; listed = children-p' j ∙ rw was refl }
    | inr e ↦ record {
      above = c.above;
      found = find-t₂ k ∙ rw (e, kept k c.above c.found) c.found;
      listed = c.listed;
    }
  ]

  Listed-t₂ : (k j : ℕ) → Listed t k j → Listed t₂ k j
  unfolding p'
  Listed-t₂ k j l = elim (Bool-cases (parent == j)) [
    | inl e ↦
        let same : find j t ≡ some p = ap (λ i. find i t) (sym ((==_iff parent j).0 e)) ∙ there in
        let one : p ≡ l.below = ground (arith, same, l.found) in
        record {
          below = p';
          found = find-t₂ j ∙ rw e refl;
          back = ap (λ (n : Node). n.parent_id) one ∙ l.back;
          not_root = l.not_root;
        }
    | inr e ↦ record {
      below = l.below;
      found = find-t₂ j ∙ rw (e, kept j l.below l.found) l.found;
      back = l.back;
      not_root = l.not_root;
    }
  ]

  old_children : contains p.children row.id ≡ false
  old_children = elim (Bool-cases (contains p.children row.id)) [
    | inl e ↦ let l = h.down parent p row.id there e in ground (arith, fresh, l.found)
    | inr e ↦ e
  ]

  up-t₂ : (j : ℕ) (n : Node) → find j t₂ ≡ some n → (j == root_id) ≡ false → Child t₂ n.parent_id j
  unfolding p'
  up-t₂ j n e f = elim (Bool-cases (parent == j)) [
    | inl a ↦
        let now : p' ≡ n = ground (arith, sym (find-t₂ j) ∙ e, a) in
        let was : find j t ≡ some p = ap (λ i. find i t) (sym ((==_iff parent j).0 a)) ∙ there in
        subst (λ (x : Node). Child t₂ x.parent_id j) now (Child-t₂ p.parent_id j (h.up j p was f))
    | inr a ↦ elim (Bool-cases (row.id == j)) [
      | inl b ↦
          let now : new_node parent row ≡ n = ground (arith, sym (find-t₂ j) ∙ e, a, b) in
          subst (λ (x : Node). Child t₂ x.parent_id j) now
            (record {
              above = p';
              found = find-t₂ parent ∙ ground arith;
              listed = children-p' j ∙ ground (arith, b);
            })
      | inr b ↦ Child-t₂ n.parent_id j (h.up j n (ground (arith, sym (find-t₂ j) ∙ e, a, b)) f)
    ]
  ]

  down-t₂ :
      (k : ℕ) (q : Node) (j : ℕ) → find k t₂ ≡ some q → contains q.children j ≡ true → Listed t₂ k j
  unfolding p'
  down-t₂ k q j e i = elim (Bool-cases (parent == k)) [
    | inl a ↦
        let now : p' ≡ q = ground (arith, sym (find-t₂ k) ∙ e, a) in
        let here : parent ≡ k = (==_iff parent k).0 a in
        let member : contains p'.children j ≡ true =
          ap (λ (x : Node). contains x.children j) now ∙ i in
        subst (λ (x : ℕ). Listed t₂ x j) here
          (elim (Bool-cases (row.id == j)) [
            | inl b ↦ record {
              below = new_node parent row;
              found = find-t₂ j ∙ ground (arith, b, apart);
              back = refl;
              not_root = ground (arith, not_root, b);
            }
            | inr b ↦
                Listed-t₂ parent j
                  (h.down parent p j there (ground (arith, children-p' j, member, b)))
          ])
    | inr a ↦ elim (Bool-cases (row.id == k)) [
      | inl b ↦
          let now : new_node parent row ≡ q = ground (arith, sym (find-t₂ k) ∙ e, a, b) in
          let none_there : contains [] j ≡ true =
            ap (λ (x : Node). contains x.children j) now ∙ i in
          elim (nobody j none_there) [ ]
      | inr b ↦ Listed-t₂ k j (h.down k q j (ground (arith, sym (find-t₂ k) ∙ e, a, b)) i)
    ]
  ]
    where
      nobody : (j : ℕ) → contains [] j ≡ true → ⊥
      nobody j f = unfold contains in ground (arith, f)

  once-t₂ : (k : ℕ) (q : Node) → find k t₂ ≡ some q → NoRepeats q.children
  unfolding p'
  once-t₂ k q e = elim (Bool-cases (parent == k)) [
    | inl a ↦
        let now : p' ≡ q = ground (arith, sym (find-t₂ k) ∙ e, a) in
        subst (λ (x : Node). NoRepeats x.children) now
          (NoRepeats-sort_children t₁ (p.children ++ (row.id ∷ []))
            (NoRepeats-snoc row.id p.children old_children (h.once parent p there)))
    | inr a ↦ elim (Bool-cases (row.id == k)) [
      | inl b ↦
          let now : new_node parent row ≡ q = ground (arith, sym (find-t₂ k) ∙ e, a, b) in
          subst (λ (x : Node). NoRepeats x.children) now tt
      | inr b ↦ h.once k q (ground (arith, sym (find-t₂ k) ∙ e, a, b))
    ]
  ]

  hung-IsFamily : IsFamily (hang parent row.id (insert row.id (new_node parent row) t))
  unfolding hang t₂ t₁ p'
  hung-IsFamily =
      let here : find parent t₁ ≡ some p =
        find-insert row.id parent (new_node parent row) t ∙ rw apart there in
      rw (hang, here)
        (record {
          up = up-t₂;
          down = down-t₂;
          once = once-t₂;
          distinct =
              Distinct-insert parent p' t₁
                (Distinct-insert row.id (new_node parent row) t h.distinct);
        })

-- A new channel, whose id the database has not given before, keeps the families.
pub create-IsFamily :
    (t : Tree) (parent : ℕ) (name : List ℕ) (answer : Option Created)
    → IsFamily t
    → ((row : Created) → answer ≡ some row → (find row.id t ≡ none) × ((row.id == root_id) ≡ false))
    → IsFamily (create t parent name answer).0
unfolding create has_channel
create-IsFamily t parent name none h fresh =
    let same : (create t parent name none).0 ≡ t = ground arith in subst IsFamily (sym same) h
create-IsFamily t parent name (some row) h fresh = elim (Option-cases (find parent t)) [
  | inl e ↦ rw (has_channel, e) h
  | inr (p, e) ↦
      rw (has_channel, e)
        (elim (Bool-cases (is_empty name)) [
          | inl f ↦ rw f h
          | inr f ↦ rw f (hung-IsFamily t h parent p row e (fresh row refl).0 (fresh row refl).1)
        ])
]
