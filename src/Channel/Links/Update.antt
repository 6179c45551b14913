-- ===== src/Channel/Links/Update.antt =====
-- internal/channel/manager.go: what `UpdateLinks` makes of the links.
use go_mumble_server.Base.{
  ℕ, ◌≡◌, ◌∙◌, refl, sym, ap, Bool, true, false, List, [], ◌∷◌, ◌++◌, length, if◌then◌else◌, ◌==◌,
  ◌&&◌, ◌||◌, not, map, arith, Bool-cases, Option-cases, inl, inr, ==_iff,
}
use go_mumble_server.Base.Maps.{find, find-insert}
use go_mumble_server.Base.Sets.{contains, add, remove, contains-add, contains-remove, contains-sort}
use go_mumble_server.Base.Counting.{
  set_of, contains-filter, contains-set_of, contains-append, NoRepeats-set_of, whole,
}
use go_mumble_server.Channel.{Tree, has_channel}
use go_mumble_server.Channel.Links.{
  links_of, live_links, all, ids, inbound, changed_set, agree, is_stable, new_links, set_links,
  set_all_links, is_linkable, update_links,
}

both : (a b : Bool) → (a && b) ≡ true → (a ≡ true) × (b ≡ true)
both true true h = (refl, refl)
both true false h = (refl, h)
both false b h = (h, ground (arith, h))

same_truth : (a b : Bool) → (a ≡ true → b ≡ true) → (b ≡ true → a ≡ true) → a ≡ b
same_truth true b f g = sym (f refl)
same_truth false true f g = g refl
same_truth false false f g = refl

agree_equal : (a b : Bool) → agree a b ≡ true → a ≡ b
agree_equal true b h = sym h
agree_equal false b h = ground (arith, h)

all_member :
    (p : ℕ → Bool) (xs : List ℕ) (z : ℕ) → all p xs ≡ true → contains xs z ≡ true → p z ≡ true
unfolding contains
all_member p [] z h i = ground arith
all_member p (x ∷ xs) z h i = elim (Bool-cases (x == z)) [
  | inl same ↦ ap p (sym ((==_iff x z).0 same)) ∙ ground (arith, h)
  | inr other ↦ all_member p xs z (ground (arith, h)) (ground (arith, i, other))
]

pub contains-ids : (t : Tree) (j : ℕ) → contains (ids t) j ≡ has_channel t j
unfolding contains has_channel find
contains-ids [] j = refl
contains-ids ((id, n) ∷ t) j = ground (arith, contains-ids t j)

has_channel-set_links :
    (id j : ℕ) (links : List ℕ) (t : Tree) → has_channel (set_links id links t) j ≡ has_channel t j
unfolding has_channel set_links
has_channel-set_links id j links t = elim (Option-cases (find id t)) [
  | inl e ↦ rw (set_links, e) refl
  | inr (n, e) ↦
      rw (set_links, e) (ground (arith, e, found, find-insert id j (record n { links = links }) t))
]
  where
    found : (id == j) ≡ true → find id t ≡ find j t
    found h = ap (λ i. find i t) ((==_iff id j).0 h)

links_of-set_links :
    (id j : ℕ) (links : List ℕ) (t : Tree)
    → links_of (set_links id links t) j
      ≡ (if id == j && has_channel t j then links else links_of t j)
unfolding has_channel set_links
links_of-set_links id j links t = elim (Option-cases (find id t)) [
  | inl e ↦ rw (set_links, e) (ground (arith, e, found))
  | inr (n, e) ↦
      rw (set_links, e) (ground (arith, e, found, find-insert id j (record n { links = links }) t))
]
  where
    found : (id == j) ≡ true → find id t ≡ find j t
    found h = ap (λ i. find i t) ((==_iff id j).0 h)

links_of-set_all :
    (f : ℕ → List ℕ) (ks : List ℕ) (j : ℕ) (t : Tree)
    → links_of (set_all_links f ks t) j
      ≡ (if contains ks j && has_channel t j then f j else links_of t j)
unfolding set_all_links contains
links_of-set_all f [] j t = refl
links_of-set_all f (k ∷ ks) j t = ground (
  arith,
  links_of-set_all f ks j (set_links k (f k) t),
  links_of-set_links k j (f k) t,
  has_channel-set_links k j (f k) t,
  renamed,
)
  where
    renamed : (k == j) ≡ true → f k ≡ f j
    renamed h = ap f ((==_iff k j).0 h)

pub has_channel-set_all :
    (f : ℕ → List ℕ) (ks : List ℕ) (j : ℕ) (t : Tree)
    → has_channel (set_all_links f ks t) j ≡ has_channel t j
unfolding set_all_links
has_channel-set_all f [] j t = refl
has_channel-set_all f (k ∷ ks) j t =
    has_channel-set_all f ks j (set_links k (f k) t) ∙ has_channel-set_links k j (f k) t

-- Whether `i` links to `j` once the links of `id` are the desired ones.
abbrev pub wanted : Tree → ℕ → List ℕ → ℕ → ℕ → Bool
wanted t id desired i j =
    if i == id
    then contains desired j
    else (if j == id then contains desired i else contains (links_of t i) j)

module _ (t : Tree) (id : ℕ) (desired : List ℕ) where
  contains-live_links :
      (i j : ℕ)
      → contains (live_links t i) j ≡ (not (j == i) && has_channel t j && contains (links_of t i) j)
  unfolding live_links
  contains-live_links i j =
      contains-filter (λ linked. not (linked == i) && has_channel t linked) j (links_of t i)
      ∙ ground arith

  contains-new_links :
      (i j : ℕ)
      → has_channel t j ≡ true
      → (i == j) ≡ false
      → contains (new_links t id desired i) j ≡ wanted t id desired i j
  unfolding new_links
  contains-new_links i j h other = elim (Bool-cases (i == id)) [
    | inl own ↦ rw own (contains-sort j (set_of desired) ∙ contains-set_of j desired)
    | inr e ↦ elim (Bool-cases (contains (set_of desired) i)) [
      | inl d ↦
          rw (e, d)
            (contains-sort j (add id left)
              ∙ contains-add id j left
              ∙ ground (arith, base, sym (contains-set_of i desired) ∙ d))
      | inr d ↦
          rw (e, d)
            (contains-sort j left ∙ ground (arith, base, sym (contains-set_of i desired) ∙ d))
    ]
  ]
    where
      left : List ℕ
      left = remove id (set_of (live_links t i))

      base : contains left j ≡ (if id == j then false else contains (links_of t i) j)
      base =
          contains-remove id j (set_of (live_links t i))
          ∙ ground (arith, contains-set_of j (live_links t i), contains-live_links i j, h, other)

  contains-changed_set :
      (i : ℕ)
      → contains (changed_set t id desired) i ≡ (
          id == i
          || (contains (live_links t id) i || (contains desired i || contains (inbound t id) i)))
  unfolding changed_set contains
  contains-changed_set i =
      contains-set_of i (id ∷ (live_links t id ++ (desired ++ inbound t id)))
      ∙ ap (◌||◌ (id == i)) (
          contains-append i (live_links t id) (desired ++ inbound t id)
          ∙ ap (◌||◌ (contains (live_links t id) i)) (contains-append i desired (inbound t id)))

  old_set : List ℕ
  old_set = set_of (live_links t id)

  -- What a stable state says.
  stable_parts :
      is_stable t id desired ≡ true
      → (length old_set ≡ length (set_of desired))
        × ((z : ℕ) → contains old_set z ≡ true → contains (set_of desired) z ≡ true)
        × ((k : ℕ)
            → has_channel t k ≡ true
            → (k == id || agree (contains (links_of t k) id) (contains (set_of desired) k)) ≡ true)
  unfolding is_stable old_set
  stable_parts stable =
      let matches =
        λ (k : ℕ). k == id || agree (contains (links_of t k) id) (contains (set_of desired) k) in
      let same_size = length old_set == length (set_of desired) in
      let inside = all (contains (set_of desired)) old_set in
      let first = both (same_size && inside) (all matches (ids t)) stable in
      let sizes = both same_size inside first.0 in
      (
        (==_iff (length old_set) (length (set_of desired))).0 sizes.0,
        (λ z. all_member (contains (set_of desired)) old_set z sizes.1),
        λ k h. all_member matches (ids t) k first.1 (contains-ids t k ∙ h),
      )

  old_value :
      (j : ℕ)
      → has_channel t j ≡ true
      → (j == id) ≡ false
      → contains old_set j ≡ contains (links_of t id) j
  unfolding old_set
  old_value j hj f =
      contains-set_of j (live_links t id) ∙ ground (arith, contains-live_links id j, hj, f)

  stable_out :
      (j : ℕ)
      → has_channel t j ≡ true
      → (j == id) ≡ false
      → is_stable t id desired ≡ true
      → contains (links_of t id) j ≡ contains desired j
  stable_out j hj f stable =
      let parts = stable_parts stable in
      let d = NoRepeats-set_of (live_links t id) in
      let same = same_truth (contains old_set j) (contains (set_of desired) j) (parts.1 j) (
        whole old_set (set_of desired) (unfold old_set in d) (NoRepeats-set_of desired) parts.0
          parts.1 j) in
      sym (old_value j hj f) ∙ same ∙ contains-set_of j desired

  stable_in :
      (i : ℕ)
      → has_channel t i ≡ true
      → (i == id) ≡ false
      → is_stable t id desired ≡ true
      → contains (links_of t i) id ≡ contains desired i
  stable_in i hi e stable =
      let round = (stable_parts stable).2 i hi in
      agree_equal (contains (links_of t i) id) (contains (set_of desired) i)
        (ground (arith, round, e))
      ∙ contains-set_of i desired

  stable_wanted :
      (i j : ℕ)
      → has_channel t i ≡ true
      → has_channel t j ≡ true
      → (i == j) ≡ false
      → is_stable t id desired ≡ true
      → contains (links_of t i) j ≡ wanted t id desired i j
  stable_wanted i j hi hj other stable = elim (Bool-cases (i == id)) [
    | inl own ↦
        let f : (j == id) ≡ false = ground (arith, other, own) in
        rw own
          (ap (λ k. contains (links_of t k) j) ((==_iff i id).0 own) ∙ stable_out j hj f stable)
    | inr e ↦ rw e (elim (Bool-cases (j == id)) [
      | inl to ↦ rw to (ap (contains (links_of t i)) ((==_iff j id).0 to) ∙ stable_in i hi e stable)
      | inr f ↦ rw f refl
    ])
  ]

  contains-inbound :
      (i : ℕ) → has_channel t i ≡ true → contains (inbound t id) i ≡ contains (links_of t i) id
  unfolding inbound
  contains-inbound i hi =
      contains-filter (λ j. contains (links_of t j) id) i (ids t)
      ∙ ground (arith, contains-ids t i, hi)

  -- The links after a change that is not stable.
  changed_wanted :
      (i j : ℕ)
      → has_channel t i ≡ true
      → has_channel t j ≡ true
      → (i == j) ≡ false
      → contains
          (links_of (set_all_links (new_links t id desired) (changed_set t id desired) t) i)
          j
        ≡ wanted t id desired i j
  changed_wanted i j hi hj other =
      let links = new_links t id desired in
      let value = links_of-set_all links (changed_set t id desired) i t in
      elim (Bool-cases (contains (changed_set t id desired) i)) [
        | inl e ↦
            let new : links_of (set_all_links links (changed_set t id desired) t) i ≡ links i =
              value ∙ rw (e, hi) refl in
            ap (λ xs. contains xs j) new ∙ contains-new_links i j hj other
        | inr e ↦
            let kept : links_of (set_all_links links (changed_set t id desired) t) i
                ≡ links_of t i =
              value ∙ rw e refl in
            let why = sym (contains-changed_set i) ∙ e in
            let to : (j == id) ≡ true → contains (links_of t i) j ≡ contains (links_of t i) id =
              λ f. ap (contains (links_of t i)) ((==_iff j id).0 f) in
            ap (λ xs. contains xs j) kept ∙ ground (arith, why, contains-inbound i hi, to)
      ]

-- `UpdateLinks` on the pairs of two channels of the tree: if it succeeds, the channel links exactly to the
-- desired ones and exactly they link back to it, and every other pair is as it was; if it fails, nothing changes.
pub update_links_lem :
    (save : List (ℕ × List ℕ) → Bool) (t : Tree) (id : ℕ) (desired : List ℕ)
    → let r = update_links save t id desired in
      (r.ok ≡ true
        → (i j : ℕ) → has_channel t i ≡ true
        → has_channel t j ≡ true
        → (i == j) ≡ false
        → contains (links_of r.tree i) j ≡ wanted t id desired i j)
      × (r.ok ≡ false → r.tree ≡ t)
unfolding update_links
update_links_lem save t id desired = elim (Bool-cases (has_channel t id)) [
  | inr e ↦ rw e (failed, λ h. refl)
  | inl e ↦ rw e (elim (Bool-cases (all (is_linkable t id) desired)) [
    | inr f ↦ rw f (failed, λ h. refl)
    | inl f ↦ rw f (elim (Bool-cases (is_stable t id desired)) [
      | inl s ↦
          rw s ((λ h i j hi hj other. stable_wanted t id desired i j hi hj other s), λ h. refl)
      | inr s ↦
          rw s
            (elim (Bool-cases
              (save (map (λ j. (j, new_links t id desired j)) (changed_set t id desired)))) [
                | inl w ↦ rw w ((λ h. changed_wanted t id desired), λ h. ground (arith, h))
                | inr w ↦ rw w (failed, λ h. refl)
              ])
    ])
  ])
]
  where
    failed :
        false ≡ true
        → (i j : ℕ) → has_channel t i ≡ true
        → has_channel t j ≡ true
        → (i == j) ≡ false
        → contains (links_of t i) j ≡ wanted t id desired i j
    failed h i j hi hj other = ground (arith, h)
