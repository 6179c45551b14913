-- ===== src/Channel/Links/Mutual.antt =====
-- internal/channel/manager.go: `UpdateLinks` keeps links mutual.
use go_mumble_server.Base.{
  ℕ, ◌≡◌, ◌∙◌, refl, sym, ap, Bool, true, false, List, ◌==◌, arith, Bool-cases, inl, inr,
}
use go_mumble_server.Base.Sets.{contains}
use go_mumble_server.Channel.{Tree, has_channel}
use go_mumble_server.Channel.Links.{links_of, changed_set, new_links, update_links}
use go_mumble_server.Channel.Links.Update.{wanted, update_links_lem, has_channel-set_all}

-- Any two channels of the tree link to each other or neither does.
abbrev pub IsMutual : Tree → Type 0
IsMutual t =
    (i j : ℕ)
    → has_channel t i ≡ true
    → has_channel t j ≡ true
    → (i == j) ≡ false
    → contains (links_of t i) j ≡ contains (links_of t j) i

wanted_mutual :
    (t : Tree) (id : ℕ) (desired : List ℕ) (i j : ℕ)
    → (i == j) ≡ false
    → contains (links_of t i) j ≡ contains (links_of t j) i
    → wanted t id desired i j ≡ wanted t id desired j i
wanted_mutual t id desired i j other h = elim (Bool-cases (i == id)) [
  | inl own ↦ let f : (j == id) ≡ false = ground (arith, own, other) in rw (own, f) refl
  | inr e ↦ elim (Bool-cases (j == id)) [ inl to ↦ rw (e, to) refl | inr f ↦ rw (e, f) h ]
]

has_channel-update_links :
    (save : List (ℕ × List ℕ) → Bool) (t : Tree) (id : ℕ) (desired : List ℕ) (i : ℕ)
    → has_channel (update_links save t id desired).tree i ≡ has_channel t i
unfolding update_links
has_channel-update_links save t id desired i =
    ground (arith, has_channel-set_all (new_links t id desired) (changed_set t id desired) i t)

-- Whether it succeeds or fails, `UpdateLinks` keeps links mutual.
pub update_links-IsMutual :
    (save : List (ℕ × List ℕ) → Bool) (t : Tree) (id : ℕ) (desired : List ℕ)
    → IsMutual t
    → IsMutual (update_links save t id desired).tree
update_links-IsMutual save t id desired h i j hi hj other =
    let r = update_links save t id desired in
    let hi' = sym (has_channel-update_links save t id desired i) ∙ hi in
    let hj' = sym (has_channel-update_links save t id desired j) ∙ hj in
    let law = update_links_lem save t id desired in
    elim (Bool-cases r.ok) [
      | inl ok ↦
          let turned : (j == i) ≡ false = ground (arith, other) in
          law.0 ok i j hi' hj' other
          ∙ wanted_mutual t id desired i j other (h i j hi' hj' other)
          ∙ sym (law.0 ok j i hj' hi' turned)
      | inr failed ↦
          let same = law.1 failed in
          ap (λ (u : Tree). contains (links_of u i) j) same
          ∙ h i j hi' hj' other
          ∙ ap (λ (u : Tree). contains (links_of u j) i) (sym same)
    ]
