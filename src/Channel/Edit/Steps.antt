-- ===== src/Channel/Edit/Steps.antt =====
-- internal/channel/manager.go: the changes of the tree as steps.
use go_mumble_server.Base.{
  ℕ, ◌≡◌, refl, Bool, false, Option, none, some, List, [], ◌∷◌, ◌==◌, map, Bool-cases, Option-cases,
  inl, inr,
}
use go_mumble_server.Base.Maps.{find}
use go_mumble_server.Channel.{Tree, has_channel, root_id}
use go_mumble_server.Channel.Edit.{Created, create, UpdateOpts, update, remove_channel}
use go_mumble_server.Channel.Edit.{clean_empty_temp_channels}
use go_mumble_server.Channel.Links.{
  all, is_linkable, is_stable, set_links, set_all_links, update_links, new_links, changed_set,
}
use go_mumble_server.Channel.Edit.Family.{IsFamily, create-IsFamily}
use go_mumble_server.Channel.Edit.Replace.{update-IsFamily, replaced-IsFamily}
use go_mumble_server.Channel.Edit.Detach.{remove_channel-IsFamily}
use go_mumble_server.Channel.Edit.Clean.{clean_empty_temp_channels_lem}

set_links-IsFamily :
    (id : ℕ) (links : List ℕ) (t : Tree) → IsFamily t → IsFamily (set_links id links t)
unfolding set_links
set_links-IsFamily id links t h = elim (Option-cases (find id t)) [
  | inl e ↦ rw (set_links, e) h
  | inr (n, e) ↦ rw (set_links, e) (replaced-IsFamily t id n _ h e refl refl)
]

set_all_links-IsFamily :
    (f : ℕ → List ℕ) (ks : List ℕ) (t : Tree) → IsFamily t → IsFamily (set_all_links f ks t)
unfolding set_all_links
set_all_links-IsFamily f [] t h = h
set_all_links-IsFamily f (k ∷ ks) t h =
    set_all_links-IsFamily f ks (set_links k (f k) t) (set_links-IsFamily k (f k) t h)

update_links-IsFamily :
    (save : List (ℕ × List ℕ) → Bool) (t : Tree) (id : ℕ) (desired : List ℕ)
    → IsFamily t
    → IsFamily (update_links save t id desired).tree
unfolding update_links
update_links-IsFamily save t id desired h = elim (Bool-cases (has_channel t id)) [
  | inr e ↦ rw e h
  | inl e ↦ rw e (elim (Bool-cases (all (is_linkable t id) desired)) [
    | inr f ↦ rw f h
    | inl f ↦ rw f (elim (Bool-cases (is_stable t id desired)) [
      | inl s ↦ rw s h
      | inr s ↦
          rw s
            (elim (Bool-cases
              (save (map (λ j. (j, new_links t id desired j)) (changed_set t id desired)))) [
                | inl w ↦
                    rw w (
                      set_all_links-IsFamily (new_links t id desired) (changed_set t id desired) t
                        h)
                | inr w ↦ rw w h
              ])
    ])
  ])
]

-- The calls that change the tree. The database gives a new row an id that is not 0 and that no channel has.
pub data Step (t : Tree) : Tree → Type 0 where
  creates :
      (parent : ℕ) (name : List ℕ) (answer : Option Created)
      → ((row : Created)
          → answer ≡ some row
          → (find row.id t ≡ none) × ((row.id == root_id) ≡ false))
      → Step t (create t parent name answer).0
  updates : (saved : Bool) (id : ℕ) (opts : UpdateOpts) → Step t (update saved t id opts).0
  removes : (deleted : Bool) (id : ℕ) → Step t (remove_channel deleted t id).0
  relinks :
      (save : List (ℕ × List ℕ) → Bool) (id : ℕ) (desired : List ℕ)
      → Step t (update_links save t id desired).tree
  cleans : (has_users deleted : ℕ → Bool) → Step t (clean_empty_temp_channels has_users deleted t)

pub data Reach (t : Tree) : Tree → Type 0 where
  here : Reach t t
  later : {u v : Tree} → Reach t u → Step u v → Reach t v

Step-IsFamily : (t u : Tree) → Step t u → IsFamily t → IsFamily u
Step-IsFamily t _ (Step.creates parent name answer fresh) h =
    create-IsFamily t parent name answer h fresh
Step-IsFamily t _ (Step.updates saved id opts) h = update-IsFamily saved t id opts h
Step-IsFamily t _ (Step.removes deleted id) h = remove_channel-IsFamily deleted t id h
Step-IsFamily t _ (Step.relinks save id desired) h = update_links-IsFamily save t id desired h
Step-IsFamily t _ (Step.cleans has_users deleted) h =
    (clean_empty_temp_channels_lem has_users deleted t h).0

-- In every tree that the calls reach from one whose parents and children agree, they agree: a channel but the
-- root is listed, once, by its parent, which is there, and a child that is listed is there with that parent.
pub Reach-IsFamily : (t u : Tree) → Reach t u → IsFamily t → IsFamily u
Reach-IsFamily t _ Reach.here h = h
Reach-IsFamily t _ (Reach.later {u} {v} r s) h = Step-IsFamily u v s (Reach-IsFamily t u r h)
