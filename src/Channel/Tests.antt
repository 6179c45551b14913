-- ===== src/Channel/Tests.antt =====
-- A small channel tree: the root, its child 1, and the child 2 of that one.
use go_mumble_server.Base.Int.{pos}
use go_mumble_server.Base.{ℕ, ◌≡◌, ◌+◌, List, [], ◌∷◌, length, true, false}
use go_mumble_server.Base.{◌==◌, ◌∙◌, refl, ap, Bool, none, some, arith}
use mathlib.Core.Path.{subst}
use go_mumble_server.Base.Maps.{find, insert, delete}
use go_mumble_server.Base.Sets.{contains, is_empty, sort, place}
use go_mumble_server.Base.Counting.{NoRepeats}
use go_mumble_server.Channel.{Node, Tree, ancestor_chain, chain_loop, has_channel, root_id}
use go_mumble_server.Channel.Links.{links_of, update_links}
use go_mumble_server.Channel.Links.Update.{wanted, update_links_lem}
use go_mumble_server.Channel.Connected.{connected_channel_ids}
use go_mumble_server.Channel.Connected.Reachable.{Linked, connected_channel_ids_lem}
use go_mumble_server.Channel.Edit.{Created, create, clean_empty_temp_channels}
use go_mumble_server.Channel.Edit.Family.{IsFamily, missing}
use go_mumble_server.Channel.Edit.Clean.{clean_empty_temp_channels_lem}
use go_mumble_server.Channel.Edit.Steps.{Step, Reach, Reach-IsFamily}
use go_mumble_server.Channel.Ancestors.{IsWalk, NoRepeat, ancestor_chain_lem}

abbrev node : ℕ → ℕ → List ℕ → Node
node id parent children = record {
  id = id;
  parent_id = parent;
  name = [];
  description = [];
  position = pos 0;
  max_users = 0;
  is_temporary = false;
  links = [];
  inherit_acl = true;
  children = children;
}

abbrev small_tree : Tree
small_tree = (0, node 0 0 (1 ∷ [])) ∷ (1, node 1 0 (2 ∷ [])) ∷ (2, node 2 1 []) ∷ []

ancestor_chain_lem_example :
    (chain_loop (length small_tree + 1 + 5) small_tree [] 2 ≡ ancestor_chain small_tree 2)
    × IsWalk small_tree [] 2 (ancestor_chain small_tree 2)
    × NoRepeat (ancestor_chain small_tree 2)
ancestor_chain_lem_example = ancestor_chain_lem small_tree 2 5

abbrev two_links : Tree
two_links =
    (0, node 0 0 (1 ∷ 2 ∷ []))
    ∷ (1, node 1 0 [])
    ∷ (2, record (node 2 0 []) { links = 0 ∷ [] })
    ∷ []

abbrev written : List (ℕ × List ℕ) → Bool
written rows = true

relinked : (update_links written two_links 1 (2 ∷ [])).changed ≡ 1 ∷ 2 ∷ []
unfolding update_links find contains sort place
relinked = refl

update_links_lem_example :
    let r = update_links written two_links 1 (2 ∷ []) in
    (r.ok ≡ true
      → (i j : ℕ) → has_channel two_links i ≡ true
      → has_channel two_links j ≡ true
      → (i == j) ≡ false
      → contains (links_of r.tree i) j ≡ wanted two_links 1 (2 ∷ []) i j)
    × (r.ok ≡ false → r.tree ≡ two_links)
update_links_lem_example = update_links_lem written two_links 1 (2 ∷ [])

abbrev root_tree : Tree
root_tree = (0, node 0 0 []) ∷ []

only_root : (id : ℕ) (n : Node) → find id root_tree ≡ some n → node 0 0 [] ≡ n
unfolding find
only_root id n e = ground (arith, e)

no_members : (id : ℕ) → contains [] id ≡ true → ⊥
no_members id e = unfold contains in ground (arith, e)

root_tree-IsFamily : IsFamily root_tree
unfolding find contains
root_tree-IsFamily = record {
  up = λ id n e f. elim (missing (find id root_tree) n (ground (arith, f)) e) [ ];
  down = λ parent p id e i.
      elim (no_members id
        (ap (λ (x : Node). contains x.children id) (only_root parent p e) ∙ i)) [ ];
  once = λ parent p e. subst (λ (x : Node). NoRepeats x.children) (only_root parent p e) tt;
  distinct = (refl, tt);
}

abbrev row_one : Created
row_one = record {
  id = 1;
  name = 65 ∷ [];
  description = [];
  position = pos 0;
  max_users = 0;
  is_temporary = true;
  inherit_acl = true;
}

grown : Reach root_tree (create root_tree 0 (65 ∷ []) (some row_one)).0
unfolding find
grown =
    Reach.later Reach.here
      (Step.creates 0 (65 ∷ []) (some row_one) (λ row e. row_is_new row (same_row row e)))
  where
    same_row : (row : Created) → some row_one ≡ some row → row_one ≡ row
    same_row row e = ground (arith, e)

    row_is_new :
        (row : Created)
        → row_one ≡ row
        → (find row.id root_tree ≡ none) × ((row.id == root_id) ≡ false)
    row_is_new row e =
        subst (λ (x : Created). (find x.id root_tree ≡ none) × ((x.id == root_id) ≡ false)) e
          (refl, refl)

Reach-IsFamily_example : IsFamily (create root_tree 0 (65 ∷ []) (some row_one)).0
Reach-IsFamily_example =
    Reach-IsFamily root_tree (create root_tree 0 (65 ∷ []) (some row_one)).0 grown
      root_tree-IsFamily

nobody_in :
    (clean_empty_temp_channels
      (λ id. false)
      (λ id. true)
      (create root_tree 0 (65 ∷ []) (some row_one)).0)
    ≡ root_tree
unfolding clean_empty_temp_channels create find insert delete contains has_channel
nobody_in = refl

clean_empty_temp_channels_lem_example :
    let t = (create root_tree 0 (65 ∷ []) (some row_one)).0 in
    let r = clean_empty_temp_channels (λ id. false) (λ id. true) t in
    IsFamily r
    × ((id : ℕ) (n : Node)
        → find id r ≡ some n
        → (id == root_id) ≡ false
        → n.is_temporary ≡ true
        → is_empty n.children ≡ true
        → false ≡ true)
    × ((id : ℕ) → false ≡ true → has_channel r id ≡ has_channel t id)
clean_empty_temp_channels_lem_example =
    clean_empty_temp_channels_lem (λ id. false) (λ id. true)
      (create root_tree 0 (65 ∷ []) (some row_one)).0 Reach-IsFamily_example

connected_two : connected_channel_ids two_links 0 ≡ 0 ∷ 2 ∷ []
unfolding connected_channel_ids find contains sort place
connected_two = refl

connected_channel_ids_lem_example :
    (contains (connected_channel_ids two_links 0) 2 ≡ true → Linked two_links 0 2)
    × (Linked two_links 0 2 → contains (connected_channel_ids two_links 0) 2 ≡ true)
unfolding has_channel find
connected_channel_ids_lem_example = connected_channel_ids_lem two_links 0 2 refl
