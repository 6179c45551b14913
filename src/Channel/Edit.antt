-- ===== src/Channel/Edit.antt =====
-- internal/channel/manager.go: channels come, change and go. What the database answers is an argument: the id
-- of a new row, or whether a row was written or deleted. Equal positions are put in the order that sort.Slice
-- would be free to choose.
pub mod Family
pub mod Replace
pub mod Detach
pub mod Clean
pub mod Steps
use go_mumble_server.Base.{
  ℕ, zero, suc, ◌+◌, Bool, true, false, Option, none, some, List, [], ◌∷◌, ◌++◌, length,
  if◌then◌else◌, ◌==◌, ◌&&◌, ◌||◌, not,
}
use go_mumble_server.Base.Int.{ℤ, pos, leb_ℤ}
use go_mumble_server.Base.Maps.{find, insert, delete}
use go_mumble_server.Base.Sets.{contains, add, remove, is_empty}
use go_mumble_server.Base.Counting.{set_of}
use go_mumble_server.Channel.{Node, Tree, has_channel, root_id}

abbrev pub position_of : Tree → ℕ → ℤ
position_of t id = elim (find id t) [ none ↦ pos 0 | some n ↦ n.position ]

-- sort.Slice by position.
unfoldable pub place_child : Tree → ℕ → List ℕ → List ℕ
place_child t id [] = id ∷ []
place_child t id (c ∷ cs) =
    if leb_ℤ (position_of t id) (position_of t c)
    then (id ∷ (c ∷ cs))
    else (c ∷ place_child t id cs)

unfoldable pub sort_children : Tree → List ℕ → List ℕ
unfolding place_child
sort_children t [] = []
sort_children t (c ∷ cs) = place_child t c (sort_children t cs)

-- The arguments of `Create`, and the row that the database makes of them.
pub record Created : Type 0 where
  pub id : ℕ
  pub name : List ℕ
  pub description : List ℕ
  pub position : ℤ
  pub max_users : ℕ
  pub is_temporary : Bool
  pub inherit_acl : Bool

abbrev pub new_node : ℕ → Created → Node
new_node parent row = record {
  id = row.id;
  parent_id = parent;
  name = row.name;
  description = row.description;
  position = row.position;
  max_users = row.max_users;
  is_temporary = row.is_temporary;
  links = [];
  inherit_acl = row.inherit_acl;
  children = [];
}

-- Hang the channel below its parent.
unfoldable pub hang : ℕ → ℕ → Tree → Tree
unfolding sort_children
hang parent id t = elim (find parent t) [
  | none ↦ t
  | some p ↦ insert parent (record p { children = sort_children t (p.children ++ (id ∷ [])) }) t
]

-- `Create`: the tree, and the channel unless there was an error.
unfoldable pub create : Tree → ℕ → List ℕ → Option Created → Tree × Option Node
unfolding hang
create t parent name answer =
    if not (has_channel t parent)
    then (t, none)
    else (if is_empty name then (t, none) else elim answer [
      | none ↦ (t, none)
      | some row ↦
          (hang parent row.id (insert row.id (new_node parent row) t), some (new_node parent row))
    ])

-- `UpdateOpts`
pub record UpdateOpts : Type 0 where
  pub name : Option (List ℕ)
  pub description : Option (List ℕ)
  pub position : Option ℤ
  pub max_users : Option ℕ
  pub temporary : Option Bool
  pub links : Option (List ℕ)
  pub links_add : List ℕ
  pub links_remove : List ℕ

abbrev pub given {ℓ} : {A : Type ℓ} → Option A → A → A
given none a = a
given (some b) a = b

unfoldable pub remove_ids : List ℕ → List ℕ → List ℕ
unfolding remove
remove_ids [] links = links
remove_ids (id ∷ ids) links = remove_ids ids (remove id links)

unfoldable pub add_ids : List ℕ → List ℕ → List ℕ
unfolding add
add_ids [] links = links
add_ids (id ∷ ids) links = add_ids ids (add id links)

unfoldable pub changed_links : UpdateOpts → List ℕ → List ℕ
unfolding remove_ids add_ids set_of
changed_links opts links = elim opts.links [
  | some new ↦ new
  | none ↦
      if is_empty opts.links_add && is_empty opts.links_remove
      then links
      else add_ids opts.links_add (remove_ids opts.links_remove (set_of links))
]

abbrev pub is_given {ℓ} : {A : Type ℓ} → Option A → Bool
is_given none = false
is_given (some a) = true

-- Whether there is anything to write.
abbrev pub has_updates : UpdateOpts → Bool
has_updates opts =
    is_given opts.name
    || (is_given opts.description
        || (is_given opts.position
            || (is_given opts.max_users
                || (is_given opts.temporary
                    || (is_given opts.links
                        || not (is_empty opts.links_add && is_empty opts.links_remove))))))

-- `Update`: the node is changed before the database is asked.
unfoldable pub update : Bool → Tree → ℕ → UpdateOpts → Tree × Bool
unfolding changed_links
update saved t id opts = elim (find id t) [
  | none ↦ (t, false)
  | some n ↦ (
    insert id
        (record n {
          name = given opts.name n.name;
          description = given opts.description n.description;
          position = given opts.position n.position;
          max_users = given opts.max_users n.max_users;
          is_temporary = given opts.temporary n.is_temporary;
          links = changed_links opts n.links;
        })
        t,
    not (has_updates opts) || saved,
  )
]

-- The loop that takes the first child with the id out.
unfoldable pub drop_child : ℕ → List ℕ → List ℕ
drop_child id [] = []
drop_child id (c ∷ cs) = if c == id then cs else (c ∷ drop_child id cs)

-- Take a channel out of the tree and out of its parent's children.
unfoldable pub detach : ℕ → ℕ → Tree → Tree
unfolding drop_child
detach id parent t =
    let t' = delete id t in
    elim (find parent t') [
      | none ↦ t'
      | some p ↦ insert parent (record p { children = drop_child id p.children }) t'
    ]

-- `Remove`
unfoldable pub remove_channel : Bool → Tree → ℕ → Tree × Bool
unfolding detach
remove_channel deleted t id = if id == root_id then (t, false) else elim (find id t) [
  | none ↦ (t, false)
  | some n ↦
      if not (is_empty n.children)
      then (t, false)
      else (if deleted then (detach id n.parent_id t, true) else (t, false))
]

-- The first channel that a round of `CleanEmptyTempChannels` removes.
unfoldable pub first_empty : (ℕ → Bool) → (ℕ → Bool) → Tree → Option (ℕ × ℕ)
first_empty has_users deleted [] = none
first_empty has_users deleted ((id, n) ∷ t) =
    let rest = first_empty has_users deleted t in
    if id == root_id || (not n.is_temporary || not (is_empty n.children))
    then rest
    else (if has_users id || not (deleted id) then rest else some (id, n.parent_id))

-- `CleanEmptyTempChannels`: every round but the last takes a channel away, so that as many rounds as there
-- are channels, and one to stop, are enough.
unfoldable pub clean_rounds : ℕ → (ℕ → Bool) → (ℕ → Bool) → Tree → Tree
unfolding first_empty detach
clean_rounds zero has_users deleted t = t
clean_rounds (suc fuel) has_users deleted t = elim (first_empty has_users deleted t) [
  | none ↦ t
  | some c ↦ clean_rounds fuel has_users deleted (detach c.0 c.1 t)
]

unfoldable pub clean_empty_temp_channels : (ℕ → Bool) → (ℕ → Bool) → Tree → Tree
unfolding clean_rounds
clean_empty_temp_channels has_users deleted t = clean_rounds (length t + 1) has_users deleted t
