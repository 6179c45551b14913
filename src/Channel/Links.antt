-- ===== src/Channel/Links.antt =====
-- internal/channel/manager.go: the links between channels. The database's transaction is a function that
-- says whether the rows were written.
pub mod Update
pub mod Mutual
use go_mumble_server.Base.{
  ℕ, suc, ◌+◌, Bool, true, false, Option, none, some, List, [], ◌∷◌, ◌++◌, length, if◌then◌else◌,
  ◌==◌, ◌&&◌, ◌||◌, not, map,
}
use go_mumble_server.Base.Maps.{find, insert}
use go_mumble_server.Base.Sets.{contains, add, remove, sort}
use go_mumble_server.Base.Counting.{set_of, filter}
use go_mumble_server.Channel.{Node, Tree, has_channel}

abbrev pub links_of : Tree → ℕ → List ℕ
links_of t id = elim (find id t) [ none ↦ [] | some n ↦ n.links ]

-- The links of a channel that lead to another channel of the tree.
unfoldable pub live_links : Tree → ℕ → List ℕ
unfolding has_channel filter
live_links t id = filter (λ linked. not (linked == id) && has_channel t linked) (links_of t id)

-- `LinkedChannelIDs`
unfoldable pub linked_channel_ids : Tree → ℕ → List ℕ
unfolding filter
linked_channel_ids t id =
    if has_channel t id then (id ∷ filter (has_channel t) (links_of t id)) else []

abbrev pub all : (ℕ → Bool) → List ℕ → Bool
all p [] = true
all p (x ∷ xs) = p x && all p xs

abbrev pub ids : Tree → List ℕ
ids [] = []
ids ((id, n) ∷ t) = id ∷ ids t

-- The channels whose links lead to `id`.
unfoldable pub inbound : Tree → ℕ → List ℕ
unfolding filter
inbound t id = filter (λ j. contains (links_of t j) id) (ids t)

-- `changedSet`
unfoldable pub changed_set : Tree → ℕ → List ℕ → List ℕ
unfolding live_links inbound set_of
changed_set t id desired = set_of (id ∷ (live_links t id ++ (desired ++ inbound t id)))

abbrev pub agree : Bool → Bool → Bool
agree true b = b
agree false b = not b

-- `stable`: the links of the channel are the desired ones, and so are those that lead to it.
unfoldable pub is_stable : Tree → ℕ → List ℕ → Bool
unfolding live_links set_of
is_stable t id desired =
    let old_set = set_of (live_links t id) in
    let desired_set = set_of desired in
    (length old_set == length desired_set && all (contains desired_set) old_set)
    && all (λ j. j == id || agree (contains (links_of t j) id) (contains desired_set j)) (ids t)

-- The new links of a channel that is affected.
unfoldable pub new_links : Tree → ℕ → List ℕ → ℕ → List ℕ
unfolding live_links set_of sort remove add
new_links t id desired j =
    if j == id
    then sort (set_of desired)
    else (if contains (set_of desired) j
        then sort (add id (remove id (set_of (live_links t j))))
        else sort (remove id (set_of (live_links t j))))

unfoldable pub set_links : ℕ → List ℕ → Tree → Tree
set_links id links t = elim (find id t) [
  | none ↦ t
  | some n ↦ insert id (record n { links = links }) t
]

unfoldable pub set_all_links : (ℕ → List ℕ) → List ℕ → Tree → Tree
unfolding set_links
set_all_links links [] t = t
set_all_links links (id ∷ ids) t = set_all_links links ids (set_links id (links id) t)

-- The result of `UpdateLinks`: the tree, the channels changed, and whether it succeeded.
pub record LinksUpdated : Type 0 where
  pub tree : Tree
  pub changed : List ℕ
  pub ok : Bool

abbrev pub unchanged : Tree → Bool → LinksUpdated
unchanged t ok = record { tree = t; changed = []; ok = ok }

-- A desired link leads to another channel of the tree.
abbrev pub is_linkable : Tree → ℕ → ℕ → Bool
is_linkable t id linked = not (linked == id) && has_channel t linked

-- `UpdateLinks`
unfoldable pub update_links : (List (ℕ × List ℕ) → Bool) → Tree → ℕ → List ℕ → LinksUpdated
unfolding is_stable changed_set new_links set_all_links
update_links save t id desired =
    if not (has_channel t id)
    then unchanged t false
    else (if not (all (is_linkable t id) desired)
        then unchanged t false
        else (if is_stable t id desired
            then unchanged t true
            else (let changed = changed_set t id desired in
                let links = new_links t id desired in
                if save (map (λ j. (j, links j)) changed)
                then record {
                  tree = set_all_links links changed t;
                  changed = sort changed;
                  ok = true;
                }
                else unchanged t false)))
