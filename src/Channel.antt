-- ===== src/Channel.antt =====
-- internal/channel/manager.go: the channel tree. A node is found by its channel id; where the source
-- holds pointers to the child nodes, a node here holds their ids. Channel 0 is the root.
pub mod Ancestors
pub mod Links
pub mod Edit
pub mod Connected
mod Tests
use go_mumble_server.Base.{
  ℕ, zero, suc, ◌+◌, Bool, true, false, Option, none, some, List, [], ◌∷◌, ◌++◌, length, ◌==◌,
  if◌then◌else◌, ◌&&◌, ◌||◌, not, map,
}
use go_mumble_server.Base.Int.{ℤ}
use go_mumble_server.Base.Maps.{find, delete, insert}

-- `channelNode` with the channel that it embeds.
pub record Node : Type 0 where
  pub id : ℕ
  pub parent_id : ℕ
  pub name : List ℕ
  pub description : List ℕ
  pub position : ℤ
  pub max_users : ℕ
  pub is_temporary : Bool
  pub links : List ℕ
  pub inherit_acl : Bool
  pub children : List ℕ

abbrev pub Tree : Type 0
Tree = List (ℕ × Node)

abbrev pub root_id : ℕ
root_id = 0

-- A set of ids, such as `seen`.
unfoldable pub contains : List ℕ → ℕ → Bool
contains [] k = false
contains (x ∷ xs) k = x == k || contains xs k

unfoldable pub has_channel : Tree → ℕ → Bool
has_channel t id = elim (find id t) [ none ↦ false | some n ↦ true ]

-- A round of the loop of `AncestorChain`: stop at a channel that is missing or marked, take it, and
-- go on with its parent unless it is the root.
unfoldable pub chain_round : Option Node → Bool → ℕ → (ℕ → List ℕ) → List ℕ
chain_round none old id go_on = []
chain_round (some n) true id go_on = []
chain_round (some n) false id go_on = id ∷ (if id == root_id then [] else go_on n.parent_id)

-- Each round marks one more channel of the tree, so that as many rounds as there are channels, and
-- one to stop, are enough.
unfoldable pub chain_loop : ℕ → Tree → List ℕ → ℕ → List ℕ
unfolding chain_round
chain_loop zero t seen id = []
chain_loop (suc fuel) t seen id =
    chain_round (find id t) (contains seen id) id (chain_loop fuel t (id ∷ seen))

-- The channel, its parent, and so on up to the root.
unfoldable pub ancestor_chain : Tree → ℕ → List ℕ
unfolding chain_loop contains
ancestor_chain t id = chain_loop (length t + 1) t [] id
