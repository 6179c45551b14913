-- ===== src/Channel/Connected.antt =====
-- internal/channel/manager.go: the channels that links connect.
pub mod Reachable
use go_mumble_server.Base.{
  ℕ, zero, suc, ◌+◌, Bool, true, false, Option, none, some, List, [], ◌∷◌, ◌++◌, length,
  if◌then◌else◌, ◌==◌, ◌&&◌, ◌||◌, not,
}
use go_mumble_server.Base.Sets.{contains, sort}
use go_mumble_server.Base.Counting.{filter}
use go_mumble_server.Channel.{Tree, has_channel}
use go_mumble_server.Channel.Links.{links_of, live_links, inbound}

-- `adjacent`: the other channels of the tree that a channel links to or that link to it.
unfoldable pub adjacent : Tree → ℕ → List ℕ
unfolding live_links inbound filter
adjacent t id =
    if has_channel t id then live_links t id ++ filter (λ j. not (j == id)) (inbound t id) else []

-- Mark what is new among the neighbours, and put it at the end of the queue.
unfoldable pub visit : List ℕ → List ℕ → List ℕ → List ℕ × List ℕ
unfolding contains
visit [] seen queue = (seen, queue)
visit (id ∷ ids) seen queue =
    let skipped = visit ids seen queue in
    let taken = visit ids (id ∷ seen) (queue ++ (id ∷ [])) in
    if contains seen id then skipped else taken

-- The loop takes the first channel of the queue and visits its neighbours. Every round takes one channel, and
-- a channel is queued once, so that as many rounds as there are channels are enough.
unfoldable pub connect : ℕ → Tree → List ℕ → List ℕ → List ℕ
unfolding visit adjacent
connect fuel t seen [] = seen
connect zero t seen (id ∷ queue) = seen
connect (suc fuel) t seen (id ∷ queue) =
    let r = visit (adjacent t id) seen queue in connect fuel t r.0 r.1

-- `ConnectedChannelIDs`
unfoldable pub connected_channel_ids : Tree → ℕ → List ℕ
unfolding connect sort
connected_channel_ids t id =
    if has_channel t id then sort (connect (length t) t (id ∷ []) (id ∷ [])) else []
