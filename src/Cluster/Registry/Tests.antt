-- ===== src/Cluster/Registry/Tests.antt =====
-- Runs of internal/cluster/registry.go on an edge with one session.
use go_mumble_server.Base.{
  ◌≡◌, ◌≢◌, ap, sym, Option, Bool, ◌==◌, refl, none, some, List, [], ◌∷◌, ◌⊎◌, true, false,
}
use go_mumble_server.Base.Maps.{find, insert}
use go_mumble_server.Cluster.Registry.{
  SessionRef, SessionState, Entry, Registry, RegistryError, new_registry, commit_active,
  begin_close, unbind, close_and_unbind, remove_edge, snapshot,
}
use go_mumble_server.Cluster.Registry.Ownership.{
  Call, step, run, IsOwned, run-IsOwned, remove_edge_lem,
}
use go_mumble_server.Cluster.Registry.Lifecycle.{Follows, stale_refused}
use go_mumble_server.Cluster.Registry.Unique.{run-Follows}

abbrev alice : SessionRef
alice = record { session_id = 1; generation = 1 }

abbrev alice_later : SessionRef
alice_later = record { session_id = 1; generation = 2 }

abbrev calls : List Call
calls =
    Call.registers 5 3
    ∷ Call.binds alice 5
    ∷ Call.binds alice_later 6
    ∷ Call.commits alice true
    ∷ Call.removes 5 2
    ∷ []

run-IsOwned_example : IsOwned (run new_registry calls)
run-IsOwned_example = run-IsOwned calls

abbrev alice_entry : Entry
alice_entry = record { ref = alice; edge = 5; state = SessionState.syncing; announced = false }

abbrev alice_active : Entry
alice_active = record { ref = alice; edge = 5; state = SessionState.active; announced = true }

abbrev two_edges : Registry
two_edges = record { edges = (5, 3) ∷ (6, 2) ∷ []; sessions = (1, alice_entry) ∷ [] }

remove_edge_lem_example :
    let r' = (remove_edge two_edges 5 3).0 in
    ((find 5 two_edges.edges ≡ some 3) × (find 6 r'.edges ≡ some 2) × (find 1 r'.sessions ≡ none))
    ⊎ ((find 5 two_edges.edges ≢ some 3) × (r' ≡ two_edges))
unfolding find
remove_edge_lem_example = remove_edge_lem two_edges 5 3 1 6 (refl, tt)

run-Follows_example : Follows alice_entry alice_active
unfolding snapshot run step find insert new_registry
run-Follows_example =
    run-Follows (Call.registers 5 3 ∷ Call.binds alice 5 ∷ []) (Call.commits alice true) alice
      alice_entry alice_active refl refl

abbrev is_generation_two : Option Entry → Bool
is_generation_two none = true
is_generation_two (some e) = e.ref.generation == 2

-- The edge goes away while a callback runs.
abbrev others : Registry → Registry
others r = (remove_edge r 5 3).0

stale_refused_example :
    (commit_active two_edges alice_later false ≡ (two_edges, some RegistryError.stale_session))
    × (begin_close two_edges alice_later ≡ (two_edges, none, some RegistryError.stale_session))
    × (unbind two_edges alice_later ≡ (two_edges, some RegistryError.stale_session))
    × (close_and_unbind others two_edges alice_later
        ≡ (two_edges, none, some RegistryError.stale_session))
unfolding find
stale_refused_example =
    stale_refused others two_edges alice_later false (λ e h. ap (λ o. is_generation_two o) (sym h))
