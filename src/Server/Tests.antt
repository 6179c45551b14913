-- ===== src/Server/Tests.antt =====
-- Runs of internal/mumble on two sessions and two channels.
use go_mumble_server.Base.{ℕ, refl, ◌+◌, ◌≡◌, true, List, [], ◌∷◌}
use go_mumble_server.Base.Sets.{related, contains}
use go_mumble_server.Base.Maps.{find, insert}
use go_mumble_server.Server.Listeners.{Context, apply_listening, count_in_channel, nobody, add}
use go_mumble_server.Server.Listeners.Dual.{Call, Change, run, no_listeners, run-IsDual}
use go_mumble_server.Server.Listeners.Limits.{overtaken_request, overtakes}

abbrev open_context : Context
open_context = record {
  has_channel = λ channel. true;
  may_listen = λ channel. true;
  max_channel_listeners = 2;
  max_listeners_per_user = 0;
}

abbrev calls : List (Call ℕ)
calls =
    Call.changes (Change.adds 1 5)
    ∷ Call.applies (λ moment. Change.adds 2 5 ∷ []) open_context 1 (6 ∷ []) [] ((5, 3) ∷ [])
    ∷ Call.changes (Change.leaves 1)
    ∷ []

run-IsDual_example :
    let l = run no_listeners calls in related l.by_session 2 5 ≡ related l.by_channel 5 2
run-IsDual_example = run-IsDual calls 2 5

overtaken_request_example :
    let l = (add {V = ℕ} no_listeners 3 5).0 in
    let alone = apply_listening nobody open_context l 1 (5 ∷ []) [] [] in
    let late = apply_listening (overtakes 2 5) open_context l 1 (5 ∷ []) [] [] in
    (count_in_channel alone.listeners 5 ≡ 2) × (count_in_channel late.listeners 5 ≡ 2 + 1)
unfolding find insert add count_in_channel contains
overtaken_request_example =
    overtaken_request {V = ℕ} open_context (add {V = ℕ} no_listeners 3 5).0 1 2 5 refl refl refl
      refl refl refl refl
