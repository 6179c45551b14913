-- ===== src/Users/Tests.antt =====
-- Runs of internal/user/manager.go: a user leaves, and another one gets the session's id.
use go_mumble_server.Base.{ℕ, ◌≡◌, refl, true, false, List, [], ◌∷◌, none, some, All, arith}
use go_mumble_server.Base.Maps.{find, insert, delete}
use go_mumble_server.Base.Sets.{add as put_id, remove as take_out}
use go_mumble_server.Users.Names.{find_name, insert_name}
use go_mumble_server.Users.Pool.{alloc, release}
use go_mumble_server.Voice.{VoiceState}
use go_mumble_server.Users.Manager.{
  User, Manager, new_manager, add, snapshot_ref, remove, refuse, update_identity,
}
use go_mumble_server.Users.Manager.Run.{Call, run, IsPolite, IsSound, run_new-IsSound}
use go_mumble_server.Users.Manager.Welcome.{Taken, add-Taken}
use go_mumble_server.Users.Manager.Stale.{stale_stays}

abbrev quiet : VoiceState
quiet = record {
  mute = false;
  deaf = false;
  suppress = false;
  self_mute = false;
  self_deaf = false;
  priority_speaker = false;
  recording = false;
}

abbrev user_named : ℕ → User
user_named c = record {
  session_generation = 0;
  authorization_revision = 0;
  certificate_verified = false;
  session_id = 0;
  user_id = 0;
  channel_id = 0;
  name = c ∷ [];
  access_tokens = [];
  external_groups = [];
  external_identity = false;
  identity_version = 0;
  policy_version = 0;
  identity_last_validated_at = 0;
  voice_state = quiet;
  plugin_identity = [];
  plugin_context = [];
  texture = [];
  comment = [];
  address = [];
  ping = 0;
  cert_hash = [];
  client_version = 0;
  crypto_mode = [];
  is_super_user = false;
}

abbrev renamed : User → User
renamed u = record u { name = 9 ∷ [] }

abbrev calls : List Call
calls =
    Call.adds (user_named 1)
    ∷ Call.adds (user_named 2)
    ∷ Call.removes 1 1 true
    ∷ Call.adds (user_named 3)
    ∷ Call.identifies 1 3 true renamed
    ∷ []

abbrev polite : All IsPolite calls
polite = (tt, (tt, (tt, (tt, ((λ u. refl), tt)))))

run_new-IsSound_example : IsSound (run (new_manager 10) calls)
run_new-IsSound_example = run_new-IsSound 10 calls (omega arith) (omega arith) polite

abbrev after : Manager
after = run (new_manager 10) calls

reused : find 1 after.by_session ≡ some 2
unfolding run new_manager find find_name alloc release insert_name insert delete put_id take_out
reused = refl

add-Taken_example : Taken after (user_named 4) (add after (user_named 4))
unfolding run new_manager find find_name alloc release insert_name insert delete put_id take_out
add-Taken_example =
    add-Taken after (user_named 4) (run_new-IsSound 10 calls (omega arith) (omega arith) polite)
      refl (omega arith)

abbrev first_two : List Call
first_two = Call.adds (user_named 1) ∷ Call.removes 1 1 true ∷ []

abbrev left : Manager
left = run (new_manager 10) first_two

stale_stays_example :
    let m' = run left (Call.adds (user_named 2) ∷ []) in
    (snapshot_ref m' 1 1 ≡ none)
    × (remove m' 1 1 true ≡ refuse m')
    × (update_identity m' 1 1 true renamed ≡ refuse m')
unfolding run new_manager find find_name alloc release insert_name insert delete put_id take_out
    snapshot_ref
stale_stays_example =
    stale_stays left (Call.adds (user_named 2) ∷ []) 1 1 renamed
      (run_new-IsSound 10 first_two (omega arith) (omega arith) (tt, (tt, tt))) (tt, tt)
      (omega arith) (omega arith) refl
