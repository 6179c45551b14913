-- ===== src/Users/Manager.antt =====
-- internal/user/manager.go: the users that are connected. `bySession` and `byName` hold pointers to the
-- same records; here an address leads to the record in `heap`. A call is one atomic step, as its lock makes
-- it. The functions that it is given, and the listeners, are parameters; a call returns what its listeners are
-- told after it. A float32 is its bits, a time a number; a limit of 0 stands for every one that is not positive.
pub mod Index
pub mod Rename
pub mod Run
pub mod Welcome
pub mod Stale
use go_mumble_server.Base.{
  ℕ, ◌+◌, ◌*◌, ◌%◌, ◌^◌, Bool, true, false, Option, none, some, List, [], ◌∷◌, length,
  if◌then◌else◌, ltb, leb, ◌==◌, ◌&&◌, ◌||◌, not,
}
use go_mumble_server.Base.Maps.{find, insert, delete}
use go_mumble_server.Acl.Selector.{Text, same_text}
use go_mumble_server.Voice.{VoiceState}
use go_mumble_server.Users.Names.{find_name, insert_name, delete_name}
use go_mumble_server.Users.Pool.{Pool, new_pool, alloc, release}

pub record User : Type 0 where
  pub session_generation : ℕ
  pub authorization_revision : ℕ
  pub certificate_verified : Bool
  pub session_id : ℕ
  pub user_id : ℕ
  pub channel_id : ℕ
  pub name : Text
  pub access_tokens : List Text
  pub external_groups : List Text
  pub external_identity : Bool
  pub identity_version : ℕ
  pub policy_version : ℕ
  pub identity_last_validated_at : ℕ
  pub voice_state : VoiceState
  pub plugin_identity : Text
  pub plugin_context : List ℕ
  pub texture : List ℕ
  pub comment : Text
  pub address : Text
  pub ping : ℕ
  pub cert_hash : Text
  pub client_version : ℕ
  pub crypto_mode : Text
  pub is_super_user : Bool

pub record Manager : Type 0 where
  pub heap : List (ℕ × User)
  pub next_address : ℕ
  pub by_session : List (ℕ × ℕ)
  pub by_name : List (Text × ℕ)
  pub pool : Pool
  pub max_users : ℕ
  pub generation : ℕ

unfoldable pub new_manager : ℕ → Manager
unfolding new_pool
new_manager max_users = record {
  heap = [];
  next_address = 0;
  by_session = [];
  by_name = [];
  pool = new_pool (max_users * 2);
  max_users = max_users;
  generation = 0;
}

-- The state after a call, the copy it returns, and what the listeners are told: the user, and whether the
-- session is gone.
pub record Outcome : Type 0 where
  pub manager : Manager
  pub user : Option User
  pub notice : Option (User × Bool)

abbrev pub refuse : Manager → Outcome
refuse m = record { manager = m; user = none; notice = none }

-- The pointer that a session or a name has, with the record behind it.
abbrev pub at_address : Manager → Option ℕ → Option (ℕ × User)
at_address m none = none
at_address m (some a) = elim (find a m.heap) [ none ↦ none | some u ↦ some (a, u) ]

abbrev pub of_session : Manager → ℕ → Option (ℕ × User)
of_session m sid = at_address m (find sid m.by_session)

abbrev pub of_name : Manager → Text → Option (ℕ × User)
of_name m name = at_address m (find_name name m.by_name)

-- The end of `Add`, once the pool was asked.
unfoldable pub add_with : Manager → User → Pool × Option ℕ → Outcome
add_with m u (pool, none) = refuse (record m { pool = pool })
add_with m u (pool, some sid) =
    let generation = (m.generation + 1) % 2 ^ 64 in
    let stored = record u {
      session_id = sid;
      session_generation = generation;
      authorization_revision = 1;
    } in
    record {
      manager = record m {
        heap = insert m.next_address stored m.heap;
        next_address = m.next_address + 1;
        by_session = insert sid m.next_address m.by_session;
        by_name = insert_name u.name m.next_address m.by_name;
        pool = pool;
        generation = generation;
      };
      user = some stored;
      notice = none;
    }

abbrev pub is_some {ℓ} : {A : Type ℓ} → Option A → Bool
is_some none = false
is_some (some a) = true

-- `Add`
unfoldable pub add : Manager → User → Outcome
unfolding add_with
add m u =
    if is_some (find_name u.name m.by_name)
    then refuse m
    else (if leb m.max_users (length m.by_session) && ltb 0 m.max_users
        then refuse m
        else add_with m u (alloc m.pool))

unfoldable pub remove_at : Manager → ℕ → ℕ → Bool → Option (ℕ × User) → Outcome
remove_at m sid generation conditional none = refuse m
remove_at m sid generation conditional (some (a, u)) =
    if conditional && not (u.session_generation == generation) then refuse m else record {
      manager = record m {
        by_session = delete sid m.by_session;
        by_name = delete_name u.name m.by_name;
        pool = release m.pool sid;
      };
      user = some u;
      notice = some (u, true);
    }

-- `remove`
unfoldable pub remove : Manager → ℕ → ℕ → Bool → Outcome
unfolding remove_at
remove m sid generation conditional = remove_at m sid generation conditional (of_session m sid)

-- `Snapshot` and `SnapshotRef`
unfoldable pub snapshot : Manager → ℕ → Option User
snapshot m sid = elim (of_session m sid) [ none ↦ none | some p ↦ some p.1 ]

unfoldable pub snapshot_ref : Manager → ℕ → ℕ → Option User
unfolding snapshot
snapshot_ref m sid generation = elim (snapshot m sid) [
  | none ↦ none
  | some u ↦ if u.session_generation == generation then some u else none
]

-- `SnapshotByName`
unfoldable pub snapshot_by_name : Manager → Text → Option User
snapshot_by_name m name = elim (of_name m name) [ none ↦ none | some p ↦ some p.1 ]

abbrev pub same_texts : List Text → List Text → Bool
same_texts [] [] = true
same_texts [] (y ∷ b) = false
same_texts (x ∷ a) [] = false
same_texts (x ∷ a) (y ∷ b) = same_text x y && same_texts a b

abbrev pub same_bool : Bool → Bool → Bool
same_bool true b = b
same_bool false b = not b

-- `authorizationChanged`
unfoldable pub authorization_changed : User → User → Bool
authorization_changed a b =
    not (a.user_id == b.user_id)
    || (not (a.channel_id == b.channel_id)
        || (not (same_bool a.is_super_user b.is_super_user)
            || (not (same_text a.cert_hash b.cert_hash)
                || (not (same_bool a.certificate_verified b.certificate_verified)
                    || (not (same_bool a.external_identity b.external_identity)
                        || (not (a.identity_version == b.identity_version)
                            || (not (a.policy_version == b.policy_version)
                                || (not (same_texts a.access_tokens b.access_tokens)
                                    || not (same_texts a.external_groups b.external_groups)))))))))

-- The record after a change: the generation stays, and the revision goes up if the authorization changed.
unfoldable pub revised : User → User → User
unfolding authorization_changed
revised before after =
    let kept = record after {
      session_generation = before.session_generation;
      authorization_revision = before.authorization_revision;
    } in
    if authorization_changed before kept
    then record kept { authorization_revision = (before.authorization_revision + 1) % 2 ^ 64 }
    else kept

-- What the listeners are told of a change.
unfoldable pub change_notice : User → User → Option (User × Bool)
unfolding revised
change_notice before after =
    let kept = record after {
      session_generation = before.session_generation;
      authorization_revision = before.authorization_revision;
    } in
    if authorization_changed before kept then some (revised before after, false) else none

unfoldable pub update_at : Manager → (User → User) → Option (ℕ × User) → Outcome
unfolding change_notice
update_at m f none = refuse m
update_at m f (some (a, u)) = record {
  manager = record m { heap = insert a (revised u (f u)) m.heap };
  user = some (revised u (f u));
  notice = change_notice u (f u);
}

-- `UpdateUser`
unfoldable pub update_user : Manager → ℕ → (User → User) → Outcome
unfolding update_at
update_user m sid f = update_at m f (of_session m sid)

-- Whether another session has the name.
unfoldable pub name_taken : Manager → ℕ → Text → Bool
name_taken m sid name = elim (of_name m name) [
  | none ↦ false
  | some p ↦ not (p.1.session_id == sid)
]

unfoldable pub rename : ℕ → Text → Text → List (Text × ℕ) → List (Text × ℕ)
rename a old new m = if same_text old new then m else insert_name new a (delete_name old m)

unfoldable pub update_identity_at :
    Manager → ℕ → ℕ → Bool → (User → User) → Option (ℕ × User) → Outcome
unfolding name_taken rename change_notice
update_identity_at m sid generation conditional f none = refuse m
update_identity_at m sid generation conditional f (some (a, u)) =
    if conditional && not (u.session_generation == generation)
    then refuse m
    else (if name_taken m sid (f u).name then refuse m else record {
      manager = record m {
        heap = insert a (revised u (f u)) m.heap;
        by_name = rename a u.name (f u).name m.by_name;
      };
      user = some (revised u (f u));
      notice = change_notice u (f u);
    })

-- `updateIdentity`; what it publishes is the user that it returns.
unfoldable pub update_identity : Manager → ℕ → ℕ → Bool → (User → User) → Outcome
unfolding update_identity_at
update_identity m sid generation conditional f =
    update_identity_at m sid generation conditional f (of_session m sid)

-- `SetChannel`
unfoldable pub set_channel : Manager → ℕ → ℕ → Outcome
unfolding update_user
set_channel m sid channel = update_user m sid (λ u. record u { channel_id = channel })
