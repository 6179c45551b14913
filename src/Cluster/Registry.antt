-- ===== src/Cluster/Registry.antt =====
-- internal/cluster/registry.go and types.go: which edge holds which session, and how far the
-- session is in its life. An edge's name is a number, 0 for the empty name. A session's entry is
-- found by its id; a call is one atomic step, but for `CloseAndUnbind`, which gives the registry's lock up while its
-- callback runs. A callback is a step of the caller.
pub mod Ownership
pub mod Lifecycle
pub mod Unique
mod Tests
use go_mumble_server.Base.{
  ℕ, Bool, true, false, Option, none, some, List, [], ◌∷◌, ◌++◌, ◌==◌, if◌then◌else◌, ◌&&◌, ◌||◌,
  not, map,
}
use go_mumble_server.Base.Maps.{find, delete, insert}

pub record SessionRef : Type 0 where
  pub session_id : ℕ
  pub generation : ℕ

pub data SessionState : Type 0 where
  syncing active closing closed : SessionState

pub data RegistryError : Type 0 where
  invalid_session edge_not_found session_bound stale_session invalid_state : RegistryError

-- `entry`; a snapshot has the same fields.
pub record Entry : Type 0 where
  pub ref : SessionRef
  pub edge : ℕ
  pub state : SessionState
  pub announced : Bool

pub record Registry : Type 0 where
  pub edges : List (ℕ × ℕ)
  pub sessions : List (ℕ × Entry)

unfoldable pub new_registry : Registry
new_registry = record { edges = []; sessions = [] }

-- `SessionRef.Valid`
abbrev pub valid_ref : SessionRef → Bool
valid_ref r = not (r.session_id == 0) && not (r.generation == 0)

-- `==` on references.
abbrev pub same_ref : SessionRef → SessionRef → Bool
same_ref a b = a.session_id == b.session_id && a.generation == b.generation

abbrev pub is_active : SessionState → Bool
is_active SessionState.active = true
is_active _ = false

abbrev pub is_syncing : SessionState → Bool
is_syncing SessionState.syncing = true
is_syncing _ = false

-- `state == StateClosing || state == StateClosed`
abbrev pub is_ending : SessionState → Bool
is_ending SessionState.closing = true
is_ending SessionState.closed = true
is_ending _ = false

abbrev pub is_closing : SessionState → Bool
is_closing SessionState.closing = true
is_closing _ = false

register_known : Option ℕ → Registry → ℕ → ℕ → Registry × Option RegistryError
register_known none r id generation = (record r { edges = insert id generation r.edges }, none)
register_known (some current) r id generation =
    if current == generation
    then (record r { edges = insert id generation r.edges }, none)
    else (r, some RegistryError.session_bound)

unfoldable pub register_edge : Registry → ℕ → ℕ → Registry × Option RegistryError
unfolding register_known
register_edge r id generation =
    if id == 0 || generation == 0
    then (r, some RegistryError.edge_not_found)
    else register_known (find id r.edges) r id generation

-- The sessions of one edge, in the order of the map.
unfoldable pub refs_of_edge : ℕ → List (ℕ × Entry) → List SessionRef
refs_of_edge id [] = []
refs_of_edge id ((sid, e) ∷ m) =
    if e.edge == id then (e.ref ∷ refs_of_edge id m) else refs_of_edge id m

-- An edge of this very generation is registered.
unfoldable pub edge_is : Registry → ℕ → ℕ → Bool
edge_is r id generation = elim (find id r.edges) [ none ↦ false | some g ↦ g == generation ]

unfoldable pub sessions_for_edge : Registry → ℕ → ℕ → List SessionRef
unfolding edge_is refs_of_edge
sessions_for_edge r id generation =
    if edge_is r id generation then refs_of_edge id r.sessions else []

bind_free : Option Entry → Registry → SessionRef → ℕ → Registry × Option RegistryError
bind_free (some old) r ref edge =
    if same_ref old.ref ref && old.edge == edge
    then (r, none)
    else (r, some RegistryError.session_bound)
bind_free none r ref edge =
    let e : Entry = record {
      ref = ref;
      edge = edge;
      state = SessionState.syncing;
      announced = false;
    } in
    (record r { sessions = insert ref.session_id e r.sessions }, none)

bind_known : Option ℕ → Registry → SessionRef → ℕ → Registry × Option RegistryError
unfolding bind_free
bind_known none r ref edge = (r, some RegistryError.edge_not_found)
bind_known (some g) r ref edge = bind_free (find ref.session_id r.sessions) r ref edge

unfoldable pub bind : Registry → SessionRef → ℕ → Registry × Option RegistryError
unfolding bind_known
bind r ref edge =
    if valid_ref ref
    then bind_known (find edge r.edges) r ref edge
    else (r, some RegistryError.invalid_session)

-- The entry under the id, if it is the very session that `ref` names.
unfoldable pub of_generation : Option Entry → SessionRef → Option Entry
of_generation none ref = none
of_generation (some e) ref = if same_ref e.ref ref then some e else none

unfoldable pub snapshot : Registry → SessionRef → Option Entry
unfolding of_generation
snapshot r ref = of_generation (find ref.session_id r.sessions) ref

unfoldable pub session_active : Registry → SessionRef → Bool
unfolding snapshot
session_active r ref = elim (snapshot r ref) [ none ↦ false | some e ↦ is_active e.state ]

put : Registry → Entry → Registry
put r e = record r { sessions = insert e.ref.session_id e r.sessions }

commit_entry : Option Entry → Registry → Bool → Registry × Option RegistryError
unfolding put
commit_entry none r announce = (r, some RegistryError.stale_session)
commit_entry (some e) r announce =
    if is_syncing e.state
    then (
      put r (record e { state = SessionState.active; announced = announce || e.announced }),
      none,
    )
    else (r, some RegistryError.invalid_state)

-- `CommitActive` (`announce` false) and `CommitActiveAndAnnounce`.
unfoldable pub commit_active : Registry → SessionRef → Bool → Registry × Option RegistryError
unfolding commit_entry
commit_active r ref announce = commit_entry (snapshot r ref) r announce

close_entry : Option Entry → Registry → Registry × Option Entry × Option RegistryError
unfolding put
close_entry none r = (r, none, some RegistryError.stale_session)
close_entry (some e) r =
    if is_ending e.state then (r, some (record e { announced = false }), none) else (
      put r (record e { state = SessionState.closing }),
      some (record e { state = SessionState.closing }),
      none,
    )

-- `BeginClose`. Its last error is for a state outside the four, which the type excludes.
unfoldable pub begin_close : Registry → SessionRef → Registry × Option Entry × Option RegistryError
unfolding close_entry
begin_close r ref = close_entry (snapshot r ref) r

unbind_entry : Option Entry → Registry → Registry × Option RegistryError
unbind_entry none r = (r, some RegistryError.stale_session)
unbind_entry (some e) r = (record r { sessions = delete e.ref.session_id r.sessions }, none)

unfoldable pub unbind : Registry → SessionRef → Registry × Option RegistryError
unfolding unbind_entry
unbind r ref = unbind_entry (snapshot r ref) r

-- The sessions that stay when an edge goes.
unfoldable pub drop_edge : ℕ → List (ℕ × Entry) → List (ℕ × Entry)
drop_edge id [] = []
drop_edge id ((sid, e) ∷ m) = if e.edge == id then drop_edge id m else ((sid, e) ∷ drop_edge id m)

unfoldable pub remove_edge : Registry → ℕ → ℕ → Registry × List SessionRef
unfolding edge_is drop_edge refs_of_edge
remove_edge r id generation =
    if edge_is r id generation
    then (
      record { edges = delete id r.edges; sessions = drop_edge id r.sessions },
      refs_of_edge id r.sessions,
    )
    else (r, [])

begin_cleanup_entry : Option Entry → Registry → Registry × Option Entry × Option RegistryError
unfolding put
begin_cleanup_entry none r = (r, none, some RegistryError.stale_session)
begin_cleanup_entry (some e) r = (
  put r (record e { state = SessionState.closing }),
  some (if is_closing e.state then record e { announced = false } else e),
  none,
)

-- `CloseAndUnbind` up to its callback: the session is closing, and the snapshot is what the callback gets.
unfoldable pub begin_cleanup :
    Registry → SessionRef → Registry × Option Entry × Option RegistryError
unfolding begin_cleanup_entry
begin_cleanup r ref = begin_cleanup_entry (snapshot r ref) r

finish_cleanup :
    (Registry → Registry)
    → Registry
    → SessionRef
    → Registry × Option Entry × Option RegistryError
    → Registry × Option Entry × Option RegistryError
unfolding unbind
finish_cleanup others r ref (r', none, e) = (r, none, some RegistryError.stale_session)
finish_cleanup others r ref (r', some snap, e) =
    let last = unbind (others r') ref in (last.0, some snap, last.1)

-- `CloseAndUnbind`, where `others` is what other calls make of the registry while the callback runs.
unfoldable pub close_and_unbind :
    (Registry → Registry) → Registry → SessionRef → Registry × Option Entry × Option RegistryError
unfolding begin_cleanup finish_cleanup
close_and_unbind others r ref = finish_cleanup others r ref (begin_cleanup r ref)

-- `EdgeRegistered`, `EdgeGeneration` and `Ref`.
unfoldable pub edge_registered : Registry → ℕ → Bool
edge_registered r id = elim (find id r.edges) [ none ↦ false | some g ↦ true ]

unfoldable pub edge_generation : Registry → ℕ → Option ℕ
edge_generation r id = find id r.edges

unfoldable pub current_ref : Registry → ℕ → Option SessionRef
current_ref r session_id = elim (find session_id r.sessions) [ none ↦ none | some e ↦ some e.ref ]

-- `Sessions`, in the order of the map.
abbrev entries_of : List (ℕ × Entry) → List Entry
entries_of [] = []
entries_of ((sid, e) ∷ m) = e ∷ entries_of m

unfoldable pub all_sessions : Registry → List Entry
all_sessions r = entries_of r.sessions
