-- ===== src/Server/Listeners.antt =====
-- internal/mumble/listeners.go: who listens to which channel. The relation is kept twice, by session
-- and by channel, with the volumes of its pairs; a method is one atomic step, as its lock makes it. `applyListening`
-- calls several methods, and other connections may come between any two. A
-- volume (float32) is a value of any type, and the unit gain is a parameter.
pub mod Dual
pub mod Limits
use go_mumble_server.Base.{
  ℕ, ◌+◌, Bool, true, false, Option, none, some, List, [], ◌∷◌, ◌++◌, length, ltb, ◌==◌,
  if◌then◌else◌, ◌&&◌, ◌||◌, not,
}
use go_mumble_server.Base.Maps.{find, delete, insert}
use go_mumble_server.Base.Sets.{contains, remove, is_empty, members, drop_member, related, sort}

pub record Listeners (V : Type 0) : Type 0 where
  pub by_session : List (ℕ × List ℕ)
  pub by_channel : List (ℕ × List ℕ)
  pub volumes : List (ℕ × List (ℕ × V))

-- Make the set of a key if there is none.
unfoldable pub ensure : ℕ → List (ℕ × List ℕ) → List (ℕ × List ℕ)
ensure k m = elim (find k m) [ none ↦ insert k [] m | some s ↦ m ]

-- Put `x` in the set of `k`.
unfoldable pub put_member : ℕ → ℕ → List (ℕ × List ℕ) → List (ℕ × List ℕ)
put_member k x m = insert k (x ∷ members k m) m

-- Take a session's pairs away from the sets of these channels (or the other way round).
unfoldable pub drop_from : List ℕ → ℕ → List (ℕ × List ℕ) → List (ℕ × List ℕ)
unfolding drop_member
drop_from [] x m = m
drop_from (k ∷ ks) x m = drop_from ks x (drop_member k x m)

abbrev pub volumes_of : {V : Type 0} → ℕ → List (ℕ × List (ℕ × V)) → List (ℕ × V)
volumes_of k m = elim (find k m) [ none ↦ [] | some s ↦ s ]

module _ {V : Type 0} where
  unfoldable pub drop_volume : ℕ → ℕ → List (ℕ × List (ℕ × V)) → List (ℕ × List (ℕ × V))
  drop_volume session channel m =
      let left = delete channel (volumes_of session m) in
      if is_empty left then delete session m else insert session left m

  unfoldable pub drop_volumes : List ℕ → ℕ → List (ℕ × List (ℕ × V)) → List (ℕ × List (ℕ × V))
  unfolding drop_volume
  drop_volumes [] channel m = m
  drop_volumes (s ∷ ss) channel m = drop_volumes ss channel (drop_volume s channel m)

  -- `Add`: the new state, and whether the pair is new.
  unfoldable pub add : Listeners V → ℕ → ℕ → Listeners V × Bool
  unfolding ensure put_member
  add l session channel =
      let by_session = ensure session l.by_session in
      let by_channel = ensure channel l.by_channel in
      if related by_session session channel
      then (record l { by_session = by_session; by_channel = by_channel }, false)
      else (
        record l {
          by_session = put_member session channel by_session;
          by_channel = put_member channel session by_channel;
        },
        true,
      )

  -- `Remove`: the new state, and whether the pair was there.
  unfoldable pub remove_pair : Listeners V → ℕ → ℕ → Listeners V × Bool
  unfolding drop_volume
  remove_pair l session channel =
      if related l.by_session session channel
      then (
        record {
          by_session = drop_member session channel l.by_session;
          by_channel = drop_member channel session l.by_channel;
          volumes = drop_volume session channel l.volumes;
        },
        true,
      )
      else (l, false)

  -- `RemoveAllFor`: the new state and the channels, in order.
  unfoldable pub remove_all_for : Listeners V → ℕ → Listeners V × List ℕ
  unfolding drop_from
  remove_all_for l session = elim (find session l.by_session) [
    | none ↦ (l, [])
    | some chans ↦ (
      record {
        by_session = delete session l.by_session;
        by_channel = drop_from chans session l.by_channel;
        volumes = delete session l.volumes;
      },
      sort chans,
    )
  ]

  -- `RemoveChannel`: the new state and the sessions, in order.
  unfoldable pub remove_channel : Listeners V → ℕ → Listeners V × List ℕ
  unfolding drop_from drop_volumes
  remove_channel l channel = elim (find channel l.by_channel) [
    | none ↦ (l, [])
    | some sessions ↦ (
      record {
        by_session = drop_from sessions channel l.by_session;
        by_channel = delete channel l.by_channel;
        volumes = drop_volumes sessions channel l.volumes;
      },
      sort sessions,
    )
  ]

  unfoldable pub channels_for : Listeners V → ℕ → List ℕ
  channels_for l session = sort (members session l.by_session)

  unfoldable pub session_ids_in : Listeners V → ℕ → List ℕ
  session_ids_in l channel = sort (members channel l.by_channel)

  unfoldable pub is_listening : Listeners V → ℕ → ℕ → Bool
  is_listening l session channel = related l.by_session session channel

  unfoldable pub count_in_channel : Listeners V → ℕ → ℕ
  count_in_channel l channel = length (members channel l.by_channel)

  unfoldable pub count_for_session : Listeners V → ℕ → ℕ
  count_for_session l session = length (members session l.by_session)

  -- `SetVolume`, for a pair that is there.
  unfoldable pub set_volume : Listeners V → ℕ → ℕ → V → Listeners V
  set_volume l session channel v =
      if related l.by_session session channel
      then record l {
        volumes = insert session (insert channel v (volumes_of session l.volumes)) l.volumes;
      }
      else l

  -- `Volume`
  unfoldable pub volume : V → Listeners V → ℕ → ℕ → V
  volume unit l session channel = elim (find channel (volumes_of session l.volumes)) [
    | none ↦ unit
    | some v ↦ v
  ]

-- What `applyListening` asks of the rest of the server, for one session.
pub record Context : Type 0 where
  pub has_channel : ℕ → Bool
  pub may_listen : ℕ → Bool
  pub max_channel_listeners : ℕ
  pub max_listeners_per_user : ℕ

-- What it answers to a request to listen to a channel; nothing for a channel that does not exist.
pub data Reply : Type 0 where
  denied_permission denied_channel_limit denied_user_limit : ℕ → Reply

-- A limit of 0 is none.
abbrev pub over : ℕ → ℕ → Bool
over limit n = ltb 0 limit && ltb limit (n + 1)

-- `clock` counts the times that the request took the lock.
pub record Applied (V : Type 0) : Type 0 where
  pub listeners : Listeners V
  pub clock : ℕ
  pub replies : List Reply
  pub added : List ℕ
  pub removed : List ℕ
  pub volumes : List (ℕ × V)

module _ {V : Type 0} where
  abbrev pub note_added : Listeners V × Bool → ℕ → Applied V → Applied V
  note_added r channel a = record a {
    listeners = r.0;
    added = if r.1 then a.added ++ (channel ∷ []) else a.added;
  }

  abbrev pub reply : Reply → Applied V → Applied V
  reply r a = record a { replies = a.replies ++ (r ∷ []) }

  -- Nobody comes between.
  abbrev pub nobody : ℕ → Listeners V → Listeners V
  nobody moment l = l

  -- `others` is what other connections do to the listeners before the request takes the lock for the
  -- first time, the second time and so on.
  module _ (others : ℕ → Listeners V → Listeners V) where
    abbrev pub wait : Applied V → Applied V
    wait a = record a { listeners = others a.clock a.listeners; clock = a.clock + 1 }

    -- A round of the first loop: `CountInChannel`, `CountForSession` and `Add` each take the lock.
    unfoldable pub apply_add : Context → ℕ → Applied V → ℕ → Applied V
    unfolding add count_in_channel count_for_session
    apply_add ctx session a channel =
        let counted = wait a in
        let asked = wait counted in
        let ready = wait asked in
        if not (ctx.has_channel channel)
        then a
        else (if not (ctx.may_listen channel)
            then reply (Reply.denied_permission channel) a
            else (if over ctx.max_channel_listeners (count_in_channel counted.listeners channel)
                then reply (Reply.denied_channel_limit channel) counted
                else (if over ctx.max_listeners_per_user (count_for_session asked.listeners session)
                    then reply (Reply.denied_user_limit channel) asked
                    else note_added (add ready.listeners session channel) channel ready)))

    unfoldable pub apply_remove : ℕ → Applied V → ℕ → Applied V
    unfolding remove_pair
    apply_remove session a channel =
        let ready = wait a in
        let r = remove_pair ready.listeners session channel in
        record ready {
          listeners = r.0;
          removed = if r.1 then a.removed ++ (channel ∷ []) else a.removed;
        }

    -- `IsListening` and `SetVolume` each take the lock.
    unfoldable pub apply_volume : ℕ → Applied V → ℕ × V → Applied V
    unfolding is_listening set_volume
    apply_volume session a va =
        let asked = wait a in
        let ready = wait asked in
        if is_listening asked.listeners session va.0
        then record ready {
          listeners = set_volume ready.listeners session va.0 va.1;
          volumes = a.volumes ++ (va ∷ []);
        }
        else asked

  abbrev pub fold_left : {A : Type 0} → (Applied V → A → Applied V) → Applied V → List A → Applied V
  fold_left f a [] = a
  fold_left f a (x ∷ xs) = fold_left f (f a x) xs

  abbrev pub nothing_applied : Listeners V → Applied V
  nothing_applied l = record {
    listeners = l;
    clock = 0;
    replies = [];
    added = [];
    removed = [];
    volumes = [];
  }

  -- `applyListening`, up to the messages: they are sent if one of the last three lists is not empty, and
  -- the volumes go to the listener alone.
  unfoldable pub apply_listening :
      (ℕ → Listeners V → Listeners V)
      → Context
      → Listeners V
      → ℕ
      → List ℕ
      → List ℕ
      → List (ℕ × V)
      → Applied V
  unfolding apply_add apply_remove apply_volume
  apply_listening others ctx l session adds removes vols =
      let a₁ = fold_left (apply_add others ctx session) (nothing_applied l) adds in
      let a₂ = fold_left (apply_remove others session) a₁ removes in
      fold_left (apply_volume others session) a₂ vols
