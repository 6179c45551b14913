-- ===== src/Users/Views.antt =====
-- internal/user/manager.go: the reads of the state. Where the source ranges over a map in no order, the
-- order of the list stands for it.
use go_mumble_server.Base.{
  ℕ, suc, ◌≡◌, refl, ap, Bool, Option, none, some, List, [], ◌∷◌, length, if◌then◌else◌, ◌==◌,
  Bool-cases, inl, inr,
}
use go_mumble_server.Base.Maps.{find, insert}
use go_mumble_server.Voice.{VoiceState}
use go_mumble_server.Users.Manager.{User, Manager, at_address, of_session, is_some}

-- The records that `bySession` leads to.
unfoldable pub users_of : Manager → List (ℕ × ℕ) → List User
users_of m [] = []
users_of m ((sid, a) ∷ s) = elim (at_address m (some a)) [
  | none ↦ users_of m s
  | some p ↦ p.1 ∷ users_of m s
]

-- `SnapshotAll`
unfoldable pub snapshot_all : Manager → List User
unfolding users_of
snapshot_all m = users_of m m.by_session

unfoldable pub in_channel : ℕ → List User → List User
in_channel channel [] = []
in_channel channel (u ∷ us) =
    if u.channel_id == channel then (u ∷ in_channel channel us) else in_channel channel us

-- `SnapshotByChannel`
unfoldable pub snapshot_by_channel : Manager → ℕ → List User
unfolding snapshot_all in_channel
snapshot_by_channel m channel = in_channel channel (snapshot_all m)

unfoldable pub ids_in_channel : ℕ → List User → List ℕ
ids_in_channel channel [] = []
ids_in_channel channel (u ∷ us) =
    if u.channel_id == channel
    then (u.session_id ∷ ids_in_channel channel us)
    else ids_in_channel channel us

-- `SessionIDsInChannel`
unfoldable pub session_ids_in_channel : Manager → ℕ → List ℕ
unfolding ids_in_channel snapshot_all
session_ids_in_channel m channel = ids_in_channel channel (snapshot_all m)

unfoldable pub count_in : ℕ → List User → ℕ
count_in channel [] = 0
count_in channel (u ∷ us) =
    if u.channel_id == channel then suc (count_in channel us) else count_in channel us

-- `CountInChannel`
unfoldable pub count_in_channel : Manager → ℕ → ℕ
unfolding count_in snapshot_all
count_in_channel m channel = count_in channel (snapshot_all m)

-- `Count`
unfoldable pub count : Manager → ℕ
count m = length m.by_session

-- `Exists`
unfoldable pub exists : Manager → ℕ → Bool
exists m sid = is_some (find sid m.by_session)

unfoldable pub first_of_user : ℕ → List User → Option User
first_of_user id [] = none
first_of_user id (u ∷ us) = if u.user_id == id then some u else first_of_user id us

-- `SnapshotByUserID`
unfoldable pub snapshot_by_user_id : Manager → ℕ → Option User
unfolding first_of_user snapshot_all
snapshot_by_user_id m id = first_of_user id (snapshot_all m)

-- `VoiceState`
unfoldable pub voice_state : Manager → ℕ → Option VoiceState
voice_state m sid = elim (of_session m sid) [ none ↦ none | some p ↦ some p.1.voice_state ]

pub record SpeakGate : Type 0 where
  pub voice_state : VoiceState
  pub user_id : ℕ
  pub channel_id : ℕ

-- `SpeakGateFor`
unfoldable pub speak_gate_for : Manager → ℕ → Option SpeakGate
speak_gate_for m sid = elim (of_session m sid) [
  | none ↦ none
  | some p ↦
      some (record {
        voice_state = p.1.voice_state;
        user_id = p.1.user_id;
        channel_id = p.1.channel_id;
      })
]

-- `ChannelID`
unfoldable pub channel_id : Manager → ℕ → Option ℕ
channel_id m sid = elim (of_session m sid) [ none ↦ none | some p ↦ some p.1.channel_id ]

-- `SetPing`
unfoldable pub set_ping : Manager → ℕ → ℕ → Manager
set_ping m sid ping = elim (of_session m sid) [
  | none ↦ m
  | some p ↦ record m { heap = insert p.0 (record p.1 { ping = ping }) m.heap }
]

counted_ids :
    (channel : ℕ) (us : List User) → length (ids_in_channel channel us) ≡ count_in channel us
unfolding ids_in_channel count_in
counted_ids channel [] = refl
counted_ids channel (u ∷ us) = elim (Bool-cases (u.channel_id == channel)) [
  | inl e ↦ rw e (ap suc (counted_ids channel us))
  | inr e ↦ rw e (counted_ids channel us)
]

-- The count of a channel's users is that of their ids.
pub count-session_ids :
    (m : Manager) (channel : ℕ)
    → length (session_ids_in_channel m channel) ≡ count_in_channel m channel
unfolding session_ids_in_channel count_in_channel
count-session_ids m channel = counted_ids channel (snapshot_all m)
