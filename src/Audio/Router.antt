-- ===== src/Audio/Router.antt =====
-- internal/audio/router.go: who is sent a voice frame. The functions of `RouterConfig` are a record; one that
-- is nil there is the function that its test falls back to here, and `none` for the two that are needed. What
-- is given to `SendVoice` is the result. A volume is the bits of a float32.
pub mod Heard
use go_mumble_server.Base.{
  ℕ, Bool, true, false, not, ◌&&◌, ◌||◌, Option, none, some, List, [], ◌∷◌, ◌++◌, if◌then◌else◌,
  ◌==◌, ltb,
}
use go_mumble_server.Base.Maps.{find, insert}
use go_mumble_server.Cluster.Registry.{SessionRef}
use go_mumble_server.Audio.Legacy.{Frame, Delivery, merge_delivery}

pub record Recipient : Type 0 where
  pub session_id : ℕ
  pub session : SessionRef
  pub delivery : Delivery

pub record RouterConfig : Type 0 where
  pub has_sender : Bool
  pub get_chan : Option (ℕ → ℕ)
  pub get_users_in_chan : Option (ℕ → List ℕ)
  pub resolve_voice_target : Option (ℕ → ℕ → Frame → List Recipient)
  pub resolve_session : ℕ → Option SessionRef
  pub get_linked_chans : ℕ → List ℕ
  pub get_listeners_in_chan : ℕ → List ℕ
  pub get_listener_volume : ℕ → ℕ → ℕ
  pub filter_recipient : ℕ → ℕ → Bool
  pub can_sender_speak : ℕ → Bool
  pub can_sender_speak_in_chan : ℕ → ℕ → Bool

-- The volume 1.
abbrev pub unit_volume : ℕ
unit_volume = 0x3F800000

abbrev pub context_normal : ℕ
context_normal = 0

abbrev pub context_listen : ℕ
context_listen = 3

module _ (cfg : RouterConfig) (sender : ℕ) (frame : Frame) where
  -- `add`
  unfoldable pub add_recipient : List (ℕ × Delivery) → ℕ → ℕ → ℕ → List (ℕ × Delivery)
  unfolding merge_delivery
  add_recipient rs sid context volume =
      let d : Delivery = record { frame = frame; context = context; volume_adjustment = volume } in
      if sid == sender || not (cfg.filter_recipient sender sid)
      then rs
      else insert sid (elim (find sid rs) [ none ↦ d | some old ↦ merge_delivery old d ]) rs

  unfoldable pub add_users : List ℕ → List (ℕ × Delivery) → List (ℕ × Delivery)
  unfolding add_recipient
  add_users [] rs = rs
  add_users (sid ∷ sids) rs = add_users sids (add_recipient rs sid context_normal unit_volume)

  unfoldable pub add_listeners : ℕ → List ℕ → List (ℕ × Delivery) → List (ℕ × Delivery)
  unfolding add_recipient
  add_listeners cid [] rs = rs
  add_listeners cid (sid ∷ sids) rs =
      add_listeners cid sids (add_recipient rs sid context_listen (cfg.get_listener_volume sid cid))

  -- The loop over the channels.
  unfoldable pub add_channels : (ℕ → List ℕ) → List ℕ → List (ℕ × Delivery) → List (ℕ × Delivery)
  unfolding add_users add_listeners
  add_channels users [] rs = rs
  add_channels users (cid ∷ cids) rs =
      let there = add_listeners cid (cfg.get_listeners_in_chan cid) (add_users (users cid) rs) in
      let heard = add_channels users cids there in
      let skipped = add_channels users cids rs in
      if not (cfg.can_sender_speak_in_chan sender cid) then skipped else heard

-- The recipients whose sessions are still there.
unfoldable pub canonical : (ℕ → Option SessionRef) → List (ℕ × Delivery) → List Recipient
canonical resolve [] = []
canonical resolve ((sid, d) ∷ rs) = elim (resolve sid) [
  | none ↦ canonical resolve rs
  | some ref ↦ record { session_id = sid; session = ref; delivery = d } ∷ canonical resolve rs
]

unfoldable pub route_normal :
    RouterConfig
    → SessionRef
    → Frame
    → Option (ℕ → ℕ)
    → Option (ℕ → List ℕ)
    → Option (Frame × List Recipient)
unfolding add_channels canonical
route_normal cfg ref frame none users = none
route_normal cfg ref frame (some chan) none = none
route_normal cfg ref frame (some chan) (some users) =
    let ch = chan ref.session_id in
    let rs = add_channels cfg ref.session_id frame users (ch ∷ cfg.get_linked_chans ch) [] in
    some (frame, canonical cfg.resolve_session rs)

-- `RouteRef`: what is sent, `none` for nothing.
unfoldable pub route_ref : RouterConfig → SessionRef → Frame → Option (Frame × List Recipient)
unfolding route_normal
route_ref cfg ref frame =
    let sender = ref.session_id in
    let f = record frame { sender_session = sender } in
    if not cfg.has_sender || ltb 31 frame.target
    then none
    else (if ltb 0 frame.target && ltb frame.target 31
        then elim cfg.resolve_voice_target [
          | none ↦ none
          | some resolve ↦ some (f, resolve sender frame.target f)
        ]
        else (if frame.target == 31
            then some (
              f,
              record {
                session_id = sender;
                session = ref;
                delivery = record { frame = f; context = context_normal; volume_adjustment = 0 };
              }
                  ∷ [],
            )
            else (if not (cfg.can_sender_speak sender)
                then none
                else route_normal cfg ref f cfg.get_chan cfg.get_users_in_chan)))

-- `Route`
unfoldable pub route : RouterConfig → ℕ → Frame → Option (Frame × List Recipient)
unfolding route_ref
route cfg sender frame = elim (cfg.resolve_session sender) [
  | none ↦ none
  | some ref ↦ route_ref cfg ref frame
]
