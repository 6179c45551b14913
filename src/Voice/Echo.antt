-- ===== src/Voice/Echo.antt =====
-- internal/mumble/voicestate.go: the flags after a message, and what the message tells of them.
use go_mumble_server.Base.{
  ℕ, List, [], ◌∷◌, ◌≡◌, refl, Bool, true, if◌then◌else◌, ◌||◌, not, bit_and, bit_or, arith,
}
use go_mumble_server.Base.Bits.{bit, bit_and-or, bit_or_zero, bit_or-pos, bit_and_self}
use go_mumble_server.Voice.{
  VoiceState, UserState, has, set_mute, set_deaf, set_suppress, set_self_mute, set_self_deaf,
  set_priority_speaker, set_recording, self_deafen, self_silence, self_record,
  apply_self_voice_state, admin_deafen, admin_silence, admin_rest, apply_admin_voice_state,
  apply_channel_enter_effects, apply_suppress_from_speak,
}

-- Who is deafened is muted.
abbrev pub IsConsistent : VoiceState → Type 0
IsConsistent vs = ((not vs.deaf || vs.mute) ≡ true) × ((not vs.self_deaf || vs.self_mute) ≡ true)

self-IsConsistent :
    (vs : VoiceState) (us : UserState)
    → IsConsistent vs
    → IsConsistent ((apply_self_voice_state vs us).0)
unfolding apply_self_voice_state self_deafen self_silence self_record
self-IsConsistent vs us p = ground arith

admin-IsConsistent :
    (vs : VoiceState) (us : UserState)
    → IsConsistent vs
    → IsConsistent ((apply_admin_voice_state vs us).0)
unfolding apply_admin_voice_state admin_deafen admin_silence admin_rest
admin-IsConsistent vs us p = ground arith

enter-IsConsistent :
    (vs : VoiceState) (may_speak : Bool)
    → IsConsistent vs
    → IsConsistent ((apply_channel_enter_effects vs may_speak).0)
unfolding apply_channel_enter_effects apply_suppress_from_speak
enter-IsConsistent vs may_speak p = ground arith

-- What can happen to the flags: a client's own message, an administrator's, a move to a channel.
pub data Change : Type 0 where
  own : UserState → Change
  imposed : UserState → Change
  enters : Bool → Change

unfoldable pub changes : VoiceState → List Change → VoiceState
unfolding apply_self_voice_state apply_admin_voice_state apply_channel_enter_effects
changes vs [] = vs
changes vs (Change.own us ∷ cs) = changes (apply_self_voice_state vs us).0 cs
changes vs (Change.imposed us ∷ cs) = changes (apply_admin_voice_state vs us).0 cs
changes vs (Change.enters may_speak ∷ cs) = changes (apply_channel_enter_effects vs may_speak).0 cs

-- After any sequence of messages of the client, messages of administrators and moves to other
-- channels, a user who is deafened is muted, and one who deafened himself muted himself, if that
-- was so before.
pub changes-IsConsistent :
    (vs : VoiceState) (cs : List Change) → IsConsistent vs → IsConsistent (changes vs cs)
unfolding changes
changes-IsConsistent vs [] p = p
changes-IsConsistent vs (Change.own us ∷ cs) p =
    changes-IsConsistent (apply_self_voice_state vs us).0 cs (self-IsConsistent vs us p)
changes-IsConsistent vs (Change.imposed us ∷ cs) p =
    changes-IsConsistent (apply_admin_voice_state vs us).0 cs (admin-IsConsistent vs us p)
changes-IsConsistent vs (Change.enters may_speak ∷ cs) p =
    changes-IsConsistent (apply_channel_enter_effects vs may_speak).0 cs
      (enter-IsConsistent vs may_speak p)

has-or_other : (f m b : ℕ) → bit_and m b ≡ 0 → has (bit_or f m) b ≡ has f b
unfolding has
has-or_other f m b h = rw (bit_and-or f m b, h, bit_or_zero (bit_and f b)) refl

has-or_same : (f m k : ℕ) → bit m k ≡ 1 → has (bit_or f m) m ≡ true
unfolding has
has-or_same f m k h =
    ground (arith, bit_and-or f m m, bit_and_self m, bit_or-pos (bit_and f m) m k h)

-- What a peer makes of a message: each field that is present is taken over.
abbrev pub told : VoiceState → UserState → VoiceState
told vs us = record {
  mute = if has us.set_fields set_mute then us.mute else vs.mute;
  deaf = if has us.set_fields set_deaf then us.deaf else vs.deaf;
  suppress = if has us.set_fields set_suppress then us.suppress else vs.suppress;
  self_mute = if has us.set_fields set_self_mute then us.self_mute else vs.self_mute;
  self_deaf = if has us.set_fields set_self_deaf then us.self_deaf else vs.self_deaf;
  priority_speaker =
      if has us.set_fields set_priority_speaker then us.priority_speaker else vs.priority_speaker;
  recording = if has us.set_fields set_recording then us.recording else vs.recording;
}

abbrev pub SameSelf : VoiceState → VoiceState → Type 0
SameSelf a b =
    (a.self_mute ≡ b.self_mute) × (a.self_deaf ≡ b.self_deaf) × (a.recording ≡ b.recording)

-- What the message says after `applySelfVoiceState` is enough: a peer who knew the flags and takes over
-- the fields that are present has the same own mute, deafen and recording flags as the server.
pub self_told :
    (vs : VoiceState) (us : UserState)
    → SameSelf (told vs (apply_self_voice_state vs us).1) (apply_self_voice_state vs us).0
unfolding apply_self_voice_state self_deafen self_silence self_record
self_told vs us =
    let f = us.set_fields in
    ground (
      arith,
      has-or_other f set_self_mute set_self_deaf refl,
      has-or_other f set_self_deaf set_self_mute refl,
      has-or_other f set_self_mute set_recording refl,
      has-or_other f set_self_deaf set_recording refl,
      has-or_same f set_self_mute 8 refl,
      has-or_same f set_self_deaf 9 refl,
    )

abbrev pub SameImposed : VoiceState → VoiceState → Type 0
SameImposed a b =
    (a.mute ≡ b.mute)
    × (a.deaf ≡ b.deaf)
    × (a.suppress ≡ b.suppress)
    × (a.priority_speaker ≡ b.priority_speaker)

-- What the message says after `applyAdminVoiceState` is enough: a peer who knew the flags and takes
-- over the fields that are present has the same mute, deafen, suppress and priority speaker flags as
-- the server.
pub admin_told :
    (vs : VoiceState) (us : UserState)
    → SameImposed (told vs (apply_admin_voice_state vs us).1) (apply_admin_voice_state vs us).0
unfolding apply_admin_voice_state admin_deafen admin_silence admin_rest
admin_told vs us =
    let f = us.set_fields in
    ground (
      arith,
      has-or_other f set_mute set_deaf refl,
      has-or_other f set_deaf set_mute refl,
      has-or_other f set_mute set_suppress refl,
      has-or_other f set_deaf set_suppress refl,
      has-or_other f set_mute set_priority_speaker refl,
      has-or_other f set_deaf set_priority_speaker refl,
      has-or_same f set_mute 5 refl,
      has-or_same f set_deaf 6 refl,
    )
