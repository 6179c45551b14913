-- ===== src/Voice.antt =====
-- internal/mumble/voicestate.go: the mute and deafen flags of a user. The proto2 presence of a field
-- is a bit of `set_fields`, as in pkg/mumble/protocol/messages/user.go.
pub mod Echo
mod Tests
use go_mumble_server.Base.{ℕ, Bool, true, false, ◌==◌, if◌then◌else◌, ◌&&◌, not, bit_and, bit_or}

-- What `User` embeds.
pub record VoiceState : Type 0 where
  pub mute : Bool
  pub deaf : Bool
  pub suppress : Bool
  pub self_mute : Bool
  pub self_deaf : Bool
  pub priority_speaker : Bool
  pub recording : Bool

-- The fields of the message that concern the voice, and the presence bits.
pub record UserState : Type 0 where
  pub set_fields : ℕ
  pub mute : Bool
  pub deaf : Bool
  pub suppress : Bool
  pub self_mute : Bool
  pub self_deaf : Bool
  pub priority_speaker : Bool
  pub recording : Bool

abbrev pub set_mute : ℕ
set_mute = 0x20

abbrev pub set_deaf : ℕ
set_deaf = 0x40

abbrev pub set_suppress : ℕ
set_suppress = 0x80

abbrev pub set_self_mute : ℕ
set_self_mute = 0x100

abbrev pub set_self_deaf : ℕ
set_self_deaf = 0x200

abbrev pub set_priority_speaker : ℕ
set_priority_speaker = 0x20000

abbrev pub set_recording : ℕ
set_recording = 0x40000

-- `UserState.Has`
unfoldable pub has : ℕ → ℕ → Bool
has fields field = not (bit_and fields field == 0)

-- Deafening asks for muting as well, and leaves that request in the message.
unfoldable pub self_deafen : VoiceState → UserState → VoiceState × UserState
self_deafen vs us =
    if has us.set_fields set_self_deaf
    then (if us.self_deaf
        then (
          record vs { self_deaf = true; self_mute = true },
          record us { self_mute = true; set_fields = bit_or us.set_fields set_self_mute },
        )
        else (record vs { self_deaf = false }, us))
    else (vs, us)

-- Unmuting asks for undeafening.
unfoldable pub self_silence : VoiceState → UserState → VoiceState × UserState
self_silence vs us =
    if has us.set_fields set_self_mute
    then (if us.self_mute then (record vs { self_mute = true }, us) else (
      record vs { self_mute = false; self_deaf = false },
      record us { self_deaf = false; set_fields = bit_or us.set_fields set_self_deaf },
    ))
    else (vs, us)

unfoldable pub self_record : VoiceState → UserState → VoiceState
self_record vs us =
    if has us.set_fields set_recording then record vs { recording = us.recording } else vs

-- `applySelfVoiceState`
unfoldable pub apply_self_voice_state : VoiceState → UserState → VoiceState × UserState
unfolding self_deafen self_silence self_record
apply_self_voice_state vs us =
    let (vs₁, us₁) = self_deafen vs us in
    let (vs₂, us₂) = self_silence vs₁ us₁ in (self_record vs₂ us₂, us₂)

unfoldable pub admin_deafen : VoiceState → UserState → VoiceState × UserState
admin_deafen vs us =
    if has us.set_fields set_deaf
    then (if us.deaf
        then (
          record vs { deaf = true; mute = true },
          record us { mute = true; set_fields = bit_or us.set_fields set_mute },
        )
        else (record vs { deaf = false }, us))
    else (vs, us)

unfoldable pub admin_silence : VoiceState → UserState → VoiceState × UserState
admin_silence vs us =
    if has us.set_fields set_mute
    then (if us.mute then (record vs { mute = true }, us) else (
      record vs { mute = false; deaf = false },
      record us { deaf = false; set_fields = bit_or us.set_fields set_deaf },
    ))
    else (vs, us)

unfoldable pub admin_rest : VoiceState → UserState → VoiceState
admin_rest vs us =
    let vs₁ = if has us.set_fields set_suppress then record vs { suppress = us.suppress } else vs in
    if has us.set_fields set_priority_speaker
    then record vs₁ { priority_speaker = us.priority_speaker }
    else vs₁

-- `applyAdminVoiceState`
unfoldable pub apply_admin_voice_state : VoiceState → UserState → VoiceState × UserState
unfolding admin_deafen admin_silence admin_rest
apply_admin_voice_state vs us =
    let (vs₁, us₁) = admin_deafen vs us in
    let (vs₂, us₂) = admin_silence vs₁ us₁ in (admin_rest vs₂ us₂, us₂)

-- `applySuppressFromSpeak`: the new state, and whether `suppress` changed.
unfoldable pub apply_suppress_from_speak : VoiceState → Bool → VoiceState × Bool
apply_suppress_from_speak vs may_speak =
    let same = if may_speak then vs.suppress else not vs.suppress in
    if same then (record vs { suppress = not may_speak }, true) else (vs, false)

-- `applyChannelEnterEffects`: the new state, and which of the two flags changed.
unfoldable pub apply_channel_enter_effects : VoiceState → Bool → VoiceState × Bool × Bool
unfolding apply_suppress_from_speak
apply_channel_enter_effects vs may_speak =
    let (vs₁, suppress_changed) =
      apply_suppress_from_speak (record vs { priority_speaker = false }) may_speak in
    (vs₁, vs.priority_speaker, suppress_changed)
