-- ===== src/Voice/Tests.antt =====
-- A user who unmutes while being deafened.
use go_mumble_server.Base.{refl, true, false, [], ◌∷◌}
use go_mumble_server.Voice.{
  VoiceState, UserState, set_self_mute, apply_self_voice_state, apply_admin_voice_state,
}
use go_mumble_server.Voice.Echo.{
  IsConsistent, Change, changes, changes-IsConsistent, SameSelf, SameImposed, told, self_told,
  admin_told,
}

abbrev deafened : VoiceState
deafened = record {
  mute = false;
  deaf = false;
  suppress = false;
  self_mute = true;
  self_deaf = true;
  priority_speaker = false;
  recording = false;
}

abbrev unmutes : UserState
unmutes = record {
  set_fields = set_self_mute;
  mute = false;
  deaf = false;
  suppress = false;
  self_mute = false;
  self_deaf = false;
  priority_speaker = false;
  recording = false;
}

changes-IsConsistent_example :
    IsConsistent
      (changes deafened (Change.own unmutes ∷ Change.imposed unmutes ∷ Change.enters true ∷ []))
changes-IsConsistent_example =
    changes-IsConsistent deafened
      (Change.own unmutes ∷ Change.imposed unmutes ∷ Change.enters true ∷ []) (refl, refl)

self_told_example :
    SameSelf
      (told deafened (apply_self_voice_state deafened unmutes).1)
      (apply_self_voice_state deafened unmutes).0
self_told_example = self_told deafened unmutes

admin_told_example :
    SameImposed
      (told deafened (apply_admin_voice_state deafened unmutes).1)
      (apply_admin_voice_state deafened unmutes).0
admin_told_example = admin_told deafened unmutes
