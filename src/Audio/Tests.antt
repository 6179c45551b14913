-- ===== src/Audio/Tests.antt =====
-- Runs of pkg/mumble/audio/varint.go, legacy.go and cache.go, and of internal/audio.
use go_mumble_server.Audio.Varint.RoundTrip.{Encoded, encode_varint-Encoded}
use go_mumble_server.Audio.Legacy.{
  Frame, Delivery, Parsed, encode_legacy, decode_legacy, merge_delivery, max_packet_size,
}
use go_mumble_server.Audio.Legacy.RoundTrip.{IsSendable, received, decode-encode_legacy}
use go_mumble_server.Audio.Legacy.Merge.{SameRoute, merge_delivery_lem}
use go_mumble_server.Audio.Router.{RouterConfig, Recipient, route_ref, unit_volume}
use go_mumble_server.Cluster.Registry.{SessionRef}
use go_mumble_server.Audio.Router.Heard.{
  hears, is_open, is_there, is_recipient, IsResolved, route_ref_lem,
}
use go_mumble_server.Base.Maps.{find, insert}
use go_mumble_server.Base.{
  none, Option, All, ◌==◌, if◌then◌else◌, ◌&&◌, ℕ, List, length, ◌≤◌, true, ◌^◌, arith, ◌≡◌, refl,
  some, [], ◌∷◌, replicate,
}
use go_mumble_server.Base.Int.{pos, negsuc}
use go_mumble_server.Audio.Varint.{encode_varint, decode_varint}
use go_mumble_server.Audio.Varint.Least.{least, encode_varint-least}

encode_varint-least_example : encode_varint 10 least ≡ some (replicate 10 0xF8)
encode_varint-least_example = encode_varint-least 10

-- 300, and -300 behind the prefix of a negative number.
encodes_300 : encode_varint 10 (pos 300) ≡ some (0x81 ∷ 0x2C ∷ [])
unfolding encode_varint
encodes_300 = refl

decodes_300 : decode_varint (0xF8 ∷ 0x81 ∷ 0x2C ∷ []) ≡ (negsuc 299, 3)
unfolding decode_varint
decodes_300 = refl

encode_varint-Encoded_example : Encoded 10 (negsuc 299)
encode_varint-Encoded_example = encode_varint-Encoded 10 (negsuc 299) (omega arith) (omega arith)

abbrev frame : Frame
frame = record {
  codec = 4;
  target = 0;
  sender_session = 300;
  frame_number = 2 ^ 63;
  opus_data = 1 ∷ 2 ∷ 3 ∷ [];
  position = some (record { x = 1; y = 2; z = 3 });
  is_terminator = true;
}

abbrev shouted : Delivery
shouted = record { frame = frame; context = 1; volume_adjustment = 0 }

shouted-IsSendable : IsSendable shouted true
shouted-IsSendable = record {
  opus = refl;
  target = omega arith;
  context = omega arith;
  data_fits = omega arith;
  session_fits = omega arith;
  number_fits = omega arith;
  position_fits = (omega arith, omega arith, omega arith);
}

decode-encode_legacy_example :
    (b : List ℕ) × (encode_legacy shouted true ≡ some b)
    × (length b ≤ max_packet_size → decode_legacy b true ≡ Parsed.ok (received shouted true))
decode-encode_legacy_example = decode-encode_legacy shouted true shouted-IsSendable

abbrev listened : Delivery
listened = record { frame = frame; context = 3; volume_adjustment = 0x40000000 }

-- A volume that is no number.
abbrev odd : Delivery
odd = record { frame = frame; context = 0; volume_adjustment = 0x7FC00000 }

merge_delivery_lem_example :
    SameRoute (merge_delivery shouted listened) (merge_delivery listened shouted)
    × SameRoute
        (merge_delivery (merge_delivery shouted listened) shouted)
        (merge_delivery shouted (merge_delivery listened shouted))
    × SameRoute
        (merge_delivery (merge_delivery shouted listened) listened)
        (merge_delivery shouted listened)
    × ((merge_delivery shouted odd).volume_adjustment ≡ 0)
    × ((merge_delivery odd shouted).volume_adjustment ≡ 0x7FC00000)
merge_delivery_lem_example = merge_delivery_lem shouted listened shouted odd refl refl refl refl

-- Channel 1 holds sessions 1 and 2, and session 3 listens to it; 4 is elsewhere.
abbrev everyone_in : ℕ → List ℕ
everyone_in cid = if cid == 1 then (1 ∷ 2 ∷ []) else (4 ∷ [])

abbrev plain_config : RouterConfig
plain_config = record {
  has_sender = true;
  get_chan = some (λ session. 1);
  get_users_in_chan = some everyone_in;
  resolve_voice_target = none;
  resolve_session = λ session. some (record { session_id = session; generation = 1 });
  get_linked_chans = λ cid. [];
  get_listeners_in_chan = λ cid. 3 ∷ [];
  get_listener_volume = λ session cid. unit_volume;
  filter_recipient = λ sender session. true;
  can_sender_speak = λ session. true;
  can_sender_speak_in_chan = λ session cid. true;
}

abbrev to_channel : Frame
to_channel = record frame { sender_session = 1 }

abbrev alice : SessionRef
alice = record { session_id = 1; generation = 1 }

abbrev ids_of : List Recipient → List ℕ
ids_of [] = []
ids_of (r ∷ rs) = r.session_id ∷ ids_of rs

abbrev sent_to : Option (Frame × List Recipient) → List ℕ
sent_to none = []
sent_to (some sent) = ids_of sent.1

two_and_three : sent_to (route_ref plain_config alice frame) ≡ 2 ∷ 3 ∷ []
unfolding route_ref find insert
two_and_three = refl

route_ref_lem_example :
    (rs : List Recipient) × (route_ref plain_config alice frame ≡ some (to_channel, rs))
    × (is_recipient rs 3 ≡ (
        is_there (plain_config.resolve_session 3)
        && (hears plain_config 1 to_channel everyone_in (1 ∷ []) 3
            && is_open plain_config 1 to_channel 3)))
    × All (IsResolved plain_config.resolve_session) rs
route_ref_lem_example =
    route_ref_lem plain_config alice frame (λ session. 1) everyone_in 3 refl refl refl refl refl
