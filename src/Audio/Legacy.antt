-- ===== src/Audio/Legacy.antt =====
-- pkg/mumble/audio/legacy.go, frame.go and cache.go: the legacy voice packet, and the merge of two
-- deliveries. A float32 is its bits.
pub mod RoundTrip
pub mod Merge
use go_mumble_server.Base.{
  ℕ, zero, suc, ◌+◌, ◌-◌, ◌*◌, ◌/◌, ◌%◌, ◌^◌, Bool, true, false, not, ◌&&◌, ◌||◌, Option, none,
  some, List, [], ◌∷◌, ◌++◌, length, take, drop, ltb, leb, ◌==◌, if◌then◌else◌, bit_and, bit_or,
}
use go_mumble_server.Base.Int.{ℤ, pos, negsuc}
use go_mumble_server.Crypto.CryptState.{big_endian}
use go_mumble_server.Protocol.Wire.{little_endian, from_little_endian}
use go_mumble_server.Audio.Varint.{decode_varint, encode_varint}

abbrev pub max_packet_size : ℕ
max_packet_size = 1024

abbrev pub codec_opus : ℕ
codec_opus = 4

pub data AudioError : Type 0 where
  packet_too_short invalid_packet : AudioError

pub data Parsed {ℓ} (A : Type ℓ) : Type ℓ where
  ok : A → Parsed A
  failed : AudioError → Parsed A

abbrev pub and_then {ℓ ℓ'} : {A : Type ℓ} {B : Type ℓ'} → Parsed A → (A → Parsed B) → Parsed B
and_then (Parsed.ok a) f = f a
and_then (Parsed.failed e) f = Parsed.failed e

-- `Position` with `HasPosition`.
pub record Position : Type 0 where
  pub x : ℕ
  pub y : ℕ
  pub z : ℕ

pub record Frame : Type 0 where
  pub codec : ℕ
  pub target : ℕ
  pub sender_session : ℕ
  pub frame_number : ℕ
  pub opus_data : List ℕ
  pub position : Option Position
  pub is_terminator : Bool

-- `Delivery`; a volume, a float32, is the number that its 32 bits write.
pub record Delivery : Type 0 where
  pub frame : Frame
  pub context : ℕ
  pub volume_adjustment : ℕ

abbrev pub uint64 : ℤ → ℕ
uint64 (pos v) = v
uint64 (negsuc k) = 2 ^ 64 - 1 - k

-- `read`: the number and the bytes behind it.
unfoldable pub read_number : List ℕ → Parsed (ℕ × List ℕ)
unfolding decode_varint
read_number [] = Parsed.failed AudioError.packet_too_short
read_number (c ∷ b) =
    let r = decode_varint (c ∷ b) in
    if leb 0xf8 c
    then Parsed.failed AudioError.invalid_packet
    else (if r.1 == 0
        then Parsed.failed AudioError.packet_too_short
        else Parsed.ok (uint64 r.0, drop r.1 (c ∷ b)))

-- The session, which only a server's packet has.
unfoldable pub read_session : Bool → List ℕ → Parsed (ℕ × List ℕ)
unfolding read_number
read_session false b = Parsed.ok (0, b)
read_session true b =
    and_then (read_number b)
      (λ r. if ltb (2 ^ 32 - 1) r.0 then Parsed.failed AudioError.invalid_packet else Parsed.ok r)

unfoldable pub read_position : List ℕ → Position
unfolding from_little_endian
read_position b = record {
  x = from_little_endian (take 4 b);
  y = from_little_endian (take 4 (drop 4 b));
  z = from_little_endian (take 4 (drop 8 b));
}

-- What follows the size: the data and perhaps a position.
unfoldable pub read_data : Frame → ℕ → List ℕ → Parsed Frame
unfolding read_position
read_data f size b =
    let n = bit_and size 0x1fff in
    let rest = drop n b in
    if ltb 0x3fff size
    then Parsed.failed AudioError.invalid_packet
    else (if ltb (length b) n
        then Parsed.failed AudioError.packet_too_short
        else (if not (length rest == 0) && not (length rest == 12)
            then Parsed.failed AudioError.invalid_packet
            else Parsed.ok (record f {
              opus_data = take n b;
              is_terminator = not (bit_and size 0x2000 == 0);
              position = if length rest == 12 then some (read_position rest) else none;
            })))

-- `decodeLegacy`
unfoldable pub decode_legacy : List ℕ → Bool → Parsed Frame
unfolding read_session read_data
decode_legacy [] server = Parsed.failed AudioError.packet_too_short
decode_legacy (b0 ∷ b) server =
    if ltb max_packet_size (length (b0 ∷ b))
    then Parsed.failed AudioError.invalid_packet
    else (if not (b0 / 2 ^ 5 == codec_opus)
        then Parsed.failed AudioError.invalid_packet
        else and_then (read_session server b) (λ s. and_then (read_number s.1) (λ n.
          and_then (read_number n.1) (λ size.
            read_data
              (record {
                codec = b0 / 2 ^ 5;
                target = bit_and b0 31;
                sender_session = s.0;
                frame_number = n.0;
                opus_data = [];
                position = none;
                is_terminator = false;
              })
              size.0 size.1))))

abbrev pub bytes_or_none : Option (List ℕ) → List ℕ
bytes_or_none none = []
bytes_or_none (some b) = b

-- `add`: ten bytes have room for every number, so that the run-time error does not occur.
unfoldable pub number_bytes : ℕ → List ℕ
unfolding encode_varint big_endian
number_bytes v =
    if ltb (2 ^ 63 - 1) v then (0xf4 ∷ big_endian 8 v) else bytes_or_none (encode_varint 10 (pos v))

unfoldable pub position_bytes : Option Position → List ℕ
unfolding little_endian
position_bytes none = []
position_bytes (some p) = little_endian 4 p.x ++ (little_endian 4 p.y ++ little_endian 4 p.z)

-- The length with the bit of the last packet.
unfoldable pub size_of : Frame → ℕ
size_of f = if f.is_terminator then bit_or (length f.opus_data) 0x2000 else length f.opus_data

abbrev pub session_bytes : Bool → ℕ → List ℕ
session_bytes true session = number_bytes session
session_bytes false session = []

-- `encodeLegacy`: none for an error.
unfoldable pub encode_legacy : Delivery → Bool → Option (List ℕ)
unfolding number_bytes position_bytes size_of
encode_legacy d server =
    let f = d.frame in
    let head = if server then d.context else f.target in
    if ltb 0x1fff (length f.opus_data) || ltb 31 f.target
    then none
    else some (
        bit_or (f.codec * 2 ^ 5 % 256) (head % 256)
        ∷ (session_bytes server f.sender_session
            ++ (number_bytes f.frame_number
                ++ (number_bytes (size_of f) ++ (f.opus_data ++ position_bytes f.position)))))

-- `>` on float32, by their bits: no order for a NaN, and else by the sign and the rest of the bits, which
-- makes both zeros equal.
abbrev pub is_nan : ℕ → Bool
is_nan bits = ltb 0x7F800000 (bits % 2 ^ 31)

abbrev pub float_rank : ℕ → ℕ
float_rank bits = if ltb bits (2 ^ 31) then 2 ^ 31 + bits % 2 ^ 31 else 2 ^ 31 - bits % 2 ^ 31

abbrev pub is_greater : ℕ → ℕ → Bool
is_greater x y = not (is_nan x) && (not (is_nan y) && ltb (float_rank y) (float_rank x))

-- `MergeDelivery`: the lesser context and the greater volume.
unfoldable pub merge_delivery : Delivery → Delivery → Delivery
merge_delivery a b = record a {
  context = if ltb b.context a.context then b.context else a.context;
  volume_adjustment =
      if is_greater b.volume_adjustment a.volume_adjustment
      then b.volume_adjustment
      else a.volume_adjustment;
}

pub data WireMode : Type 0 where
  legacy protobuf : WireMode

-- `NegotiateWireMode`: the new packets need two sides of version 1.5 or later.
unfoldable pub negotiate_wire_mode : ℕ → ℕ → WireMode
negotiate_wire_mode client server =
    let modern = 2 ^ 48 + 5 * 2 ^ 32 in
    if leb modern client && leb modern server then WireMode.protobuf else WireMode.legacy
