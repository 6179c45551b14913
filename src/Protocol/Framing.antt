-- ===== src/Protocol/Framing.antt =====
-- pkg/mumble/protocol/framing.go, codec.go and handler.go: packets on a stream of bytes, the choice of a
-- message's decoder and the table of handlers. An io.Writer is what its `Write` makes of the bytes
-- written so far, with false for an error; an io.Reader is the list of the bytes still to come.
pub mod Stream
use go_mumble_server.Base.{
  ℕ, zero, suc, ◌+◌, ◌*◌, ◌^◌, ◌%◌, Bool, true, false, not, ◌&&◌, Option, none, some, List, [], ◌∷◌,
  ◌++◌, length, take, drop, get_or, ltb, leb, ◌==◌, if◌then◌else◌,
}
use go_mumble_server.Crypto.CryptState.{big_endian, from_big_endian}

abbrev pub header_size : ℕ
header_size = 6

abbrev pub max_payload_size : ℕ
max_payload_size = 8 * 1024 * 1024

-- The header: a big-endian uint16 and a big-endian uint32.
unfoldable pub header : ℕ → List ℕ → List ℕ
header msg_type payload = big_endian 2 (msg_type % 2 ^ 16) ++ big_endian 4 (length payload % 2 ^ 32)

module _ {ℓ} {W : Type ℓ} (write : W → List ℕ → W × Bool) where
  unfoldable pub write_packet : W → ℕ → List ℕ → W × Bool
  unfolding header
  write_packet w msg_type payload =
      let first = write w (header msg_type payload) in
      if first.1
      then (if ltb 0 (length payload) then write first.0 payload else (first.0, true))
      else (first.0, false)

  -- `WriteMessage`: a message is what its `Marshal` returns, `none` for an error.
  unfoldable pub write_message : W → ℕ → Option (Option (List ℕ)) → W × Bool
  unfolding write_packet
  write_message w msg_type none = write_packet w msg_type []
  write_message w msg_type (some none) = (w, false)
  write_message w msg_type (some (some payload)) = write_packet w msg_type payload

-- io.ReadFull for `n` bytes: no byte at all is EOF, fewer than `n` an unexpected one.
pub data Full : Type 0 where
  full : List ℕ → List ℕ → Full
  eof unexpected_eof : Full

unfoldable pub read_full : ℕ → List ℕ → Full
read_full n b =
    if leb n (length b)
    then Full.full (take n b) (drop n b)
    else (if length b == 0 then Full.eof else Full.unexpected_eof)

-- A packet with the bytes behind it, or an error.
pub data Packet : Type 0 where
  packet : ℕ → List ℕ → List ℕ → Packet
  broken : Full → Packet
  payload_too_large : Packet

with_payload : ℕ → Full → Packet
with_payload msg_type (Full.full payload rest) = Packet.packet msg_type payload rest
with_payload msg_type Full.eof = Packet.broken Full.eof
with_payload msg_type Full.unexpected_eof = Packet.broken Full.unexpected_eof

with_header : Full → Packet
unfolding with_payload
with_header Full.eof = Packet.broken Full.eof
with_header Full.unexpected_eof = Packet.broken Full.unexpected_eof
with_header (Full.full head rest) =
    let msg_type = from_big_endian (take 2 head) 0 in
    let size = from_big_endian (drop 2 head) 0 in
    if ltb max_payload_size size
    then Packet.payload_too_large
    else (if size == 0
        then Packet.packet msg_type [] rest
        else with_payload msg_type (read_full size rest))

unfoldable pub read_packet : List ℕ → Packet
unfolding with_header read_full
read_packet b = with_header (read_full header_size b)

-- The types that `ReadMessage` has a decoder for: 0 to 26, but not the tunnel for voice packets.
abbrev pub udp_tunnel : ℕ
udp_tunnel = 1

abbrev pub message_count : ℕ
message_count = 27

-- What `ReadMessage` returns, over the type of decoded messages.
pub data Decoded {ℓ} (M : Type ℓ) : Type ℓ where
  message : M → Decoded M
  no_message : Decoded M
  tunnel_payload unknown_type bad_payload : Decoded M

abbrev pub unmarshalled {ℓ} : {M : Type ℓ} → Option M → Decoded M
unmarshalled none = Decoded.bad_payload
unmarshalled (some m) = Decoded.message m

unfoldable pub read_message {ℓ} : {M : Type ℓ} → (ℕ → List ℕ → Option M) → ℕ → List ℕ → Decoded M
read_message unmarshal msg_type payload =
    if length payload == 0 && not (msg_type == udp_tunnel)
    then Decoded.no_message
    else (if msg_type == udp_tunnel
        then Decoded.tunnel_payload
        else (if ltb msg_type message_count
            then unmarshalled (unmarshal msg_type payload)
            else Decoded.unknown_type))

-- `HandlerTable`: what a handler makes of a state, and whether there was no error.
module _ {ℓ} {S : Type ℓ} where
  unfoldable pub dispatch : List (Option (ℕ → List ℕ → S → S × Bool)) → ℕ → List ℕ → S → S × Bool
  dispatch table msg_type payload s = elim (get_or table msg_type none) [
    | none ↦ (s, true)
    | some handler ↦ handler msg_type payload s
  ]
