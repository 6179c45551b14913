-- ===== src/Audio/Legacy/RoundTrip.antt =====
-- pkg/mumble/audio/legacy.go: a packet that was encoded is decoded.
use go_mumble_server.Base.{
  ℕ, suc, ◌+◌, ◌-◌, ◌*◌, ◌/◌, ◌%◌, ◌^◌, ◌<◌, ◌≤◌, ◌≡◌, ◌∙◌, refl, sym, ap, Bool, true, false, not,
  ◌&&◌, Option, none, some, List, [], ◌∷◌, ◌++◌, length, ltb, leb, ◌==◌, if◌then◌else◌, bit_and,
  bit_or, arith, Bool-cases, inl, inr, get_or, length-append, take-append_length,
  drop-append_length,
}
use go_mumble_server.Base.Bits.{bit_and_mask, bit_or_above, bit_or_comm, bit_and_above}
use go_mumble_server.Base.Int.{ℤ, pos, negsuc}
use go_mumble_server.Crypto.CryptState.{big_endian, from_big_endian}
use go_mumble_server.Protocol.Wire.{little_endian, from_little_endian}
use go_mumble_server.Audio.Varint.{decode_varint}
use go_mumble_server.Audio.Varint.RoundTrip.{encode_varint-Encoded}
use go_mumble_server.Audio.Legacy.{
  codec_opus, max_packet_size, Parsed, and_then, Position, Frame, Delivery, uint64, read_number,
  read_session, read_position, read_data, decode_legacy, number_bytes, position_bytes, size_of,
  session_bytes, encode_legacy,
}

-- A number above the greatest int64.
decode_long_word :
    (v : ℕ) (rest : List ℕ)
    → 2 ^ 63 ≤ v
    → v < 2 ^ 64
    → decode_varint (0xF4 ∷ (big_endian 8 v ++ rest)) ≡ (negsuc (2 ^ 64 - 1 - v), 9)
unfolding decode_varint big_endian from_big_endian
decode_long_word v rest h k =
    let long : leb 9 (suc (suc (suc (suc (suc (suc (suc (suc (length rest)))))))) + 1) ≡ true =
      ground arith in
    let value : from_big_endian (big_endian 8 v) 0 ≡ v = omega (arith, k) in
    let large : ltb v (2 ^ 63) ≡ false = ground (arith, h) in rw (long, value, large) refl

not_none : (n : ℕ) → (suc n == 0) ≡ false
not_none n = ground arith

below_prefix : (c : ℕ) → c < 0xF8 → leb 0xF8 c ≡ false
below_prefix c h = ground (arith, h)

read_number_of :
    (bytes rest : List ℕ) (v : ℤ) (n : ℕ)
    → get_or bytes 0 0 < 0xF8
    → length bytes ≡ suc n
    → decode_varint (bytes ++ rest) ≡ (v, length bytes)
    → read_number (bytes ++ rest) ≡ Parsed.ok (uint64 v, rest)
unfolding read_number
read_number_of [] rest v n low h e = ground (arith, h)
read_number_of (c ∷ bytes) rest v n low h e =
    let small : leb 0xf8 c ≡ false = below_prefix c low in
    let some_byte = not_none (length bytes) in
    rw (small, e, some_byte)
      (ap (λ (r : List ℕ). Parsed.ok (uint64 v, r)) (drop-append_length (c ∷ bytes) rest))

read_number-number_bytes :
    (v : ℕ) (rest : List ℕ)
    → v < 2 ^ 64
    → read_number (number_bytes v ++ rest) ≡ Parsed.ok (v, rest)
unfolding number_bytes
read_number-number_bytes v rest h = elim (Bool-cases (ltb (2 ^ 63 - 1) v)) [
  | inl a ↦
      let large : 2 ^ 63 ≤ v = ground (arith, a) in
      let back : 2 ^ 64 - 1 - (2 ^ 64 - 1 - v) ≡ v = omega (arith, h) in
      rw a (
        read_number_of (0xF4 ∷ big_endian 8 v) rest (negsuc (2 ^ 64 - 1 - v)) 8 (omega arith)
          (unfold big_endian in refl)
          (decode_long_word v rest large h ∙ (unfold big_endian in refl))
        ∙ ap (λ (w : ℕ). Parsed.ok (w, rest)) back)
  | inr a ↦
      let e = encode_varint-Encoded 10 (pos v) (omega arith) (ground (arith, a)) in
      let n = length e.bytes - 1 in
      rw (a, e.written)
        (read_number_of e.bytes rest (pos v) n e.lead (omega (arith, e.some_byte)) (e.read rest))
]

-- The size with its flag, taken apart.
module _ (f : Frame) (h : length f.opus_data ≤ 0x1FFF) where
  size_value : size_of f ≡ length f.opus_data + (if f.is_terminator then 0x2000 else 0)
  unfolding size_of
  size_value = elim (Bool-cases f.is_terminator) [
    | inl e ↦ rw e (bit_or_above 13 (length f.opus_data) 1 (omega (arith, h)))
    | inr e ↦ rw e (omega arith)
  ]

  size_low : bit_and (size_of f) 0x1FFF ≡ length f.opus_data
  size_low = bit_and_mask 13 (size_of f) ∙ ground (arith, size_value, h)

  size_flag : not (bit_and (size_of f) 0x2000 == 0) ≡ f.is_terminator
  size_flag = elim (Bool-cases f.is_terminator) [
    | inl e ↦
        let high : size_of f / 2 ^ 13 ≡ 1 = ground (arith, size_value, h, e) in
        let bit : bit_and (size_of f) 0x2000 ≡ 0x2000 =
          bit_and_above 13 (size_of f) 1 ∙ ap (λ (x : ℕ). bit_and x 1 * 2 ^ 13) high in
        rw (bit, e) refl
    | inr e ↦
        let high : size_of f / 2 ^ 13 ≡ 0 = ground (arith, size_value, h, e) in
        let bit : bit_and (size_of f) 0x2000 ≡ 0 =
          bit_and_above 13 (size_of f) 1 ∙ ap (λ (x : ℕ). bit_and x 1 * 2 ^ 13) high in
        rw (bit, e) refl
  ]

  size_small : ltb 0x3FFF (size_of f) ≡ false
  size_small = ground (arith, size_value, h)

-- What a position holds.
abbrev pub FitsPosition : Option Position → Type 0
FitsPosition none = Unit {0}
FitsPosition (some p) = (p.x < 2 ^ 32) × (p.y < 2 ^ 32) × (p.z < 2 ^ 32)

abbrev position_at : List ℕ → Option Position
position_at rest = if length rest == 12 then some (read_position rest) else none

word_back : (x : ℕ) → x < 2 ^ 32 → from_little_endian (little_endian 4 x) ≡ x
unfolding little_endian from_little_endian
word_back x h = omega (arith, h)

position_back : (p : Option Position) → FitsPosition p → position_at (position_bytes p) ≡ p
unfolding position_bytes read_position little_endian from_little_endian
position_back none h = refl
position_back (some p) h = rw (word_back p.x h.0, word_back p.y h.1, word_back p.z h.2) refl

position_length :
    (p : Option Position)
    → (not (length (position_bytes p) == 0) && not (length (position_bytes p) == 12)) ≡ false
unfolding position_bytes little_endian
position_length none = refl
position_length (some p) = refl

read_data-size_of :
    (f g : Frame)
    → length f.opus_data ≤ 0x1FFF
    → FitsPosition f.position
    → read_data g (size_of f) (f.opus_data ++ position_bytes f.position)
      ≡ Parsed.ok (record g {
        opus_data = f.opus_data;
        is_terminator = f.is_terminator;
        position = f.position;
      })
unfolding read_data
read_data-size_of f g h fits =
    let bytes = position_bytes f.position in
    let enough : ltb (length (f.opus_data ++ bytes)) (length f.opus_data) ≡ false =
      ground (arith, length-append f.opus_data bytes) in
    rw
      (
        size_small f h,
        size_low f h,
        enough,
        drop-append_length f.opus_data bytes,
        position_length f.position,
      )
      (rw (take-append_length f.opus_data bytes, size_flag f h, position_back f.position fits) refl)

-- A frame that the format can hold, with what stands in the lower bits of the first byte.
pub record IsSendable (d : Delivery) (server : Bool) : Type 0 where
  pub opus : d.frame.codec ≡ codec_opus
  pub target : d.frame.target < 32
  pub context : d.context < 32
  pub data_fits : length d.frame.opus_data ≤ 0x1FFF
  pub session_fits : d.frame.sender_session < 2 ^ 32
  pub number_fits : d.frame.frame_number < 2 ^ 64
  pub position_fits : FitsPosition d.frame.position

-- The frame that is decoded: the context stands for the target in a server's packet, and a client's
-- packet has no session.
abbrev pub received : Delivery → Bool → Frame
received d server = record d.frame {
  target = if server then d.context else d.frame.target;
  sender_session = if server then d.frame.sender_session else 0;
}

read_session-session_bytes :
    (server : Bool) (s : ℕ) (rest : List ℕ)
    → s < 2 ^ 32
    → read_session server (session_bytes server s ++ rest)
      ≡ Parsed.ok (if server then s else 0, rest)
unfolding read_session
read_session-session_bytes false s rest h = refl
read_session-session_bytes true s rest h =
    let small : ltb (2 ^ 32 - 1) s ≡ false = ground (arith, h) in
    rw (read_number-number_bytes s rest (omega (arith, h)), small) refl

module _ (d : Delivery) (server : Bool) (h : IsSendable d server) where
  lower : ℕ
  lower = if server then d.context else d.frame.target

  lower_small : lower < 32
  unfolding lower
  lower_small = elim (Bool-cases server) [ inl e ↦ rw e h.context | inr e ↦ rw e h.target ]

  first_byte : bit_or (d.frame.codec * 2 ^ 5 % 256) (lower % 256) ≡ lower + 4 * 2 ^ 5
  first_byte =
      let top : d.frame.codec * 2 ^ 5 % 256 ≡ 4 * 2 ^ 5 = ap (λ (c : ℕ). c * 2 ^ 5 % 256) h.opus in
      let low : lower % 256 ≡ lower = omega (arith, lower_small) in
      rw (top, low) (bit_or_comm (4 * 2 ^ 5) lower ∙ bit_or_above 5 lower 4 lower_small)

  body : List ℕ
  body =
      session_bytes server d.frame.sender_session
      ++ (number_bytes d.frame.frame_number
          ++ (number_bytes (size_of d.frame)
              ++ (d.frame.opus_data ++ position_bytes d.frame.position)))

  encode_value :
      encode_legacy d server ≡ some (bit_or (d.frame.codec * 2 ^ 5 % 256) (lower % 256) ∷ body)
  unfolding encode_legacy body lower
  encode_value =
      let short : ltb 0x1fff (length d.frame.opus_data) ≡ false = ground (arith, h.data_fits) in
      let near : ltb 31 d.frame.target ≡ false = ground (arith, h.target) in rw (short, near) refl

  -- What is read of the body, once the first byte is.
  read_body :
      (codec target : ℕ)
      → and_then (read_session server body) (λ s. and_then (read_number s.1) (λ n.
        and_then (read_number n.1) (λ size.
          read_data
            (record {
              codec = codec;
              target = target;
              sender_session = s.0;
              frame_number = n.0;
              opus_data = [];
              position = none;
              is_terminator = false;
            })
            size.0
            size.1)))
        ≡ Parsed.ok (record d.frame {
          codec = codec;
          target = target;
          sender_session = if server then d.frame.sender_session else 0;
        })
  unfolding body
  read_body codec target =
      let content = d.frame.opus_data ++ position_bytes d.frame.position in
      let sizes = number_bytes (size_of d.frame) ++ content in
      let numbers = number_bytes d.frame.frame_number ++ sizes in
      let small : size_of d.frame < 2 ^ 64 =
        ground (arith, size_value d.frame h.data_fits, h.data_fits) in
      rw
        (
          read_session-session_bytes server d.frame.sender_session numbers h.session_fits,
          read_number-number_bytes d.frame.frame_number sizes h.number_fits,
          read_number-number_bytes (size_of d.frame) content small,
        )
        (read_data-size_of d.frame _ h.data_fits h.position_fits)

  decode_value :
      length body < max_packet_size
      → decode_legacy ((lower + 4 * 2 ^ 5) ∷ body) server ≡ Parsed.ok (received d server)
  unfolding decode_legacy lower
  decode_value fits =
      let small : ltb max_packet_size (suc (length body)) ≡ false = ground (arith, fits) in
      let top : (lower + 4 * 2 ^ 5) / 2 ^ 5 ≡ 4 = omega (arith, lower_small) in
      let low : bit_and (lower + 4 * 2 ^ 5) 31 ≡ lower =
        bit_and_mask 5 (lower + 4 * 2 ^ 5) ∙ omega (arith, lower_small) in
      rw (small, top, low)
        (read_body 4 lower
          ∙ ap (λ (c : ℕ). Parsed.ok (record (received d server) { codec = c })) (sym h.opus))

-- Every sendable delivery encodes, in the server's form or the client's. When the packet is within the size
-- limit it decodes to the frame of the delivery, but for this: from a server's packet the target is the
-- context of the delivery, and from a client's the sender's session is 0.
pub decode-encode_legacy :
    (d : Delivery) (server : Bool)
    → IsSendable d server
    → (b : List ℕ) × (encode_legacy d server ≡ some b)
      × (length b ≤ max_packet_size → decode_legacy b server ≡ Parsed.ok (received d server))
decode-encode_legacy d server h = (
  (lower d server h + 4 * 2 ^ 5) ∷ body d server h,
  encode_value d server h ∙ ap (λ (c : ℕ). some (c ∷ body d server h)) (first_byte d server h),
  λ fits. decode_value d server h (omega (arith, fits)),
)
