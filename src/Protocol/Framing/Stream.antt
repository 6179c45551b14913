-- ===== src/Protocol/Framing/Stream.antt =====
-- pkg/mumble/protocol/framing.go: what was written to a stream is read from it, packet by packet.
use mathlib.Core.List.{append_assoc, append-nil}
use go_mumble_server.Base.{
  ℕ, zero, suc, ◌+◌, ◌*◌, ◌^◌, Bool-cases, inl, inr, ◌<◌, ◌≤◌, ◌≡◌, ◌∙◌, refl, sym, ap, Bool, true,
  false, List, [], ◌∷◌, ◌++◌, length, take, drop, ltb, leb, ◌==◌, if◌then◌else◌, arith, All,
  length-append, take_front, drop_front,
}
use go_mumble_server.Crypto.CryptState.{big_endian, from_big_endian}
use go_mumble_server.Protocol.Framing.{
  header, max_payload_size, write_packet, Full, read_full, Packet, with_payload, with_header,
  read_packet,
}

-- A writer that keeps everything, such as a buffer.
abbrev pub keep : List ℕ → List ℕ → List ℕ × Bool
keep sent chunk = (sent ++ chunk, true)

pub write_packet-keep :
    (sent payload : List ℕ) (msg_type : ℕ)
    → write_packet keep sent msg_type payload ≡ (sent ++ (header msg_type payload ++ payload), true)
unfolding write_packet
write_packet-keep sent [] msg_type =
    ap (λ (b : List ℕ). (sent ++ b, true)) (sym (append-nil (header msg_type [])))
write_packet-keep sent (x ∷ payload) msg_type =
    let more : ltb 0 (suc (length payload)) ≡ true = ground arith in
    rw more (
      ap (λ (b : List ℕ). (b, true))
        (append_assoc sent (header msg_type (x ∷ payload)) (x ∷ payload)))

read_full_exact :
    (n : ℕ) (front rest : List ℕ)
    → length front ≡ n
    → read_full n (front ++ rest) ≡ Full.full front rest
unfolding read_full
read_full_exact n front rest h =
    let long : leb n (length (front ++ rest)) ≡ true = ground (arith, length-append front rest) in
    rw (long, take_front n front rest h, drop_front n front rest h) refl

-- What can be sent: a type of 16 bits, and a payload that is not too large.
abbrev pub IsSendable : ℕ × List ℕ → Type 0
IsSendable m = (m.0 < 2 ^ 16) × (length m.1 ≤ max_payload_size)

length-header : (msg_type : ℕ) (payload : List ℕ) → length (header msg_type payload) ≡ 6
unfolding header big_endian
length-header msg_type payload = refl

header_type :
    (msg_type : ℕ) (payload : List ℕ)
    → msg_type < 2 ^ 16
    → from_big_endian (take 2 (header msg_type payload)) 0 ≡ msg_type
unfolding header big_endian from_big_endian
header_type msg_type payload h = omega arith

declared_size :
    (msg_type : ℕ) (payload : List ℕ)
    → length payload ≤ max_payload_size
    → from_big_endian (drop 2 (header msg_type payload)) 0 ≡ length payload
unfolding header big_endian from_big_endian
declared_size msg_type payload h = omega arith

-- The two ends of `ReadPacket`: a packet without payload, and one with it.
with_header-header :
    (msg_type : ℕ) (payload rest : List ℕ)
    → msg_type < 2 ^ 16
    → length payload ≤ max_payload_size
    → with_header (Full.full (header msg_type payload) (payload ++ rest))
      ≡ Packet.packet msg_type payload rest
unfolding with_header
with_header-header msg_type [] rest h k =
    rw (header_type msg_type [] h, declared_size msg_type [] k) refl
with_header-header msg_type (x ∷ payload) rest h k =
    let small : ltb max_payload_size (suc (length payload)) ≡ false = ground arith in
    rw (header_type msg_type (x ∷ payload) h, declared_size msg_type (x ∷ payload) k, small)
      (more (x ∷ payload) refl)
  where
    more :
        (p : List ℕ)
        → length p ≡ suc (length payload)
        → (if suc (length payload) == 0
            then Packet.packet msg_type [] (p ++ rest)
            else with_payload msg_type (read_full (suc (length payload)) (p ++ rest)))
          ≡ Packet.packet msg_type p rest
    more p e = ground (arith, read_full_exact (suc (length payload)) p rest e)

read_packet-header :
    (msg_type : ℕ) (payload rest : List ℕ)
    → IsSendable (msg_type, payload)
    → read_packet (header msg_type payload ++ (payload ++ rest))
      ≡ Packet.packet msg_type payload rest
unfolding read_packet
read_packet-header msg_type payload rest h =
    ap with_header (
      read_full_exact 6 (header msg_type payload) (payload ++ rest)
        (length-header msg_type payload))
    ∙ with_header-header msg_type payload rest h.0 h.1

-- Whether a packet was refused for its size.
abbrev pub is_too_large : Packet → Bool
is_too_large Packet.payload_too_large = true
is_too_large (Packet.packet msg_type payload rest) = false
is_too_large (Packet.broken e) = false

with_payload_not_large : (msg_type : ℕ) (f : Full) → is_too_large (with_payload msg_type f) ≡ false
unfolding with_payload
with_payload_not_large msg_type (Full.full payload rest) = refl
with_payload_not_large msg_type Full.eof = refl
with_payload_not_large msg_type Full.unexpected_eof = refl

with_header_size :
    (head rest : List ℕ)
    → is_too_large (with_header (Full.full head rest))
      ≡ ltb max_payload_size (from_big_endian (drop 2 head) 0)
unfolding with_header
with_header_size head rest =
    let size = from_big_endian (drop 2 head) 0 in
    let msg_type = from_big_endian (take 2 head) 0 in
    elim (Bool-cases (ltb max_payload_size size)) [
      | inl e ↦ rw e refl
      | inr e ↦ elim (Bool-cases (size == 0)) [
        | inl z ↦ rw (e, z) refl
        | inr z ↦ rw (e, z) (with_payload_not_large msg_type (read_full size rest))
      ]
    ]

short_not_large :
    (short : List ℕ) → length short < 6 → is_too_large (with_header (read_full 6 short)) ≡ false
unfolding with_header read_full
short_not_large short h =
    let few : leb 6 (length short) ≡ false = ground arith in
    elim (Bool-cases (length short == 0)) [ inl e ↦ rw (few, e) refl | inr e ↦ rw (few, e) refl ]

-- For every stream of at least six bytes, whatever they are and whatever follows: the packet is refused
-- for its size exactly when the number that its third to sixth byte write, the third one counting most, is above
-- 8388608. A stream `short` of fewer than six bytes is never refused for the size.
pub read_packet_too_large :
    (a b c d e f : ℕ) (rest short : List ℕ)
    → length short < 6
    → (is_too_large (read_packet (a ∷ b ∷ c ∷ d ∷ e ∷ f ∷ rest))
        ≡ ltb 8388608 (c * 16777216 + d * 65536 + e * 256 + f))
      × (is_too_large (read_packet short) ≡ false)
unfolding read_packet
read_packet_too_large a b c d e f rest short h =
    let size : from_big_endian (c ∷ d ∷ e ∷ f ∷ []) 0 ≡ c * 16777216 + d * 65536 + e * 256 + f =
      unfold from_big_endian in omega arith in
    (
      ap (λ p. is_too_large (with_header p))
            (read_full_exact 6 (a ∷ b ∷ c ∷ d ∷ e ∷ f ∷ []) rest refl)
          ∙ with_header_size (a ∷ b ∷ c ∷ d ∷ e ∷ f ∷ []) rest
          ∙ ap (ltb max_payload_size) size,
      short_not_large short h,
    )

-- The packets written one after the other, and the loop that reads until there is no packet.
abbrev pub write_all : List ℕ → List (ℕ × List ℕ) → List ℕ
write_all sent [] = sent
write_all sent ((msg_type, payload) ∷ ms) = write_all (write_packet keep sent msg_type payload).0 ms

abbrev pub read_next : Packet → (List ℕ → List (ℕ × List ℕ) × Packet) → List (ℕ × List ℕ) × Packet
read_next (Packet.packet msg_type payload rest) go_on =
    ((msg_type, payload) ∷ (go_on rest).0, (go_on rest).1)
read_next (Packet.broken e) go_on = ([], Packet.broken e)
read_next Packet.payload_too_large go_on = ([], Packet.payload_too_large)

abbrev pub read_all : ℕ → List ℕ → List (ℕ × List ℕ) × Packet
read_all zero b = ([], Packet.packet 0 [] b)
read_all (suc fuel) b = read_next (read_packet b) (read_all fuel)

abbrev bytes_of : List (ℕ × List ℕ) → List ℕ
bytes_of [] = []
bytes_of ((msg_type, payload) ∷ ms) = header msg_type payload ++ (payload ++ bytes_of ms)

write_all-bytes_of :
    (sent : List ℕ) (ms : List (ℕ × List ℕ)) → write_all sent ms ≡ sent ++ bytes_of ms
write_all-bytes_of sent [] = sym (append-nil sent)
write_all-bytes_of sent ((msg_type, payload) ∷ ms) =
    let h = header msg_type payload in
    ap (λ (w : List ℕ × Bool). write_all w.0 ms) (write_packet-keep sent payload msg_type)
    ∙ (write_all-bytes_of (sent ++ (h ++ payload)) ms
        ∙ (append_assoc sent (h ++ payload) (bytes_of ms)
            ∙ ap (◌++◌ sent) (append_assoc h payload (bytes_of ms))))

read_all-bytes_of :
    (ms : List (ℕ × List ℕ)) (more : ℕ)
    → All IsSendable ms
    → read_all (length ms + suc more) (bytes_of ms) ≡ (ms, Packet.broken Full.eof)
read_all-bytes_of [] more h =
    let e : 0 + suc more ≡ suc more = omega arith in rw e (unfold read_packet in refl)
read_all-bytes_of ((msg_type, payload) ∷ ms) more h =
    let e : suc (length ms) + suc more ≡ suc (length ms + suc more) = omega arith in
    rw (e, read_packet-header msg_type payload (bytes_of ms) h.0, read_all-bytes_of ms more h.1)
      refl

-- Packets that are written to a stream one after the other are read back as they were, in their order,
-- with an end of the stream behind the last one; one round more than there are packets is enough.
pub read_all-write_all :
    (ms : List (ℕ × List ℕ)) (more : ℕ)
    → All IsSendable ms
    → read_all (length ms + suc more) (write_all [] ms) ≡ (ms, Packet.broken Full.eof)
read_all-write_all ms more h =
    ap (read_all (length ms + suc more)) (write_all-bytes_of [] ms) ∙ read_all-bytes_of ms more h
