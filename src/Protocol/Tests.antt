-- ===== src/Protocol/Tests.antt =====
-- Runs of pkg/mumble/protocol on a few bytes.
use go_mumble_server.Base.{
  true, false, ℕ, suc, ◌+◌, ◌≡◌, refl, List, [], ◌∷◌, ◌++◌, length, drop, arith,
}
use go_mumble_server.Protocol.Wire.{
  Read, WireError, read_varint, varint_bytes, append_bytes, append_fixed32, read_fixed32, read_tag,
  read_length_delimited, skip_field,
}
use go_mumble_server.Protocol.Wire.Varint.{read_varint-varint_bytes}
use go_mumble_server.Protocol.Wire.Fields.{field-append_bytes}
use go_mumble_server.Protocol.Framing.{Packet, Full, read_packet}
use go_mumble_server.Protocol.Framing.Stream.{
  read_packet_too_large, is_too_large, write_all, read_all, read_all-write_all,
}

three_hundred : varint_bytes 9 300 ≡ 0xAC ∷ 2 ∷ []
unfolding varint_bytes
three_hundred = refl

cut_short : read_varint (0xAC ∷ []) ≡ Read.fail WireError.buffer_too_short
unfolding read_varint
cut_short = refl

eleven_bytes :
    read_varint (128 ∷ 128 ∷ 128 ∷ 128 ∷ 128 ∷ 128 ∷ 128 ∷ 128 ∷ 128 ∷ 128 ∷ 0 ∷ [])
    ≡ Read.fail WireError.invalid_tag
unfolding read_varint
eleven_bytes = refl

fixed_number : read_fixed32 (append_fixed32 [] 70000) ≡ 70000
unfolding read_fixed32 append_fixed32
fixed_number = refl

read_varint-varint_bytes_example :
    read_varint (varint_bytes 9 300 ++ (7 ∷ [])) ≡ Read.done 300 (length (varint_bytes 9 300))
read_varint-varint_bytes_example = read_varint-varint_bytes 300 (7 ∷ []) (omega arith)

abbrev name_field : List ℕ
name_field = append_bytes [] 3 (72 ∷ 105 ∷ []) ++ (9 ∷ [])

field-append_bytes_example :
    (n : ℕ) × (m : ℕ) × (read_tag name_field ≡ Read.done (3, 2) n)
    × (read_length_delimited (drop n name_field) ≡ Read.done (72 ∷ 105 ∷ []) m)
    × (skip_field (drop n name_field) 2 ≡ Read.done m m)
    × (drop m (drop n name_field) ≡ 9 ∷ [])
field-append_bytes_example =
    field-append_bytes 3 (72 ∷ 105 ∷ []) (9 ∷ []) (omega arith) (omega arith)

read_packet_too_large_example :
    (is_too_large (read_packet (0 ∷ 5 ∷ 1 ∷ 0 ∷ 0 ∷ 0 ∷ 1 ∷ [])) ≡ true)
    × (is_too_large (read_packet (0 ∷ 5 ∷ [])) ≡ false)
read_packet_too_large_example =
    read_packet_too_large 0 5 1 0 0 0 (1 ∷ []) (0 ∷ 5 ∷ []) (omega arith)

abbrev two_packets : List (ℕ × List ℕ)
two_packets = (3, 1 ∷ 2 ∷ []) ∷ (15, []) ∷ []

read_all-write_all_example :
    read_all (2 + suc 0) (write_all [] two_packets) ≡ (two_packets, Packet.broken Full.eof)
read_all-write_all_example =
    read_all-write_all two_packets 0 ((omega arith, omega arith), ((omega arith, omega arith), tt))
