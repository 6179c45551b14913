-- ===== src/Audio/Varint.antt =====
-- pkg/mumble/audio/varint.go: Mumble's variable-length numbers. A byte is a number below 256 and an
-- `int64` is an integer; the buffer of `EncodeVarint` is its length, and the result is what it writes.
pub mod Least
pub mod RoundTrip
use go_mumble_server.Base.{
  ℕ, suc, zero, ◌+◌, ◌*◌, ◌-◌, ◌/◌, ◌%◌, ◌^◌, Option, none, some, List, [], ◌∷◌, length, get_or,
  take, leb, ◌==◌, if◌then◌else◌, ◌&&◌, bit_and, bit_or,
}
use go_mumble_server.Base.Int.{ℤ, pos, negsuc, int64}
use go_mumble_server.Crypto.CryptState.{big_endian, from_big_endian}

-- `-v` on `int64`, where the least number is its own negation.
unfoldable pub negate : ℤ → ℤ
negate (pos zero) = pos zero
negate (pos (suc n)) = negsuc n
negate (negsuc n) = if n == 2 ^ 63 - 1 then negsuc n else pos (n + 1)

-- The forms with a number of bytes that the first one tells; `rest` is what a nested number decodes to.
unfoldable pub decode_head : ℕ → List ℕ → ℤ × ℕ → ℤ × ℕ
unfolding negate
decode_head b0 b rest =
    let n = length b + 1 in
    let at : ℕ → ℕ = λ i. get_or b i 0 in
    if bit_and b0 0x80 == 0
    then (pos b0, 1)
    else (if bit_and b0 0xC0 == 0x80 && leb 2 n
        then (pos (bit_or (bit_and b0 0x3F * 2 ^ 8) (at 0)), 2)
        else (if bit_and b0 0xE0 == 0xC0 && leb 3 n
            then (pos (bit_or (bit_or (bit_and b0 0x1F * 2 ^ 16) (at 0 * 2 ^ 8)) (at 1)), 3)
            else (if bit_and b0 0xF0 == 0xE0 && leb 4 n
                then (
                  pos (
                      bit_or
                        (bit_or (bit_or (bit_and b0 0xF * 2 ^ 24) (at 0 * 2 ^ 16)) (at 1 * 2 ^ 8))
                        (at 2)),
                  4,
                )
                else (if bit_and b0 0xFC == 0xF0 && leb 5 n
                    then (pos (from_big_endian (take 4 b) 0), 5)
                    else (if bit_and b0 0xFC == 0xF4 && leb 9 n
                        then (int64 (from_big_endian (take 8 b) 0), 9)
                        else (if bit_and b0 0xFC == 0xF8
                            then (if rest.1 == 0 then (pos 0, 0) else (negate rest.0, rest.1 + 1))
                            else (if bit_and b0 0xFC == 0xFC
                                then (negsuc (bit_and b0 0x03), 1)
                                else (pos 0, 0))))))))

-- `DecodeVarint`: the value and the number of bytes read, 0 for an error.
unfoldable pub decode_varint : List ℕ → ℤ × ℕ
unfolding decode_head
decode_varint [] = (pos 0, 0)
decode_varint (b0 ∷ b) = decode_head b0 b (decode_varint b)

-- Bytes for which the buffer has room, or the run-time error of an index out of range.
abbrev pub room : ℕ → List ℕ → Option (List ℕ)
room n bytes = if leb (length bytes) n then some bytes else none

-- `EncodeVarint` of a number that is not negative.
unfoldable pub encode_pos : ℕ → ℕ → Option (List ℕ)
encode_pos n v =
    if leb v 0x7F
    then room n (v % 256 ∷ [])
    else (if leb v 0x3FFF
        then room n (bit_or (bit_and (v / 2 ^ 8) 0x3F) 0x80 ∷ v % 256 ∷ [])
        else (if leb v 0x1FFFFF
            then room n (bit_or (bit_and (v / 2 ^ 16) 0x1F) 0xC0 ∷ v / 2 ^ 8 % 256 ∷ v % 256 ∷ [])
            else (if leb v 0xFFFFFFF
                then room n (
                    bit_or (bit_and (v / 2 ^ 24) 0xF) 0xE0
                    ∷ v / 2 ^ 16 % 256
                    ∷ v / 2 ^ 8 % 256
                    ∷ v % 256
                    ∷ [])
                else (if leb v 0x7FFFFFFF
                    then room n (0xF0 ∷ big_endian 4 (v % 2 ^ 32))
                    else room n (0xF4 ∷ big_endian 8 v)))))

-- `EncodeVarint` into a buffer of `n` bytes: what it writes, `none` for a run-time error.
unfoldable pub encode_varint : ℕ → ℤ → Option (List ℕ)
unfolding encode_pos negate
encode_varint zero v = some []
encode_varint (suc n) (pos v) = encode_pos (suc n) v
encode_varint (suc n) (negsuc k) =
    if leb k 3 then some (bit_or 0xFC k ∷ []) else elim (encode_varint n (negate (negsuc k))) [
      | none ↦ none
      | some bytes ↦ some (0xF8 ∷ bytes)
    ]
