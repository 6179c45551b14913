-- ===== src/Protocol/Wire.antt =====
-- pkg/mumble/protocol/wire/wire.go: protobuf's numbers, tags and fields. A byte is a number below
-- 256, and a slice is the list of its bytes; a reader also returns how many bytes it consumed.
pub mod Varint
pub mod Fields
use go_mumble_server.Base.{
  ℕ, zero, suc, ◌+◌, ◌-◌, ◌*◌, ◌/◌, ◌%◌, ◌^◌, Bool, List, [], ◌∷◌, ◌++◌, length, take, drop, get_or,
  ltb, leb, ◌==◌, if◌then◌else◌, bit_and, bit_or,
}

pub data WireError : Type 0 where
  buffer_too_short invalid_tag : WireError

-- A value with the number of bytes that it took, or an error.
pub data Read {ℓ} (A : Type ℓ) : Type ℓ where
  done : A → ℕ → Read A
  fail : WireError → Read A

-- What the loop of `AppendVarint` and its last line append. A round takes seven bits off, so that nine
-- rounds reach the last byte of any uint64.
unfoldable pub varint_bytes : ℕ → ℕ → List ℕ
varint_bytes zero v = (v % 256) ∷ []
varint_bytes (suc rounds) v =
    let rest = bit_or (v % 256) 0x80 ∷ varint_bytes rounds (v / 2 ^ 7) in
    if leb 0x80 v then rest else ((v % 256) ∷ [])

unfoldable pub append_varint : List ℕ → ℕ → List ℕ
unfolding varint_bytes
append_varint b v = b ++ varint_bytes 9 v

-- `uint64(fieldNum)<<3|uint64(wireType)`
unfoldable pub append_tag : List ℕ → ℕ → ℕ → List ℕ
unfolding append_varint
append_tag b field_num wire_type = append_varint b (bit_or (field_num * 2 ^ 3 % 2 ^ 64) wire_type)

-- binary.LittleEndian on `n` bytes.
unfoldable pub little_endian : ℕ → ℕ → List ℕ
little_endian zero v = []
little_endian (suc n) v = (v % 256) ∷ little_endian n (v / 256)

unfoldable pub from_little_endian : List ℕ → ℕ
from_little_endian [] = 0
from_little_endian (c ∷ b) = c + 256 * from_little_endian b

unfoldable pub append_fixed32 : List ℕ → ℕ → List ℕ
unfolding little_endian
append_fixed32 b v = b ++ little_endian 4 v

-- `AppendBytes`, and `AppendString` on the bytes of its string.
unfoldable pub append_bytes : List ℕ → ℕ → List ℕ → List ℕ
unfolding append_tag
append_bytes b field_num content =
    append_varint (append_tag b field_num 2) (length content) ++ content

-- The loop of `ReadVarint` from byte `i` on: `x` is what was read, `s` where the next bits go.
unfoldable pub read_loop : ℕ → ℕ → ℕ → List ℕ → Read ℕ
read_loop i x s [] = Read.fail WireError.buffer_too_short
read_loop i x s (c ∷ b) =
    let x' = bit_or x (bit_and c 0x7F * 2 ^ s % 2 ^ 64) in
    let rest = read_loop (i + 1) x' (s + 7) b in
    if leb 10 i
    then Read.fail WireError.invalid_tag
    else (if ltb c 0x80 then Read.done x' (i + 1) else rest)

unfoldable pub read_varint : List ℕ → Read ℕ
unfolding read_loop
read_varint b = read_loop 0 0 0 b

abbrev pub split_tag : Read ℕ → Read (ℕ × ℕ)
split_tag (Read.done v n) = Read.done (v / 2 ^ 3, bit_and v 7) n
split_tag (Read.fail e) = Read.fail e

-- The field's number and its wire type.
unfoldable pub read_tag : List ℕ → Read (ℕ × ℕ)
unfolding read_varint
read_tag b = split_tag (read_varint b)

-- `ReadFixed32`, whose caller has checked the length.
unfoldable pub read_fixed32 : List ℕ → ℕ
unfolding from_little_endian
read_fixed32 b = from_little_endian (take 4 b)

abbrev pub count : Read ℕ → Read ℕ
count (Read.done v n) = Read.done n n
count (Read.fail e) = Read.fail e

-- The end of a field whose length was read.
abbrev pub delimited : List ℕ → Read ℕ → Read (List ℕ)
delimited b (Read.fail e) = Read.fail e
delimited b (Read.done l n) =
    if ltb (length b - n) l
    then Read.fail WireError.buffer_too_short
    else Read.done (take l (drop n b)) (n + l)

unfoldable pub read_length_delimited : List ℕ → Read (List ℕ)
unfolding read_varint
read_length_delimited b = delimited b (read_varint b)

abbrev pub skipped : List ℕ → Read ℕ → Read ℕ
skipped b (Read.fail e) = Read.fail e
skipped b (Read.done l n) =
    if ltb (length b - n) l then Read.fail WireError.buffer_too_short else Read.done (n + l) (n + l)

abbrev pub fixed : List ℕ → ℕ → Read ℕ
fixed b n = if ltb (length b) n then Read.fail WireError.buffer_too_short else Read.done n n

-- `SkipField`: the value is the number of bytes.
unfoldable pub skip_field : List ℕ → ℕ → Read ℕ
unfolding read_varint
skip_field b wire_type =
    if wire_type == 0
    then count (read_varint b)
    else (if wire_type == 1
        then fixed b 8
        else (if wire_type == 2
            then skipped b (read_varint b)
            else (if wire_type == 5 then fixed b 4 else Read.fail WireError.invalid_tag)))
