-- ===== src/Protocol/Wire/Fields.antt =====
-- pkg/mumble/protocol/wire/wire.go: a field that was appended is found, read and skipped.
use mathlib.Core.List.{append_assoc}
use go_mumble_server.Base.{
  ℕ, ◌+◌, ◌-◌, ◌*◌, ◌/◌, ◌%◌, ◌^◌, ◌<◌, ◌≡◌, ◌∙◌, refl, sym, ap, false, List, [], ◌++◌, length,
  drop, ltb, bit_and, bit_or, arith, length-append, take-append_length, drop-append_length,
}
use go_mumble_server.Base.Bits.{bit_and_mask, bit_or_above, bit_or_comm}
use go_mumble_server.Protocol.Wire.{
  Read, varint_bytes, append_bytes, read_varint, split_tag, read_tag, read_length_delimited,
  skip_field,
}
use go_mumble_server.Protocol.Wire.Varint.{read_varint-varint_bytes}

-- The number of a tag.
abbrev tag_of : ℕ → ℕ → ℕ
tag_of field wire_type = bit_or (field * 2 ^ 3 % 2 ^ 64) wire_type

tag_value :
    (field wire_type : ℕ)
    → field < 2 ^ 61
    → wire_type < 8
    → tag_of field wire_type ≡ wire_type + field * 2 ^ 3
tag_value field wire_type h k =
    let kept : field * 2 ^ 3 % 2 ^ 64 ≡ field * 2 ^ 3 = omega arith in
    rw (kept, bit_or_comm (field * 2 ^ 3) wire_type) (bit_or_above 3 wire_type field k)

read_tag-varint_bytes :
    (field wire_type : ℕ) (rest : List ℕ)
    → field < 2 ^ 61
    → wire_type < 8
    → read_tag (varint_bytes 9 (tag_of field wire_type) ++ rest)
      ≡ Read.done (field, wire_type) (length (varint_bytes 9 (tag_of field wire_type)))
unfolding read_tag
read_tag-varint_bytes field wire_type rest h k =
    let value = tag_value field wire_type h k in
    let v = tag_of field wire_type in
    let high : v / 2 ^ 3 ≡ field = omega (arith, value) in
    let low : bit_and v 7 ≡ wire_type = omega (arith, value, bit_and_mask 3 v) in
    ap split_tag (read_varint-varint_bytes v rest (omega (arith, value))) ∙ rw (high, low) refl

module _ (content rest : List ℕ) (h : length content < 2 ^ 64) where
  abbrev head : List ℕ
  head = varint_bytes 9 (length content)

  head_read : read_varint (head ++ (content ++ rest)) ≡ Read.done (length content) (length head)
  head_read = read_varint-varint_bytes (length content) (content ++ rest) h

  enough : ltb (length (head ++ (content ++ rest)) - length head) (length content) ≡ false
  enough = ground (arith, length-append head (content ++ rest), length-append content rest)

  read_length_delimited-head :
      read_length_delimited (head ++ (content ++ rest))
      ≡ Read.done content (length head + length content)
  unfolding read_length_delimited
  read_length_delimited-head =
      rw
        (
          head_read,
          enough,
          drop-append_length head (content ++ rest),
          take-append_length content rest,
        )
        refl

  skip_field-head :
      skip_field (head ++ (content ++ rest)) 2
      ≡ Read.done (length head + length content) (length head + length content)
  unfolding skip_field
  skip_field-head = rw (head_read, enough) refl

  drop-head : drop (length head + length content) (head ++ (content ++ rest)) ≡ rest
  drop-head =
      rw (sym (length-append head content), sym (append_assoc head content rest))
        (drop-append_length (head ++ content) rest)

-- A field that `AppendBytes` (or `AppendString`) wrote, followed by anything: `ReadTag` finds its number
-- and the wire type 2, `ReadLengthDelimited` reads its content behind the tag, `SkipField` consumes
-- exactly as much, and what stands behind is what followed.
pub field-append_bytes :
    (field : ℕ) (content rest : List ℕ)
    → field < 2 ^ 61
    → length content < 2 ^ 64
    → let b = append_bytes [] field content ++ rest in
      (n : ℕ) × (m : ℕ) × (read_tag b ≡ Read.done (field, 2) n)
      × (read_length_delimited (drop n b) ≡ Read.done content m)
      × (skip_field (drop n b) 2 ≡ Read.done m m)
      × (drop m (drop n b) ≡ rest)
unfolding append_bytes
field-append_bytes field content rest hf h =
    let tag = varint_bytes 9 (tag_of field 2) in
    let body = head content rest h ++ (content ++ rest) in
    let whole : ((tag ++ head content rest h) ++ content) ++ rest ≡ tag ++ body =
      append_assoc (tag ++ head content rest h) content rest
      ∙ append_assoc tag (head content rest h) (content ++ rest) in
    let behind : drop (length tag) (tag ++ body) ≡ body = drop-append_length tag body in
    (
      length tag,
      length (head content rest h) + length content,
      rw whole (read_tag-varint_bytes field 2 body hf (omega arith)),
      rw (whole, behind) (read_length_delimited-head content rest h),
      rw (whole, behind) (skip_field-head content rest h),
      rw (whole, behind) (drop-head content rest h),
    )
