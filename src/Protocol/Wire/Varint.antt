-- ===== src/Protocol/Wire/Varint.antt =====
-- pkg/mumble/protocol/wire/wire.go: a number that was appended is read back.
use go_mumble_server.Base.{
  ℕ, zero, suc, ◌+◌, ◌*◌, ◌/◌, ◌%◌, ◌^◌, ◌<◌, ◌≤◌, ◌≡◌, ◌∙◌, refl, ap, ap₂, List, ◌∷◌, ◌++◌, length,
  leb, bit_and, bit_or, arith, Bool-cases, inl, inr,
}
use go_mumble_server.Base.Bits.{bit_and_mask, bit_and-or, bit_or_zero, bit_or_above, le-bit_or}
use native.Mathlib.Nat.{pow-suc, div-add-mod}
use native.Mathlib.Numerals.{towards_suc}
use go_mumble_server.Protocol.Wire.{Read, varint_bytes, read_loop, read_varint}

-- A byte with its top bit set: `| 0x80` on the lowest byte of a number.
top_bit : (v : ℕ) → bit_and (bit_or (v % 256) 0x80) 0x7F ≡ v % 128
top_bit v =
    let mask : bit_and 0x80 0x7F ≡ 0 = refl in
    rw (bit_and-or (v % 256) 0x80 0x7F, mask, bit_or_zero (bit_and (v % 256) 0x7F))
      (omega (arith, bit_and_mask 7 (v % 256)))

shift_seven : (s : ℕ) → 2 ^ (s + 7) ≡ 2 ^ s * 128
shift_seven s = simp towards_suc (omega arith)

read_loop_last :
    (w i x s : ℕ) (rest : List ℕ)
    → w < 128
    → i < 10
    → x < 2 ^ s
    → x + w * 2 ^ s < 2 ^ 64
    → read_loop i x s (w ∷ rest) ≡ Read.done (x + w * 2 ^ s) (i + 1)
unfolding read_loop
read_loop_last w i x s rest hw hi hx fits =
    let low : bit_and w 0x7F ≡ w = omega (arith, bit_and_mask 7 w) in
    let kept : w * 2 ^ s % 2 ^ 64 ≡ w * 2 ^ s = omega arith in
    rw (low, kept, bit_or_above s x w hx) (ground arith)

read_loop_more :
    (c w i x s : ℕ) (rest : List ℕ)
    → 128 ≤ c
    → bit_and c 0x7F ≡ w
    → i < 10
    → x < 2 ^ s
    → x + w * 2 ^ s < 2 ^ 64
    → read_loop i x s (c ∷ rest) ≡ read_loop (i + 1) (x + w * 2 ^ s) (s + 7) rest
unfolding read_loop
read_loop_more c w i x s rest hc low hi hx fits =
    let kept : w * 2 ^ s % 2 ^ 64 ≡ w * 2 ^ s = omega arith in
    rw (low, kept, bit_or_above s x w hx) (ground arith)

-- The lowest seven bits of what is left, and the rest, where they stand in the number.
split_group : (v s : ℕ) → v * 2 ^ s ≡ v % 128 * 2 ^ s + v / 128 * 2 ^ (s + 7)
split_group v s = omega (
  arith,
  ap (λ (t : ℕ). t * 2 ^ s) (div-add-mod v 128),
  ap (λ (t : ℕ). v / 128 * t) (shift_seven s),
)

group_in_range : (x p group : ℕ) → x < p → group < 128 → x + group * p < p * 128
group_in_range x p group h k = grind arith

read_loop-varint_bytes :
    (n v i x s : ℕ) (rest : List ℕ)
    → v < 128 ^ suc n
    → i + n < 10
    → x < 2 ^ s
    → x + v * 2 ^ s < 2 ^ 64
    → read_loop i x s (varint_bytes n v ++ rest)
      ≡ Read.done (x + v * 2 ^ s) (i + length (varint_bytes n v))
unfolding varint_bytes
read_loop-varint_bytes zero v i x s rest hv hi hx fits =
    let small : v % 256 ≡ v = omega arith in
    rw small (read_loop_last v i x s rest (omega arith) (omega arith) hx fits)
read_loop-varint_bytes (suc n) v i x s rest hv hi hx fits = elim (Bool-cases (leb 0x80 v)) [
  | inr e ↦
      let small : v % 256 ≡ v = ground arith in
      rw (e, small) (read_loop_last v i x s rest (ground arith) (omega arith) hx fits)
  | inl e ↦
      let group = v % 128 in
      let above : v / 128 < 128 ^ suc n = omega (arith, pow-suc 128 (suc n)) in
      let parts = split_group v s in
      let front = group_in_range x (2 ^ s) group hx (omega arith) in
      let count : i + 1 + length (varint_bytes n (v / 128))
          ≡ i + suc (length (varint_bytes n (v / 128))) =
        omega arith in
      rw e (
        read_loop_more (bit_or (v % 256) 0x80) group i x s (varint_bytes n (v / 128) ++ rest)
          (le-bit_or (v % 256) 0x80) (top_bit v) (omega arith) hx (omega arith)
        ∙ read_loop-varint_bytes n (v / 128) (i + 1) (x + group * 2 ^ s) (s + 7) rest above
            (omega arith) (omega (arith, shift_seven s)) (omega arith)
        ∙ ap₂ Read.done (omega arith) count)
]

-- A uint64 that `AppendVarint` wrote is what `ReadVarint` reads, whatever follows it, and it consumes
-- exactly the bytes that were written.
pub read_varint-varint_bytes :
    (v : ℕ) (rest : List ℕ)
    → v < 2 ^ 64
    → read_varint (varint_bytes 9 v ++ rest) ≡ Read.done v (length (varint_bytes 9 v))
unfolding read_varint
read_varint-varint_bytes v rest h =
    read_loop-varint_bytes 9 v 0 0 0 rest (omega arith) (omega arith) (omega arith) (omega arith)
    ∙ ap₂ Read.done (omega arith) (omega arith)
