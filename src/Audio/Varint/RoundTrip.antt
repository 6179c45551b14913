-- ===== src/Audio/Varint/RoundTrip.antt =====
-- pkg/mumble/audio/varint.go: a number that was encoded is decoded.
use go_mumble_server.Base.{
  ℕ, zero, suc, ◌+◌, ◌-◌, ◌*◌, ◌/◌, ◌%◌, ◌^◌, ◌<◌, ◌≤◌, ◌≡◌, ◌∙◌, refl, ap, ap₂, true, false, some,
  List, [], ◌∷◌, ◌++◌, length, get_or, leb, ltb, ◌==◌, bit_and, bit_or, arith, Bool-cases, inl, inr,
}
use go_mumble_server.Base.Bits.{bit_and-le, bit_and_mask, bit_or_above, bit_or_comm, bit_and_above}
use go_mumble_server.Base.Int.{ℤ, pos, negsuc}
use go_mumble_server.Crypto.CryptState.{big_endian, from_big_endian}
use go_mumble_server.Audio.Varint.{negate, decode_head, decode_varint, encode_pos, encode_varint}

-- The upper bits of a byte.
masked : (b k m q : ℕ) → b / 2 ^ k ≡ q → bit_and b (m * 2 ^ k) ≡ bit_and q m * 2 ^ k
masked b k m q h = bit_and_above k b m ∙ ap (λ x. bit_and x m * 2 ^ k) h

-- The number that the bytes of a form make.
joined : (hi lo k : ℕ) → lo < 2 ^ k → bit_or (hi * 2 ^ k) lo ≡ lo + hi * 2 ^ k
joined hi lo k h = bit_or_comm (hi * 2 ^ k) lo ∙ bit_or_above k lo hi h

decode_two :
    (x y : ℕ) (rest : List ℕ)
    → x < 2 ^ 6
    → y < 2 ^ 8
    → decode_varint (bit_or x 0x80 ∷ (y ∷ rest)) ≡ (pos (y + x * 2 ^ 8), 2)
unfolding decode_varint
decode_two x y rest hx hy =
    let first : bit_or x 0x80 ≡ x + 0x80 = bit_or_above 7 x 1 (omega (arith, hx)) in
    let m7 : bit_and (x + 0x80) 0x80 ≡ 0x80 = masked (x + 0x80) 7 1 1 (omega (arith, hx)) in
    let m6 : bit_and (x + 0x80) 0xC0 ≡ 0x80 = masked (x + 0x80) 6 3 2 (omega (arith, hx)) in
    let low : bit_and (x + 0x80) 0x3F ≡ x = bit_and_mask 6 (x + 0x80) ∙ omega (arith, hx) in
    let long : leb 2 (suc (length rest) + 1) ≡ true = ground arith in
    rw (first, m7, m6, low, long, joined x y 8 hy) refl

decode_three :
    (x y z : ℕ) (rest : List ℕ)
    → x < 2 ^ 5
    → y < 2 ^ 8
    → z < 2 ^ 8
    → decode_varint (bit_or x 0xC0 ∷ (y ∷ (z ∷ rest))) ≡ (pos (z + y * 2 ^ 8 + x * 2 ^ 16), 3)
unfolding decode_varint
decode_three x y z rest hx hy hz =
    let first : bit_or x 0xC0 ≡ x + 0xC0 = bit_or_above 6 x 3 (omega (arith, hx)) in
    let m7 : bit_and (x + 0xC0) 0x80 ≡ 0x80 = masked (x + 0xC0) 7 1 1 (omega (arith, hx)) in
    let m6 : bit_and (x + 0xC0) 0xC0 ≡ 0xC0 = masked (x + 0xC0) 6 3 3 (omega (arith, hx)) in
    let m5 : bit_and (x + 0xC0) 0xE0 ≡ 0xC0 = masked (x + 0xC0) 5 7 6 (omega (arith, hx)) in
    let low : bit_and (x + 0xC0) 0x1F ≡ x = bit_and_mask 5 (x + 0xC0) ∙ omega (arith, hx) in
    let long : leb 3 (suc (suc (length rest)) + 1) ≡ true = ground arith in
    let high : bit_or (x * 2 ^ 16) (y * 2 ^ 8) ≡ (y + x * 2 ^ 8) * 2 ^ 8 =
      joined x (y * 2 ^ 8) 16 (omega (arith, hy)) ∙ omega arith in
    let value : z + (y + x * 2 ^ 8) * 2 ^ 8 ≡ z + y * 2 ^ 8 + x * 2 ^ 16 = omega arith in
    rw (first, m7, m6, m5, low, long, high, joined (y + x * 2 ^ 8) z 8 hz, value) refl

decode_four :
    (x y z w : ℕ) (rest : List ℕ)
    → x < 2 ^ 4
    → y < 2 ^ 8
    → z < 2 ^ 8
    → w < 2 ^ 8
    → decode_varint (bit_or x 0xE0 ∷ (y ∷ (z ∷ (w ∷ rest))))
      ≡ (pos (w + z * 2 ^ 8 + y * 2 ^ 16 + x * 2 ^ 24), 4)
unfolding decode_varint
decode_four x y z w rest hx hy hz hw =
    let first : bit_or x 0xE0 ≡ x + 0xE0 = bit_or_above 5 x 7 (omega (arith, hx)) in
    let m7 : bit_and (x + 0xE0) 0x80 ≡ 0x80 = masked (x + 0xE0) 7 1 1 (omega (arith, hx)) in
    let m6 : bit_and (x + 0xE0) 0xC0 ≡ 0xC0 = masked (x + 0xE0) 6 3 3 (omega (arith, hx)) in
    let m5 : bit_and (x + 0xE0) 0xE0 ≡ 0xE0 = masked (x + 0xE0) 5 7 7 (omega (arith, hx)) in
    let m4 : bit_and (x + 0xE0) 0xF0 ≡ 0xE0 = masked (x + 0xE0) 4 15 14 (omega (arith, hx)) in
    let low : bit_and (x + 0xE0) 0xF ≡ x = bit_and_mask 4 (x + 0xE0) ∙ omega (arith, hx) in
    let long : leb 4 (suc (suc (suc (length rest))) + 1) ≡ true = ground arith in
    let high : bit_or (x * 2 ^ 24) (y * 2 ^ 16) ≡ (y + x * 2 ^ 8) * 2 ^ 16 =
      joined x (y * 2 ^ 16) 24 (omega (arith, hy)) ∙ omega arith in
    let middle : bit_or ((y + x * 2 ^ 8) * 2 ^ 16) (z * 2 ^ 8)
        ≡ (z + (y + x * 2 ^ 8) * 2 ^ 8) * 2 ^ 8 =
      joined (y + x * 2 ^ 8) (z * 2 ^ 8) 16 (omega (arith, hz)) ∙ omega arith in
    let value : w + (z + (y + x * 2 ^ 8) * 2 ^ 8) * 2 ^ 8
        ≡ w + z * 2 ^ 8 + y * 2 ^ 16 + x * 2 ^ 24 =
      omega arith in
    rw
      (
        first,
        m7,
        m6,
        m5,
        m4,
        low,
        long,
        high,
        middle,
        joined (z + (y + x * 2 ^ 8) * 2 ^ 8) w 8 hw,
        value,
      )
      refl

-- The two forms of a fixed size.
decode_int :
    (v : ℕ) (rest : List ℕ)
    → v < 2 ^ 32
    → decode_varint (0xF0 ∷ (big_endian 4 v ++ rest)) ≡ (pos v, 5)
unfolding decode_varint big_endian from_big_endian
decode_int v rest h =
    let long : leb 5 (suc (suc (suc (suc (length rest)))) + 1) ≡ true = ground arith in
    let value : (((0 + v / 2 ^ 24 % 256) * 256 + v / 2 ^ 16 % 256) * 256 + v / 2 ^ 8 % 256) * 256
          + v / 1 % 256
        ≡ v =
      omega (arith, h) in
    rw (long, value) refl

decode_long :
    (v : ℕ) (rest : List ℕ)
    → v < 2 ^ 63
    → decode_varint (0xF4 ∷ (big_endian 8 v ++ rest)) ≡ (pos v, 9)
unfolding decode_varint big_endian from_big_endian
decode_long v rest h =
    let long : leb 9 (suc (suc (suc (suc (suc (suc (suc (suc (length rest)))))))) + 1) ≡ true =
      ground arith in
    let value : from_big_endian (big_endian 8 v) 0 ≡ v = omega (arith, h) in
    let positive : ltb v (2 ^ 63) ≡ true = ground (arith, h) in rw (long, value, positive) refl

-- A number that is not negative starts with a byte below the prefix of a negative one.
abbrev pub StartsLow : ℤ → List ℕ → Type 0
StartsLow (pos v) bytes = get_or bytes 0 0 < 0xF8
StartsLow (negsuc k) bytes = Unit {0}

-- What was written, and what is read from it whatever follows.
pub record Encoded (n : ℕ) (v : ℤ) : Type 0 where
  pub bytes : List ℕ
  pub written : encode_varint n v ≡ some bytes
  pub some_byte : 0 < length bytes
  pub fits : length bytes ≤ n
  pub lead : StartsLow v bytes
  pub read : (rest : List ℕ) → decode_varint (bytes ++ rest) ≡ (v, length bytes)

decode_one : (v : ℕ) (rest : List ℕ) → v < 128 → decode_varint (v % 256 ∷ rest) ≡ (pos v, 1)
unfolding decode_varint
decode_one v rest h =
    let byte : v % 256 ≡ v = omega (arith, h) in
    let m7 : bit_and v 0x80 ≡ 0 = masked v 7 1 0 (omega (arith, h)) in rw (byte, m7) refl

-- One form after the other.
module _ (n v : ℕ) (h : 9 ≤ suc n) where
  one_byte : leb v 0x7F ≡ true → Encoded (suc n) (pos v)
  unfolding encode_varint encode_pos
  one_byte a = record {
    bytes = v % 256 ∷ [];
    written = rw a (ground (arith, h));
    some_byte = omega arith;
    fits = omega arith;
    lead = ground (arith, a);
    read = λ rest. decode_one v rest (ground (arith, a));
  }

  two_bytes : leb v 0x7F ≡ false → leb v 0x3FFF ≡ true → Encoded (suc n) (pos v)
  unfolding encode_varint encode_pos
  two_bytes a b =
      let x : bit_and (v / 2 ^ 8) 0x3F ≡ v / 2 ^ 8 =
        bit_and_mask 6 (v / 2 ^ 8) ∙ ground (arith, b) in
      let value : v % 256 + v / 2 ^ 8 * 2 ^ 8 ≡ v = omega arith in
      record {
        bytes = bit_or (bit_and (v / 2 ^ 8) 0x3F) 0x80 ∷ v % 256 ∷ [];
        written = rw (a, b) (ground (arith, h));
        some_byte = omega arith;
        fits = omega (arith, h);
        lead =
            let small = bit_and-le (v / 2 ^ 8) 0x3F in
            omega
              (arith, small, bit_or_above 7 (bit_and (v / 2 ^ 8) 0x3F) 1 (omega (arith, small)));
        read = λ rest.
            decode_two (bit_and (v / 2 ^ 8) 0x3F) (v % 256) rest
              (omega (arith, bit_and-le (v / 2 ^ 8) 0x3F)) (omega arith)
            ∙ rw (x, value) refl;
      }

  three_bytes :
      leb v 0x7F ≡ false → leb v 0x3FFF ≡ false → leb v 0x1FFFFF ≡ true → Encoded (suc n) (pos v)
  unfolding encode_varint encode_pos
  three_bytes a b c =
      let x : bit_and (v / 2 ^ 16) 0x1F ≡ v / 2 ^ 16 =
        bit_and_mask 5 (v / 2 ^ 16) ∙ ground (arith, c) in
      let value : v % 256 + v / 2 ^ 8 % 256 * 2 ^ 8 + v / 2 ^ 16 * 2 ^ 16 ≡ v = omega arith in
      record {
        bytes = bit_or (bit_and (v / 2 ^ 16) 0x1F) 0xC0 ∷ v / 2 ^ 8 % 256 ∷ v % 256 ∷ [];
        written = rw (a, b, c) (ground (arith, h));
        some_byte = omega arith;
        fits = omega (arith, h);
        lead =
            let small = bit_and-le (v / 2 ^ 16) 0x1F in
            omega
              (arith, small, bit_or_above 6 (bit_and (v / 2 ^ 16) 0x1F) 3 (omega (arith, small)));
        read = λ rest.
            decode_three (bit_and (v / 2 ^ 16) 0x1F) (v / 2 ^ 8 % 256) (v % 256) rest
              (omega (arith, bit_and-le (v / 2 ^ 16) 0x1F)) (omega arith) (omega arith)
            ∙ rw (x, value) refl;
      }

  four_bytes :
      leb v 0x7F ≡ false
      → leb v 0x3FFF ≡ false
      → leb v 0x1FFFFF ≡ false
      → leb v 0xFFFFFFF ≡ true
      → Encoded (suc n) (pos v)
  unfolding encode_varint encode_pos
  four_bytes a b c d =
      let x : bit_and (v / 2 ^ 24) 0xF ≡ v / 2 ^ 24 =
        bit_and_mask 4 (v / 2 ^ 24) ∙ ground (arith, d) in
      let value : v % 256
            + v / 2 ^ 8 % 256 * 2 ^ 8
            + v / 2 ^ 16 % 256 * 2 ^ 16
            + v / 2 ^ 24 * 2 ^ 24
          ≡ v =
        omega arith in
      record {
        bytes =
            bit_or (bit_and (v / 2 ^ 24) 0xF) 0xE0
            ∷ v / 2 ^ 16 % 256
            ∷ v / 2 ^ 8 % 256
            ∷ v % 256
            ∷ [];
        written = rw (a, b, c, d) (ground (arith, h));
        some_byte = omega arith;
        fits = omega (arith, h);
        lead =
            let small = bit_and-le (v / 2 ^ 24) 0xF in
            omega
              (arith, small, bit_or_above 5 (bit_and (v / 2 ^ 24) 0xF) 7 (omega (arith, small)));
        read = λ rest.
            decode_four (bit_and (v / 2 ^ 24) 0xF) (v / 2 ^ 16 % 256) (v / 2 ^ 8 % 256) (v % 256)
              rest (omega (arith, bit_and-le (v / 2 ^ 24) 0xF)) (omega arith) (omega arith)
              (omega arith)
            ∙ rw (x, value) refl;
      }

  five_bytes :
      leb v 0x7F ≡ false
      → leb v 0x3FFF ≡ false
      → leb v 0x1FFFFF ≡ false
      → leb v 0xFFFFFFF ≡ false
      → leb v 0x7FFFFFFF ≡ true
      → Encoded (suc n) (pos v)
  unfolding encode_varint encode_pos
  five_bytes a b c d e =
      let small : v % 2 ^ 32 ≡ v = ground (arith, e) in
      record {
        bytes = 0xF0 ∷ big_endian 4 v;
        written = rw (a, b, c, d, e, small) (unfold big_endian in ground (arith, h));
        some_byte = unfold big_endian in omega arith;
        fits = unfold big_endian in omega (arith, h);
        lead = omega arith;
        read = λ rest. decode_int v rest (ground (arith, e)) ∙ (unfold big_endian in refl);
      }

  nine_bytes :
      v < 2 ^ 63
      → leb v 0x7F ≡ false
      → leb v 0x3FFF ≡ false
      → leb v 0x1FFFFF ≡ false
      → leb v 0xFFFFFFF ≡ false
      → leb v 0x7FFFFFFF ≡ false
      → Encoded (suc n) (pos v)
  unfolding encode_varint encode_pos
  nine_bytes k a b c d e = record {
    bytes = 0xF4 ∷ big_endian 8 v;
    written = rw (a, b, c, d, e) (unfold big_endian in ground (arith, h));
    some_byte = unfold big_endian in omega arith;
    fits = unfold big_endian in omega (arith, h);
    lead = omega arith;
    read = λ rest. decode_long v rest k ∙ (unfold big_endian in refl);
  }

  encode_pos-Encoded : v < 2 ^ 63 → Encoded (suc n) (pos v)
  encode_pos-Encoded k = elim (Bool-cases (leb v 0x7F)) [
    | inl a ↦ one_byte a
    | inr a ↦ elim (Bool-cases (leb v 0x3FFF)) [
      | inl b ↦ two_bytes a b
      | inr b ↦ elim (Bool-cases (leb v 0x1FFFFF)) [
        | inl c ↦ three_bytes a b c
        | inr c ↦ elim (Bool-cases (leb v 0xFFFFFFF)) [
          | inl d ↦ four_bytes a b c d
          | inr d ↦ elim (Bool-cases (leb v 0x7FFFFFFF)) [
            | inl e ↦ five_bytes a b c d e
            | inr e ↦ nine_bytes k a b c d e
          ]
        ]
      ]
    ]
  ]

-- The numbers of an int64 but the least.
abbrev pub IsNumber : ℤ → Type 0
IsNumber (pos v) = v < 2 ^ 63
IsNumber (negsuc k) = k < 2 ^ 63 - 1

decode_inverted :
    (k : ℕ) (rest : List ℕ) → k < 4 → decode_varint (bit_or 0xFC k ∷ rest) ≡ (negsuc k, 1)
unfolding decode_varint
decode_inverted zero rest h = refl
decode_inverted (suc zero) rest h = refl
decode_inverted (suc (suc zero)) rest h = refl
decode_inverted (suc (suc (suc zero))) rest h = refl
decode_inverted (suc (suc (suc (suc k)))) rest h = absurd (omega (arith, h))

decode_negative :
    (b : List ℕ) (v : ℕ) (l : ℕ)
    → decode_varint b ≡ (pos (suc v), suc l)
    → decode_varint (0xF8 ∷ b) ≡ (negsuc v, suc l + 1)
unfolding decode_varint decode_head negate
decode_negative b v l h =
    let some_byte : (suc l == 0) ≡ false = ground arith in
    ap (decode_head 0xF8 b) h ∙ rw some_byte refl

negative-Encoded :
    (n k : ℕ)
    → 9 ≤ n
    → k < 2 ^ 63 - 1
    → leb k 3 ≡ false
    → Encoded n (pos (k + 1))
    → Encoded (suc n) (negsuc k)
unfolding encode_varint negate
negative-Encoded n k h small large e =
    let other : (k == 2 ^ 63 - 1) ≡ false = ground (arith, small) in
    record {
      bytes = 0xF8 ∷ e.bytes;
      written = rw (large, other, e.written) refl;
      some_byte = omega arith;
      fits = omega (arith, e.fits);
      lead = tt;
      read = λ rest.
          let l = length e.bytes - 1 in
          let one : length e.bytes ≡ suc l = omega (arith, e.some_byte) in
          let next : k + 1 ≡ suc k = omega arith in
          let inner : decode_varint (e.bytes ++ rest) ≡ (pos (suc k), suc l) =
            e.read rest ∙ ap₂ (λ (i : ℕ) (j : ℕ). (pos i, j)) next one in
          decode_negative (e.bytes ++ rest) k l inner
          ∙ ap (λ (j : ℕ). (negsuc k, j)) (omega (arith, one));
    }

-- A number that is not the least int64 is decoded from its encoding, which any buffer of ten bytes holds,
-- whatever follows it, and takes exactly the bytes written.
pub encode_varint-Encoded : (n : ℕ) (v : ℤ) → 10 ≤ n → IsNumber v → Encoded n v
encode_varint-Encoded zero v h k = absurd (omega (arith, h))
encode_varint-Encoded (suc n) (pos v) h k = encode_pos-Encoded n v (omega (arith, h)) k
encode_varint-Encoded (suc zero) (negsuc k) h small = absurd (omega (arith, h))
encode_varint-Encoded (suc (suc n)) (negsuc k) h small = elim (Bool-cases (leb k 3)) [
  | inl a ↦ record {
    bytes = bit_or 0xFC k ∷ [];
    written = unfold encode_varint in rw a refl;
    some_byte = omega arith;
    fits = omega arith;
    lead = tt;
    read = λ rest. decode_inverted k rest (ground (arith, a));
  }
  | inr a ↦
      negative-Encoded (suc n) k (omega (arith, h)) small a
        (encode_pos-Encoded n (k + 1) (omega (arith, h)) (omega (arith, small)))
]
