-- ===== src/Audio/Varint/Least.antt =====
-- pkg/mumble/audio/varint.go: the encoding of the least int64, whose negation is itself.
use go_mumble_server.Base.{
  ℕ, zero, suc, ◌^◌, ◌-◌, ◌≡◌, refl, ap, Option, none, some, List, ◌∷◌, replicate,
}
use go_mumble_server.Base.Int.{ℤ, negsuc}
use go_mumble_server.Audio.Varint.{encode_varint}

-- -2^63
abbrev pub least : ℤ
least = negsuc (2 ^ 63 - 1)

abbrev prefixed : Option (List ℕ) → Option (List ℕ)
prefixed none = none
prefixed (some bytes) = some (0xF8 ∷ bytes)

-- The encoding of the least int64 fills the buffer, however long it is, with the prefix of a negative
-- number, and holds no digit of it.
pub encode_varint-least : (n : ℕ) → encode_varint n least ≡ some (replicate n 0xF8)
unfolding encode_varint
encode_varint-least zero = refl
encode_varint-least (suc n) = ap prefixed (encode_varint-least n)
