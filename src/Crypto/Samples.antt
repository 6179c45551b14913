-- ===== src/Crypto/Samples.antt =====
-- A block cipher and an AEAD with the laws of `Cipher` and `Aead`, to run the models of pkg/mumble/crypto.
use go_mumble_server.Base.{
  ℕ, suc, ◌-◌, ◌≡◌, refl, ap, ◌∙◌, Option, none, some, List, [], ◌∷◌, ◌++◌, length, take, drop,
  replicate, All, if◌then◌else◌, bit_xor, ltb, arith, length-append, take-append_length,
  drop-append_length, Bool, true, ◌&&◌,
}
use go_mumble_server.Base.Bits.{bit_xor_self, bit_xor-lt}
use go_mumble_server.Crypto.Block.{Cipher, IsByte}
use go_mumble_server.Crypto.Ocb2.{same_bytes}
use go_mumble_server.Crypto.CryptState.{Aead}

abbrev pub small : List ℕ → Bool
small [] = true
small (x ∷ xs) = ltb x 256 && small xs

pub small-All : (xs : List ℕ) → small xs ≡ true → All IsByte xs
small-All [] h = tt
small-All (x ∷ xs) h = (ground arith, small-All xs (ground arith))

-- Every byte xor 90.
abbrev pub flip : List ℕ → List ℕ
flip [] = []
flip (x ∷ xs) = bit_xor 90 x ∷ flip xs

pub length-flip : (xs : List ℕ) → length (flip xs) ≡ length xs
length-flip [] = refl
length-flip (x ∷ xs) = ap suc (length-flip xs)

pub flip-All : (xs : List ℕ) → All IsByte xs → All IsByte (flip xs)
flip-All [] h = h
flip-All (x ∷ xs) h = (bit_xor-lt 8 90 x (omega arith) h.0, flip-All xs h.1)

pub flip-flip : (xs : List ℕ) → flip (flip xs) ≡ xs
flip-flip [] = refl
flip-flip (x ∷ xs) = rw (bit_xor_self 90 x, flip-flip xs) refl

abbrev pub flip_cipher : Cipher
flip_cipher = record {
  encrypt = flip;
  decrypt = flip;
  encrypt-IsBlock = λ b h. (length-flip b ∙ h.0, flip-All b h.1);
  decrypt-encrypt = λ b h. flip-flip b;
}

abbrev pub tag : List ℕ
tag = replicate 16 7

-- The tag is sixteen times 7, and opening checks it.
unfoldable pub open_tagged : List ℕ → Option (List ℕ)
unfolding same_bytes
open_tagged c =
    if same_bytes (drop (length c - 16) c) tag then some (take (length c - 16) c) else none

pub open_tagged-append : (plain : List ℕ) → open_tagged (plain ++ tag) ≡ some plain
unfolding open_tagged
open_tagged-append plain =
    let e : length (plain ++ tag) - 16 ≡ length plain = omega (arith, length-append plain tag) in
    rw (e, drop-append_length plain tag, take-append_length plain tag) refl

abbrev pub tagged : Aead
tagged = record {
  seal = λ nonce plain. plain ++ tag;
  unseal = λ nonce c. open_tagged c;
  unseal-seal = λ nonce plain. open_tagged-append plain;
  length-seal = λ nonce plain. length-append plain tag;
}
