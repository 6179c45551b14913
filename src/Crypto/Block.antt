-- ===== src/Crypto/Block.antt =====
-- Blocks of 16 bytes and the slice operations of pkg/mumble/crypto/ocb2/ocb2.go. The block cipher
-- (crypto/aes behind crypto/cipher's Block interface) is not in the repository: it is a parameter.
use go_mumble_server.Base.{
  ℕ, zero, suc, ◌*◌, ◌/◌, ◌%◌, ◌<◌, ◌≤◌, ◌≡◌, refl, ap, List, [], ◌∷◌, length, All, arith, bit_and,
  bit_or, bit_xor,
}
use go_mumble_server.Base.Bits.{bit_xor_self, bit_xor-lt, bit_or-lt, bit_and-le}

abbrev pub IsByte : ℕ → Type 0
IsByte b = b < 256

abbrev pub IsBlock : List ℕ → Type 0
IsBlock b = (length b ≡ 16) × All IsByte b

-- What the code relies on of cipher.Block: `Decrypt` undoes `Encrypt` on 16-byte blocks.
pub record Cipher : Type 0 where
  pub encrypt : List ℕ → List ℕ
  pub decrypt : List ℕ → List ℕ
  pub encrypt-IsBlock : (b : List ℕ) → IsBlock b → IsBlock (encrypt b)
  pub decrypt-encrypt : (b : List ℕ) → IsBlock b → decrypt (encrypt b) ≡ b

-- Go's `copy(dst, src)`: the shorter of the two decides.
unfoldable pub copy : List ℕ → List ℕ → List ℕ
copy dst [] = dst
copy [] (x ∷ src) = []
copy (d ∷ dst) (x ∷ src) = x ∷ copy dst src

-- `zeros` on a block.
unfoldable pub zeros : List ℕ → List ℕ
zeros [] = []
zeros (x ∷ xs) = 0 ∷ zeros xs

-- The loop of `xor`: `n` bytes at most, as many as `a` and `b` have; the rest of `dst` stays.
unfoldable pub xor_loop : ℕ → List ℕ → List ℕ → List ℕ → List ℕ
xor_loop zero dst a b = dst
xor_loop (suc n) dst [] b = dst
xor_loop (suc n) dst (x ∷ a) [] = dst
xor_loop (suc n) [] (x ∷ a) (y ∷ b) = []
xor_loop (suc n) (d ∷ dst) (x ∷ a) (y ∷ b) = bit_xor x y ∷ xor_loop n dst a b

unfoldable pub xor : List ℕ → List ℕ → List ℕ → List ℕ
unfolding xor_loop
xor dst a b = xor_loop 16 dst a b

-- `block[0] >> 7 & 1`
abbrev pub top_carry : List ℕ → ℕ
top_carry [] = 0
top_carry (b ∷ bs) = bit_and (b / 128) 1

-- The shifted byte: `(x << 1) | ((y >> 7) & 1)`.
abbrev pub shift_in : ℕ → ℕ → ℕ
shift_in x y = bit_or (x * 2 % 256) (bit_and (y / 128) 1)

abbrev pub last_byte : ℕ → ℕ → ℕ
last_byte carry x = bit_xor (x * 2 % 256) (carry * 135)

-- The loops read `block[i + 1]` before they write it, so they are a pass over the old block.
unfoldable pub times2_loop : ℕ → List ℕ → List ℕ
times2_loop carry [] = []
times2_loop carry (x ∷ []) = last_byte carry x ∷ []
times2_loop carry (x ∷ y ∷ r) = shift_in x y ∷ times2_loop carry (y ∷ r)

unfoldable pub times2 : List ℕ → List ℕ
unfolding times2_loop
times2 block = times2_loop (top_carry block) block

unfoldable pub times3_loop : ℕ → List ℕ → List ℕ
times3_loop carry [] = []
times3_loop carry (x ∷ []) = bit_xor x (last_byte carry x) ∷ []
times3_loop carry (x ∷ y ∷ r) = bit_xor x (shift_in x y) ∷ times3_loop carry (y ∷ r)

unfoldable pub times3 : List ℕ → List ℕ
unfolding times3_loop
times3 block = times3_loop (top_carry block) block

-- `a ^ b` byte by byte, for lists of one length.
abbrev pub zip_xor : List ℕ → List ℕ → List ℕ
zip_xor [] b = []
zip_xor (x ∷ a) [] = []
zip_xor (x ∷ a) (y ∷ b) = bit_xor x y ∷ zip_xor a b

pub xor_loop-zip :
    (n : ℕ) (dst a b : List ℕ)
    → length dst ≡ n
    → length a ≡ n
    → length b ≡ n
    → xor_loop n dst a b ≡ zip_xor a b
unfolding xor_loop
xor_loop-zip zero [] [] [] p q r = refl
xor_loop-zip zero (d ∷ dst) a b p q r = absurd (omega arith)
xor_loop-zip zero [] (x ∷ a) b p q r = absurd (omega arith)
xor_loop-zip zero [] [] (y ∷ b) p q r = absurd (omega arith)
xor_loop-zip (suc n) [] a b p q r = absurd (omega arith)
xor_loop-zip (suc n) (d ∷ dst) [] b p q r = absurd (omega arith)
xor_loop-zip (suc n) (d ∷ dst) (x ∷ a) [] p q r = absurd (omega arith)
xor_loop-zip (suc n) (d ∷ dst) (x ∷ a) (y ∷ b) p q r =
    ap (◌∷◌ (bit_xor x y)) (xor_loop-zip n dst a b (omega arith) (omega arith) (omega arith))

-- On whole blocks the old contents of `dst` do not matter.
pub xor-zip :
    (dst a b : List ℕ) → length dst ≡ 16 → length a ≡ 16 → length b ≡ 16 → xor dst a b ≡ zip_xor a b
unfolding xor
xor-zip dst a b p q r = xor_loop-zip 16 dst a b p q r

pub zip_xor_self : (a b : List ℕ) → length a ≡ length b → zip_xor a (zip_xor a b) ≡ b
zip_xor_self [] [] h = refl
zip_xor_self [] (y ∷ b) h = absurd (omega arith)
zip_xor_self (x ∷ a) [] h = absurd (omega arith)
zip_xor_self (x ∷ a) (y ∷ b) h =
    let rest = zip_xor_self a b (omega arith) in cc (bit_xor_self x y, rest)

pub length-zip_xor : (a b : List ℕ) → length a ≡ length b → length (zip_xor a b) ≡ length a
length-zip_xor [] b h = refl
length-zip_xor (x ∷ a) [] h = absurd (omega arith)
length-zip_xor (x ∷ a) (y ∷ b) h = ap suc (length-zip_xor a b (omega arith))

pub zip_xor-bytes : (a b : List ℕ) → All IsByte a → All IsByte b → All IsByte (zip_xor a b)
zip_xor-bytes [] b p q = tt
zip_xor-bytes (x ∷ a) [] p q = tt
zip_xor-bytes (x ∷ a) (y ∷ b) p q = (bit_xor-lt 8 x y p.0 q.0, zip_xor-bytes a b p.1 q.1)

pub zip_xor-IsBlock : (a b : List ℕ) → IsBlock a → IsBlock b → IsBlock (zip_xor a b)
zip_xor-IsBlock a b p q =
    (omega (arith, length-zip_xor a b (omega arith)), zip_xor-bytes a b p.1 q.1)

shift_in-IsByte : (x y : ℕ) → IsByte y → IsByte (shift_in x y)
shift_in-IsByte x y h =
    bit_or-lt 8 (x * 2 % 256) (bit_and (y / 128) 1) (omega arith)
      (omega (arith, bit_and-le (y / 128) 1))

last_byte-IsByte : (carry x : ℕ) → carry ≤ 1 → IsByte (last_byte carry x)
last_byte-IsByte carry x h = bit_xor-lt 8 (x * 2 % 256) (carry * 135) (omega arith) (omega arith)

top_carry-le : (b : List ℕ) → top_carry b ≤ 1
top_carry-le [] = omega arith
top_carry-le (x ∷ b) = bit_and-le (x / 128) 1

times2_loop_shape :
    (carry : ℕ) (b : List ℕ)
    → carry ≤ 1
    → All IsByte b
    → (length (times2_loop carry b) ≡ length b) × All IsByte (times2_loop carry b)
unfolding times2_loop
times2_loop_shape carry [] h p = (refl, tt)
times2_loop_shape carry (x ∷ []) h p = (refl, (last_byte-IsByte carry x h, tt))
times2_loop_shape carry (x ∷ y ∷ r) h p =
    let rest = times2_loop_shape carry (y ∷ r) h p.1 in
    (ap suc rest.0, (shift_in-IsByte x y p.1.0, rest.1))

pub times2-IsBlock : (b : List ℕ) → IsBlock b → IsBlock (times2 b)
unfolding times2
times2-IsBlock b h =
    let s = times2_loop_shape (top_carry b) b (top_carry-le b) h.1 in (omega (arith, s.0), s.1)

times3_loop_shape :
    (carry : ℕ) (b : List ℕ)
    → carry ≤ 1
    → All IsByte b
    → (length (times3_loop carry b) ≡ length b) × All IsByte (times3_loop carry b)
unfolding times3_loop
times3_loop_shape carry [] h p = (refl, tt)
times3_loop_shape carry (x ∷ []) h p =
    (refl, (bit_xor-lt 8 x _ p.0 (last_byte-IsByte carry x h), tt))
times3_loop_shape carry (x ∷ y ∷ r) h p =
    let rest = times3_loop_shape carry (y ∷ r) h p.1 in
    (ap suc rest.0, (bit_xor-lt 8 x _ p.0 (shift_in-IsByte x y p.1.0), rest.1))

pub times3-IsBlock : (b : List ℕ) → IsBlock b → IsBlock (times3 b)
unfolding times3
times3-IsBlock b h =
    let s = times3_loop_shape (top_carry b) b (top_carry-le b) h.1 in (omega (arith, s.0), s.1)
