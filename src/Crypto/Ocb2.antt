-- ===== src/Crypto/Ocb2.antt =====
-- pkg/mumble/crypto/ocb2/ocb2.go: `Encrypt` and `Decrypt`. A slice that a function writes to is
-- passed in and its new contents are returned. The loops over whole blocks take fuel; a round takes
-- 16 bytes, so the length of the message is enough.
pub mod LastBlock
pub mod RoundTrip
use go_mumble_server.Base.{
  ℕ, zero, suc, ◌-◌, ◌*◌, ◌/◌, ◌%◌, Bool, List, [], ◌∷◌, ◌++◌, length, take, drop, set, ltb, ◌==◌,
  if◌then◌else◌,
}
use go_mumble_server.Crypto.Block.{Cipher, copy, zeros, xor, times2, times3}

abbrev pub block_size : ℕ
block_size = 16

abbrev pub tag_size : ℕ
tag_size = 16

-- `tmp` with the bit length of the last block in its last two bytes, mixed with `delta`.
unfoldable pub length_block : List ℕ → List ℕ → ℕ → List ℕ
length_block delta tmp remain =
    let num = remain * 8 in
    let tmp' = set (set (zeros tmp) 14 (num / 256 % 256)) 15 (num % 256) in xor tmp' tmp' delta

-- `copy(tmp[remain:], pad[remain:])`
unfoldable pub pad_rest : List ℕ → List ℕ → ℕ → List ℕ
pad_rest tmp pad remain = take remain tmp ++ copy (drop remain tmp) (drop remain pad)

-- The tag block from the last `delta` and the checksum.
unfoldable pub tag_block : Cipher → List ℕ → List ℕ → List ℕ → List ℕ
tag_block c delta checksum tmp = c.encrypt (xor tmp (times3 delta) checksum)

-- After the loop of `Encrypt`: the last block, full or not, and the tag.
unfoldable pub encrypt_last : Cipher → List ℕ → List ℕ → List ℕ → List ℕ → List ℕ → List ℕ × List ℕ
encrypt_last c delta checksum tmp dst src =
    let remain = length src in
    let delta' = times2 delta in
    let tmp1 = length_block delta' tmp remain in
    let pad = c.encrypt tmp1 in
    let tmp2 = pad_rest (copy tmp1 src) pad remain in
    let checksum' = xor checksum checksum tmp2 in
    let tmp3 = xor tmp2 pad tmp2 in (copy dst (take remain tmp3), tag_block c delta' checksum' tmp3)

unfoldable pub encrypt_loop :
    ℕ → Cipher → List ℕ → List ℕ → List ℕ → List ℕ → List ℕ → List ℕ × List ℕ
encrypt_loop zero c delta checksum tmp dst src = encrypt_last c delta checksum tmp dst src
encrypt_loop (suc fuel) c delta checksum tmp dst src =
    let block = take block_size src in
    let delta' = times2 delta in
    let tmp' = c.encrypt (xor tmp delta' block) in
    let out = xor (take block_size dst) delta' tmp' in
    let checksum' = xor checksum checksum block in
    let rest =
      encrypt_loop fuel c delta' checksum' tmp' (drop block_size dst) (drop block_size src) in
    if ltb block_size (length src)
    then (out ++ rest.0, rest.1)
    else encrypt_last c delta checksum tmp dst src

abbrev pub zero_block : List ℕ
zero_block = 0 ∷ 0 ∷ 0 ∷ 0 ∷ 0 ∷ 0 ∷ 0 ∷ 0 ∷ 0 ∷ 0 ∷ 0 ∷ 0 ∷ 0 ∷ 0 ∷ 0 ∷ 0 ∷ []

-- `Encrypt`: the new contents of `dst` and of `tag`. The size checks, which panic, hold at the
-- only call, whose nonce is an array of 16 bytes.
unfoldable pub encrypt : Cipher → List ℕ → List ℕ → List ℕ → List ℕ → ℕ → List ℕ × List ℕ
encrypt c dst src nonce tag tag_len =
    let r = encrypt_loop (length src) c (c.encrypt nonce) zero_block zero_block dst src in
    (r.0, copy tag (take tag_len r.1))

unfoldable pub decrypt_last : Cipher → List ℕ → List ℕ → List ℕ → List ℕ → List ℕ → List ℕ × List ℕ
decrypt_last c delta checksum tmp dst src =
    let remain = length src in
    let delta' = times2 delta in
    let tmp1 = length_block delta' tmp remain in
    let pad = c.encrypt tmp1 in
    let tmp2 = pad_rest (xor tmp1 src pad) pad remain in
    let checksum' = xor checksum checksum tmp2 in
    (copy dst (take remain tmp2), tag_block c delta' checksum' tmp2)

unfoldable pub decrypt_loop :
    ℕ → Cipher → List ℕ → List ℕ → List ℕ → List ℕ → List ℕ → List ℕ × List ℕ
decrypt_loop zero c delta checksum tmp dst src = decrypt_last c delta checksum tmp dst src
decrypt_loop (suc fuel) c delta checksum tmp dst src =
    let block = take block_size src in
    let delta' = times2 delta in
    let tmp' = c.decrypt (xor tmp delta' block) in
    let out = xor (take block_size dst) delta' tmp' in
    let checksum' = xor checksum checksum out in
    let rest =
      decrypt_loop fuel c delta' checksum' tmp' (drop block_size dst) (drop block_size src) in
    if ltb block_size (length src)
    then (out ++ rest.0, rest.1)
    else decrypt_last c delta checksum tmp dst src

-- `subtle.ConstantTimeCompare`: equal length and equal bytes.
unfoldable pub same_bytes : List ℕ → List ℕ → Bool
same_bytes [] [] = Bool.true
same_bytes [] (y ∷ b) = Bool.false
same_bytes (x ∷ a) [] = Bool.false
same_bytes (x ∷ a) (y ∷ b) = let rest = same_bytes a b in if x == y then rest else Bool.false

-- `Decrypt`: the new contents of `dst`, which is written before the tag is compared, and the test.
unfoldable pub decrypt : Cipher → List ℕ → List ℕ → List ℕ → List ℕ → List ℕ × Bool
unfolding same_bytes
decrypt c dst src nonce tag =
    let tag_len = if ltb tag_size (length tag) then tag_size else length tag in
    let r = decrypt_loop (length src) c (c.encrypt nonce) zero_block zero_block dst src in
    (r.0, same_bytes (take tag_len r.1) tag)
