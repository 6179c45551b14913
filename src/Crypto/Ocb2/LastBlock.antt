-- ===== src/Crypto/Ocb2/LastBlock.antt =====
-- The last block of a message, which may be short: `decrypt_last` undoes `encrypt_last`.
use go_mumble_server.Base.{
  ℕ, zero, suc, ◌*◌, ◌/◌, ◌%◌, ◌≤◌, ◌≡◌, refl, sym, ap, ◌∙◌, true, List, [], ◌∷◌, ◌++◌, length,
  take, drop, set, All, arith, bit_xor, length-append, length-drop, take-append_length,
  drop-append_length, All-append, All-drop,
}
use go_mumble_server.Base.Bits.{bit_xor_self, bit_xor_comm}
use go_mumble_server.Crypto.Block.{
  Cipher, IsBlock, IsByte, copy, zeros, xor, xor_loop, zip_xor, xor-zip, times2, times3,
  zip_xor-IsBlock, length-zip_xor, times2-IsBlock, times3-IsBlock,
}
use go_mumble_server.Crypto.Ocb2.{
  encrypt_last, decrypt_last, length_block, pad_rest, tag_block, same_bytes,
}

pub length-copy : (dst src : List ℕ) → length (copy dst src) ≡ length dst
unfolding copy
length-copy dst [] = refl
length-copy [] (x ∷ src) = refl
length-copy (d ∷ dst) (x ∷ src) = ap suc (length-copy dst src)

pub copy-append :
    (dst src : List ℕ) → length src ≤ length dst → copy dst src ≡ src ++ drop (length src) dst
unfolding copy
copy-append dst [] h = refl
copy-append [] (x ∷ src) h = absurd (omega arith)
copy-append (d ∷ dst) (x ∷ src) h = ap (◌∷◌ x) (copy-append dst src (omega arith))

pub copy_whole : (dst src : List ℕ) → length src ≡ length dst → copy dst src ≡ src
unfolding copy
copy_whole [] [] h = refl
copy_whole (d ∷ dst) [] h = absurd (omega arith)
copy_whole [] (x ∷ src) h = absurd (omega arith)
copy_whole (d ∷ dst) (x ∷ src) h = ap (◌∷◌ x) (copy_whole dst src (omega arith))

zeros_same : (a b : List ℕ) → length a ≡ length b → zeros a ≡ zeros b
unfolding zeros
zeros_same [] [] h = refl
zeros_same [] (y ∷ b) h = absurd (omega arith)
zeros_same (x ∷ a) [] h = absurd (omega arith)
zeros_same (x ∷ a) (y ∷ b) h = ap (◌∷◌ 0) (zeros_same a b (omega arith))

-- Two buffers of one length give one length block.
length_block_same :
    (delta a b : List ℕ) (r : ℕ)
    → length a ≡ length b
    → length_block delta a r ≡ length_block delta b r
unfolding length_block
length_block_same delta a b r h = rw (zeros_same a b h)

-- The loop of `xor` where `a` is the shortest.
xor_loop-prefix :
    (n : ℕ) (dst a b : List ℕ)
    → length a ≤ n
    → length a ≤ length b
    → length a ≤ length dst
    → xor_loop n dst a b ≡ zip_xor a b ++ drop (length a) dst
unfolding xor_loop
xor_loop-prefix zero dst [] b p q r = refl
xor_loop-prefix zero dst (x ∷ a) b p q r = absurd (omega arith)
xor_loop-prefix (suc n) dst [] b p q r = refl
xor_loop-prefix (suc n) dst (x ∷ a) [] p q r = absurd (omega arith)
xor_loop-prefix (suc n) [] (x ∷ a) (y ∷ b) p q r = absurd (omega arith)
xor_loop-prefix (suc n) (d ∷ dst) (x ∷ a) (y ∷ b) p q r =
    ap (◌∷◌ (bit_xor x y)) (xor_loop-prefix n dst a b (omega arith) (omega arith) (omega arith))

take-zip_xor :
    (p s t : List ℕ) → length s ≤ length p → take (length s) (zip_xor p (s ++ t)) ≡ zip_xor p s
take-zip_xor [] [] t h = refl
take-zip_xor (x ∷ p) [] t h = refl
take-zip_xor [] (y ∷ s) t h = absurd (omega arith)
take-zip_xor (x ∷ p) (y ∷ s) t h = ap (◌∷◌ (bit_xor x y)) (take-zip_xor p s t (omega arith))

zip_xor_back : (p s : List ℕ) → length s ≤ length p → zip_xor (zip_xor p s) p ≡ s
zip_xor_back [] [] h = refl
zip_xor_back (x ∷ p) [] h = refl
zip_xor_back [] (y ∷ s) h = absurd (omega arith)
zip_xor_back (x ∷ p) (y ∷ s) h =
    let rest = zip_xor_back p s (omega arith) in
    cc (bit_xor_comm (bit_xor x y) x, bit_xor_self x y, rest)

length-zip_xor_short : (p s : List ℕ) → length s ≤ length p → length (zip_xor p s) ≡ length s
length-zip_xor_short [] [] h = refl
length-zip_xor_short (x ∷ p) [] h = refl
length-zip_xor_short [] (y ∷ s) h = absurd (omega arith)
length-zip_xor_short (x ∷ p) (y ∷ s) h = ap suc (length-zip_xor_short p s (omega arith))

-- A block that begins with the message, filled up from the pad.
pad_rest_filled :
    (s t pad : List ℕ)
    → length (s ++ t) ≡ 16
    → length pad ≡ 16
    → pad_rest (s ++ t) pad (length s) ≡ s ++ drop (length s) pad
unfolding pad_rest
pad_rest_filled s t pad h k =
    rw (take-append_length s t, drop-append_length s t)
      (ap (◌++◌ s) (
        copy_whole t (drop (length s) pad)
          (omega (arith, length-drop (length s) pad, length-append s t))))

length-filled :
    (s pad : List ℕ) → length s ≤ 16 → length pad ≡ 16 → length (s ++ drop (length s) pad) ≡ 16
length-filled s pad h k =
    omega (arith, length-append s (drop (length s) pad), length-drop (length s) pad)

pub same_bytes_self : (a : List ℕ) → same_bytes a a ≡ true
unfolding same_bytes
same_bytes_self [] = refl
same_bytes_self (x ∷ a) = ground (arith, same_bytes_self a)

length-zeros : (a : List ℕ) → length (zeros a) ≡ length a
unfolding zeros
length-zeros [] = refl
length-zeros (x ∷ a) = ap suc (length-zeros a)

length-set : (xs : List ℕ) (i v : ℕ) → length (set xs i v) ≡ length xs
length-set [] i v = refl
length-set (x ∷ xs) zero v = refl
length-set (x ∷ xs) (suc i) v = ap suc (length-set xs i v)

length-length_block :
    (delta tmp : List ℕ) (r : ℕ)
    → length delta ≡ 16
    → length tmp ≡ 16
    → length (length_block delta tmp r) ≡ 16
unfolding length_block
length-length_block delta tmp r hd ht =
    let num = r * 8 in
    let b1 = set (zeros tmp) 14 (num / 256 % 256) in
    let b2 = set b1 15 (num % 256) in
    let n : length b2 ≡ 16 =
      length-set b1 15 (num % 256)
      ∙ length-set (zeros tmp) 14 (num / 256 % 256)
      ∙ length-zeros tmp
      ∙ ht in
    rw (xor-zip b2 b2 delta n n hd) (length-zip_xor b2 delta (n ∙ sym hd) ∙ n)

module _ (c : Cipher) where
  abbrev last_pad : List ℕ → List ℕ → List ℕ → List ℕ
  last_pad delta tmp src = c.encrypt (length_block (times2 delta) tmp (length src))

  abbrev last_full : List ℕ → List ℕ → List ℕ → List ℕ
  last_full delta tmp src = src ++ drop (length src) (last_pad delta tmp src)

  abbrev last_tag : List ℕ → List ℕ → List ℕ → List ℕ → List ℕ
  last_tag delta checksum tmp src =
      c.encrypt (zip_xor (times3 (times2 delta)) (zip_xor checksum (last_full delta tmp src)))

  module _ (delta checksum tmp src : List ℕ) (hd : IsBlock delta) (hc : length checksum ≡ 16)
      (ht : length tmp ≡ 16) (hs : length src ≤ 16)
      (hp : length (last_pad delta tmp src) ≡ 16) where
    length-full : length (last_full delta tmp src) ≡ 16
    length-full = length-filled src (last_pad delta tmp src) hs hp

    tag_block_lem :
        (t : List ℕ)
        → length t ≡ 16
        → tag_block c (times2 delta) (xor checksum checksum (last_full delta tmp src)) t
          ≡ last_tag delta checksum tmp src
    unfolding tag_block
    tag_block_lem t h = rw (xor-zip checksum checksum (last_full delta tmp src) hc hc length-full) (
        ap c.encrypt (
          xor-zip t _ _ h (times3-IsBlock (times2 delta) (times2-IsBlock delta hd)).0
            (length-zip_xor checksum (last_full delta tmp src) (hc ∙ sym length-full) ∙ hc)))

    encrypt_filled :
        pad_rest
          (copy (length_block (times2 delta) tmp (length src)) src)
          (last_pad delta tmp src)
          (length src)
        ≡ last_full delta tmp src
    encrypt_filled =
        let lb = length_block (times2 delta) tmp (length src) in
        let n : length lb ≡ 16 =
          length-length_block (times2 delta) tmp (length src) (times2-IsBlock delta hd).0 ht in
        let e : copy lb src ≡ src ++ drop (length src) lb = copy-append lb src (omega arith) in
        rw e (
          pad_rest_filled src (drop (length src) lb) (last_pad delta tmp src)
            (length-filled src lb hs n) hp)

    encrypt_last_lem :
        (dst : List ℕ)
        → encrypt_last c delta checksum tmp dst src
          ≡ (copy dst (zip_xor (last_pad delta tmp src) src), last_tag delta checksum tmp src)
    unfolding encrypt_last
    encrypt_last_lem dst =
        let pad = last_pad delta tmp src in
        let full = last_full delta tmp src in
        let e : xor full pad full ≡ zip_xor pad full =
          xor-zip full pad full length-full hp length-full in
        rw (
          encrypt_filled,
          e,
          take-zip_xor pad src (drop (length src) pad) (omega arith),
          tag_block_lem (zip_xor pad full) (length-zip_xor pad full (hp ∙ sym length-full) ∙ hp),
        )

    decrypt_filled :
        (ct : List ℕ)
        → ct ≡ zip_xor (last_pad delta tmp src) src
        → pad_rest
            (xor (length_block (times2 delta) tmp (length src)) ct (last_pad delta tmp src))
            (last_pad delta tmp src)
            (length src)
          ≡ last_full delta tmp src
    unfolding xor
    decrypt_filled ct e =
        let lb = length_block (times2 delta) tmp (length src) in
        let pad = last_pad delta tmp src in
        let n : length lb ≡ 16 =
          length-length_block (times2 delta) tmp (length src) (times2-IsBlock delta hd).0 ht in
        let m : length (zip_xor pad src) ≡ length src =
          length-zip_xor_short pad src (omega arith) in
        let x : xor_loop 16 lb (zip_xor pad src) pad ≡ src ++ drop (length src) lb =
          xor_loop-prefix 16 lb (zip_xor pad src) pad (omega arith) (omega arith) (omega arith)
          ∙ rw (zip_xor_back pad src (omega arith), m) in
        rw (e, x) (pad_rest_filled src (drop (length src) lb) pad (length-filled src lb hs n) hp)

    decrypt_last_lem :
        (dst ct : List ℕ)
        → ct ≡ zip_xor (last_pad delta tmp src) src
        → length dst ≡ length src
        → decrypt_last c delta checksum tmp dst ct ≡ (src, last_tag delta checksum tmp src)
    unfolding decrypt_last
    decrypt_last_lem dst ct e h =
        let pad = last_pad delta tmp src in
        let l : length ct ≡ length src = ap length e ∙ length-zip_xor_short pad src (omega arith) in
        rw (
          l,
          decrypt_filled ct e,
          take-append_length src (drop (length src) pad),
          copy_whole dst src (sym h),
          tag_block_lem (last_full delta tmp src) length-full,
        )

  bytes-set : (xs : List ℕ) (i v : ℕ) → IsByte v → All IsByte xs → All IsByte (set xs i v)
  bytes-set [] i v h p = tt
  bytes-set (x ∷ xs) zero v h p = (h, p.1)
  bytes-set (x ∷ xs) (suc i) v h p = (p.0, bytes-set xs i v h p.1)

  bytes-zeros : (xs : List ℕ) → All IsByte (zeros xs)
  unfolding zeros
  bytes-zeros [] = tt
  bytes-zeros (x ∷ xs) = (omega arith, bytes-zeros xs)

  length_block-IsBlock :
      (delta tmp : List ℕ) (r : ℕ)
      → IsBlock delta
      → length tmp ≡ 16
      → IsBlock (length_block delta tmp r)
  unfolding length_block
  length_block-IsBlock delta tmp r hd ht =
      let num = r * 8 in
      let b1 = set (zeros tmp) 14 (num / 256 % 256) in
      let b2 = set b1 15 (num % 256) in
      let n : length b2 ≡ 16 =
        length-set b1 15 (num % 256)
        ∙ length-set (zeros tmp) 14 (num / 256 % 256)
        ∙ length-zeros tmp
        ∙ ht in
      let bytes : All IsByte b2 =
        bytes-set b1 15 (num % 256) (omega arith)
          (bytes-set (zeros tmp) 14 (num / 256 % 256) (omega arith) (bytes-zeros tmp)) in
      rw (xor-zip b2 b2 delta n n hd.0) (zip_xor-IsBlock b2 delta (n, bytes) hd)

  length-last_pad :
      (delta tmp src : List ℕ)
      → IsBlock delta
      → length tmp ≡ 16
      → length (last_pad delta tmp src) ≡ 16
  length-last_pad delta tmp src hd ht =
      (c.encrypt-IsBlock _
        (length_block-IsBlock (times2 delta) tmp (length src) (times2-IsBlock delta hd) ht)).0

  last_tag_same :
      (delta checksum tmp tmp' src : List ℕ)
      → length tmp ≡ length tmp'
      → (last_pad delta tmp src ≡ last_pad delta tmp' src)
        × (last_tag delta checksum tmp src ≡ last_tag delta checksum tmp' src)
  last_tag_same delta checksum tmp tmp' src h =
      let e = length_block_same (times2 delta) tmp tmp' (length src) h in
      (
        ap c.encrypt e,
        ap
            (λ b. c.encrypt (
              zip_xor (times3 (times2 delta))
                (zip_xor checksum (src ++ drop (length src) (c.encrypt b)))))
            e,
      )

  -- The last block: what `Encrypt` wrote is read back, and both compute one tag.
  pub last_round_trip :
      (delta checksum tmp tmp' dst dst' src : List ℕ)
      → IsBlock delta
      → length checksum ≡ 16
      → length tmp ≡ 16
      → length tmp' ≡ 16
      → length src ≤ 16
      → length src ≤ length dst
      → length dst' ≡ length src
      → decrypt_last c delta checksum tmp' dst'
          (take (length src) (encrypt_last c delta checksum tmp dst src).0)
        ≡ (src, (encrypt_last c delta checksum tmp dst src).1)
  last_round_trip delta checksum tmp tmp' dst dst' src hd hc ht ht' hs hdst hdst' =
      let pad = last_pad delta tmp src in
      let ct = zip_xor pad src in
      let hp = length-last_pad delta tmp src hd ht in
      let hp' = length-last_pad delta tmp' src hd ht' in
      let m : length ct ≡ length src = length-zip_xor_short pad src (omega arith) in
      let same = last_tag_same delta checksum tmp tmp' src (ht ∙ sym ht') in
      let cut : take (length src) (copy dst ct) ≡ ct =
        ap (take (length src)) (copy-append dst ct (omega arith))
        ∙ rw (← m) (take-append_length ct (drop (length ct) dst)) in
      let e : ct ≡ zip_xor (last_pad delta tmp' src) src = ap (λ p. zip_xor p src) same.0 in
      rw (encrypt_last_lem delta checksum tmp src hd hc ht hs hp dst, cut)
        (decrypt_last_lem delta checksum tmp' src hd hc ht' hs hp' dst' ct e hdst'
          ∙ rw (sym same.1))

  -- The tag of the last block is a block.
  pub length-last_tag :
      (delta checksum tmp dst src : List ℕ)
      → IsBlock delta
      → IsBlock checksum
      → length tmp ≡ 16
      → length src ≤ 16
      → All IsByte src
      → length (encrypt_last c delta checksum tmp dst src).1 ≡ 16
  length-last_tag delta checksum tmp dst src hd hc ht hs hb =
      let lb = length_block-IsBlock (times2 delta) tmp (length src) (times2-IsBlock delta hd) ht in
      let pad = c.encrypt-IsBlock _ lb in
      let full : IsBlock (last_full delta tmp src) = (
        length-filled src (last_pad delta tmp src) hs pad.0,
        All-append IsByte src _ hb (All-drop IsByte (length src) _ pad.1),
      ) in
      rw (encrypt_last_lem delta checksum tmp src hd hc.0 ht hs pad.0 dst)
        (c.encrypt-IsBlock _ (
          zip_xor-IsBlock _ _ (times3-IsBlock _ (times2-IsBlock delta hd))
            (zip_xor-IsBlock checksum _ hc full))).0
