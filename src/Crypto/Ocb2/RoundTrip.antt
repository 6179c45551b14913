-- ===== src/Crypto/Ocb2/RoundTrip.antt =====
-- `Decrypt` undoes `Encrypt`.
use go_mumble_server.Base.{
  ℕ, zero, suc, ◌+◌, ◌<◌, ◌≤◌, ◌≡◌, refl, sym, ◌∙◌, true, false, List, ◌++◌, length, take, drop,
  All, arith, length-append, length-take, length-drop, ltb, take-append-drop, inl, inr, Bool-cases,
  lt→ltb, ltb→lt, take_front, drop_front, take_past, All-take, All-drop,
}
use go_mumble_server.Crypto.Block.{
  Cipher, IsBlock, IsByte, xor, zip_xor, xor-zip, times2, zip_xor_self, zip_xor-IsBlock,
  length-zip_xor, times2-IsBlock,
}
use go_mumble_server.Crypto.Ocb2.{
  encrypt_last, encrypt_loop, decrypt_loop, encrypt, decrypt, zero_block,
}
use go_mumble_server.Crypto.Ocb2.LastBlock.{
  last_round_trip, length-last_tag, length-copy, copy_whole, same_bytes_self,
}

module _ (c : Cipher) (delta tmp block : List ℕ) (hd : IsBlock delta) (ht : length tmp ≡ 16)
    (hb : IsBlock block) where
  -- The block that `Encrypt` hands to the cipher, and what it writes.
  abbrev mixed : List ℕ
  mixed = zip_xor (times2 delta) block

  mixed-IsBlock : IsBlock mixed
  mixed-IsBlock = zip_xor-IsBlock (times2 delta) block (times2-IsBlock delta hd) hb

  xor-mixed : xor tmp (times2 delta) block ≡ mixed
  xor-mixed = xor-zip tmp (times2 delta) block ht (times2-IsBlock delta hd).0 hb.0

  abbrev written : List ℕ
  written = zip_xor (times2 delta) (c.encrypt mixed)

  length-written : length written ≡ 16
  length-written =
      (zip_xor-IsBlock (times2 delta) (c.encrypt mixed) (times2-IsBlock delta hd)
        (c.encrypt-IsBlock mixed mixed-IsBlock)).0

  xor-written :
      (dst : List ℕ) → length dst ≡ 16 → xor dst (times2 delta) (c.encrypt mixed) ≡ written
  xor-written dst h =
      xor-zip dst (times2 delta) (c.encrypt mixed) h (times2-IsBlock delta hd).0
        (c.encrypt-IsBlock mixed mixed-IsBlock).0

  -- The cipher of `Decrypt` gives the mixed block back, and mixing again gives the message.
  unmixed : (t : List ℕ) → length t ≡ 16 → c.decrypt (xor t (times2 delta) written) ≡ mixed
  unmixed t h =
      rw
        (
          xor-zip t (times2 delta) written h (times2-IsBlock delta hd).0 length-written,
          zip_xor_self (times2 delta) (c.encrypt mixed)
              ((times2-IsBlock delta hd).0 ∙ sym (c.encrypt-IsBlock mixed mixed-IsBlock).0),
        )
        (c.decrypt-encrypt mixed mixed-IsBlock)

  read_back : (dst : List ℕ) → length dst ≡ 16 → xor dst (times2 delta) mixed ≡ block
  read_back dst h =
      xor-zip dst (times2 delta) mixed h (times2-IsBlock delta hd).0 mixed-IsBlock.0
      ∙ zip_xor_self (times2 delta) block ((times2-IsBlock delta hd).0 ∙ sym hb.0)

module _ (c : Cipher) (fuel : ℕ) (delta checksum tmp src : List ℕ) (hd : IsBlock delta)
    (hc : length checksum ≡ 16) (ht : length tmp ≡ 16) (hs : All IsByte src)
    (more : 16 < length src) where
  abbrev block : List ℕ
  block = take 16 src

  block-IsBlock : IsBlock block
  block-IsBlock = (omega (arith, length-take 16 src), All-take IsByte 16 src hs)

  sum_of_block : xor checksum checksum block ≡ zip_xor checksum block
  sum_of_block = xor-zip checksum checksum block hc hc block-IsBlock.0

  abbrev sealed_block : List ℕ
  sealed_block = written c delta tmp block hd ht block-IsBlock

  abbrev encrypt_more : List ℕ → List ℕ × List ℕ
  encrypt_more dst =
      encrypt_loop fuel c (times2 delta) (zip_xor checksum block)
        (c.encrypt (mixed c delta tmp block hd ht block-IsBlock)) (drop 16 dst) (drop 16 src)

  abbrev decrypt_more : List ℕ → List ℕ → List ℕ × List ℕ
  decrypt_more dst ct =
      decrypt_loop fuel c (times2 delta) (zip_xor checksum block)
        (mixed c delta tmp block hd ht block-IsBlock) (drop 16 dst) (drop 16 ct)

  encrypt_step :
      (dst : List ℕ)
      → length src ≤ length dst
      → encrypt_loop (suc fuel) c delta checksum tmp dst src
        ≡ (sealed_block ++ (encrypt_more dst).0, (encrypt_more dst).1)
  unfolding encrypt_loop
  encrypt_step dst h =
      let n : length (take 16 dst) ≡ 16 = omega (arith, length-take 16 dst) in
      rw (
        lt→ltb 16 (length src) more,
        xor-mixed c delta tmp block hd ht block-IsBlock,
        xor-written c delta tmp block hd ht block-IsBlock (take 16 dst) n,
        sum_of_block,
      )

  decrypt_step :
      (tmp' dst ct : List ℕ)
      → length tmp' ≡ 16
      → take 16 ct ≡ sealed_block
      → length ct ≡ length src
      → length dst ≡ length src
      → decrypt_loop (suc fuel) c delta checksum tmp' dst ct
        ≡ (block ++ (decrypt_more dst ct).0, (decrypt_more dst ct).1)
  unfolding decrypt_loop
  decrypt_step tmp' dst ct ht' e l h =
      let n : length (take 16 dst) ≡ 16 = omega (arith, length-take 16 dst) in
      rw (
        l,
        lt→ltb 16 (length src) more,
        e,
        unmixed c delta tmp block hd ht block-IsBlock tmp' ht',
        read_back c delta tmp block hd ht block-IsBlock (take 16 dst) n,
        sum_of_block,
      )

length-encrypt_last :
    (c : Cipher) (delta checksum tmp dst src : List ℕ)
    → length (encrypt_last c delta checksum tmp dst src).0 ≡ length dst
unfolding encrypt_last
length-encrypt_last c delta checksum tmp dst src = length-copy dst _

leb_of : (src : List ℕ) → ltb 16 (length src) ≡ false → length src ≤ 16
leb_of src h = ground arith

module _ (c : Cipher) where
  length-encrypt_loop :
      (fuel : ℕ) (delta checksum tmp dst src : List ℕ)
      → IsBlock delta
      → length checksum ≡ 16
      → length tmp ≡ 16
      → All IsByte src
      → length src ≤ fuel
      → length src ≤ length dst
      → length (encrypt_loop fuel c delta checksum tmp dst src).0 ≡ length dst
  length-encrypt_loop zero delta checksum tmp dst src hd hc ht hs hf h =
      unfold encrypt_loop encrypt_last in length-copy dst _
  length-encrypt_loop (suc fuel) delta checksum tmp dst src hd hc ht hs hf h =
      elim (Bool-cases (ltb 16 (length src))) [
        | inl more ↦
            let m : 16 < length src = ltb→lt 16 (length src) more in
            let hb = block-IsBlock c fuel delta checksum tmp src hd hc ht hs m in
            let hm = mixed-IsBlock c delta tmp (take 16 src) hd ht hb in
            rw (encrypt_step c fuel delta checksum tmp src hd hc ht hs m dst h) (
              omega (
                arith,
                length-append (written c delta tmp (take 16 src) hd ht hb)
                    (encrypt_more c fuel delta checksum tmp src hd hc ht hs m dst).0,
                length-written c delta tmp (take 16 src) hd ht hb,
                length-drop 16 dst,
                length-drop 16 src,
                length-encrypt_loop fuel (times2 delta) (zip_xor checksum (take 16 src))
                    (c.encrypt (mixed c delta tmp (take 16 src) hd ht hb)) (drop 16 dst)
                    (drop 16 src) (times2-IsBlock delta hd)
                    (length-zip_xor checksum (take 16 src) (hc ∙ sym hb.0) ∙ hc)
                    (c.encrypt-IsBlock _ hm).0 (All-drop IsByte 16 src hs)
                    (omega (arith, length-drop 16 src))
                    (omega (arith, length-drop 16 src, length-drop 16 dst)),
              ))
        | inr done ↦ unfold encrypt_loop in rw done (unfold encrypt_last in length-copy dst _)
      ]

  loop_round_trip :
      (fuel : ℕ) (delta checksum tmp tmp' dst dst' src : List ℕ)
      → IsBlock delta
      → length checksum ≡ 16
      → length tmp ≡ 16
      → length tmp' ≡ 16
      → All IsByte src
      → length src ≤ fuel
      → length src ≤ length dst
      → length dst' ≡ length src
      → decrypt_loop fuel c delta checksum tmp' dst'
          (take (length src) (encrypt_loop fuel c delta checksum tmp dst src).0)
        ≡ (src, (encrypt_loop fuel c delta checksum tmp dst src).1)
  loop_round_trip zero delta checksum tmp tmp' dst dst' src hd hc ht ht' hs hf h h' =
      unfold encrypt_loop decrypt_loop in
      last_round_trip c delta checksum tmp tmp' dst dst' src hd hc ht ht' (omega arith) h h'
  loop_round_trip (suc fuel) delta checksum tmp tmp' dst dst' src hd hc ht ht' hs hf h h' =
      elim (Bool-cases (ltb 16 (length src))) [
        | inl more ↦
            let m : 16 < length src = ltb→lt 16 (length src) more in
            let hb = block-IsBlock c fuel delta checksum tmp src hd hc ht hs m in
            let hm = mixed-IsBlock c delta tmp (take 16 src) hd ht hb in
            let w = written c delta tmp (take 16 src) hd ht hb in
            let lw = length-written c delta tmp (take 16 src) hd ht hb in
            let more_bytes = encrypt_more c fuel delta checksum tmp src hd hc ht hs m dst in
            let ls : length src ≡ 16 + length (drop 16 src) = omega (arith, length-drop 16 src) in
            let hc' = length-zip_xor checksum (take 16 src) (hc ∙ sym hb.0) ∙ hc in
            let lr : length more_bytes.0 ≡ length (drop 16 dst) =
              length-encrypt_loop fuel (times2 delta) (zip_xor checksum (take 16 src))
                (c.encrypt (mixed c delta tmp (take 16 src) hd ht hb)) (drop 16 dst) (drop 16 src)
                (times2-IsBlock delta hd) hc' (c.encrypt-IsBlock _ hm).0 (All-drop IsByte 16 src hs)
                (omega arith) (omega (arith, length-drop 16 dst)) in
            let ct = w ++ take (length (drop 16 src)) more_bytes.0 in
            let cut : take (length src) (w ++ more_bytes.0) ≡ ct =
              take_past (length src) 16 (length (drop 16 src)) w more_bytes.0 lw ls in
            let lct : length ct ≡ length src = omega (
              arith,
              length-append w (take (length (drop 16 src)) more_bytes.0),
              length-take (length (drop 16 src)) more_bytes.0,
              length-drop 16 dst,
            ) in
            let front = take_front 16 w (take (length (drop 16 src)) more_bytes.0) lw in
            let back = drop_front 16 w (take (length (drop 16 src)) more_bytes.0) lw in
            rw (
              encrypt_step c fuel delta checksum tmp src hd hc ht hs m dst h,
              cut,
              decrypt_step c fuel delta checksum tmp src hd hc ht hs m tmp' dst' ct ht' front lct
                  h',
              back,
              loop_round_trip fuel (times2 delta) (zip_xor checksum (take 16 src))
                  (c.encrypt (mixed c delta tmp (take 16 src) hd ht hb))
                  (mixed c delta tmp (take 16 src) hd ht hb) (drop 16 dst) (drop 16 dst')
                  (drop 16 src) (times2-IsBlock delta hd) hc' (c.encrypt-IsBlock _ hm).0 hm.0
                  (All-drop IsByte 16 src hs) (omega arith) (omega (arith, length-drop 16 dst))
                  (omega (arith, length-drop 16 dst')),
              take-append-drop 16 src,
            )
        | inr done ↦
            let l : length (take (length src) (encrypt_last c delta checksum tmp dst src).0)
                ≡ length src =
              omega (
                arith,
                length-take (length src) (encrypt_last c delta checksum tmp dst src).0,
                length-encrypt_last c delta checksum tmp dst src,
              ) in
            unfold encrypt_loop decrypt_loop in
            rw (done, l, done)
              (last_round_trip c delta checksum tmp tmp' dst dst' src hd hc ht ht' (leb_of src done)
                h h')
      ]

  length-loop_tag :
      (fuel : ℕ) (delta checksum tmp dst src : List ℕ)
      → IsBlock delta
      → IsBlock checksum
      → length tmp ≡ 16
      → All IsByte src
      → length src ≤ fuel
      → length src ≤ length dst
      → length (encrypt_loop fuel c delta checksum tmp dst src).1 ≡ 16
  length-loop_tag zero delta checksum tmp dst src hd hc ht hs hf h =
      unfold encrypt_loop in length-last_tag c delta checksum tmp dst src hd hc ht (omega arith) hs
  length-loop_tag (suc fuel) delta checksum tmp dst src hd hc ht hs hf h =
      elim (Bool-cases (ltb 16 (length src))) [
        | inl more ↦
            let m : 16 < length src = ltb→lt 16 (length src) more in
            let hb = block-IsBlock c fuel delta checksum tmp src hd hc.0 ht hs m in
            let hm = mixed-IsBlock c delta tmp (take 16 src) hd ht hb in
            rw (encrypt_step c fuel delta checksum tmp src hd hc.0 ht hs m dst h) (
              length-loop_tag fuel (times2 delta) (zip_xor checksum (take 16 src))
                (c.encrypt (mixed c delta tmp (take 16 src) hd ht hb)) (drop 16 dst) (drop 16 src)
                (times2-IsBlock delta hd) (zip_xor-IsBlock checksum (take 16 src) hc hb)
                (c.encrypt-IsBlock _ hm).0 (All-drop IsByte 16 src hs)
                (omega (arith, length-drop 16 src))
                (omega (arith, length-drop 16 src, length-drop 16 dst)))
        | inr done ↦
            unfold encrypt_loop in
            rw done (length-last_tag c delta checksum tmp dst src hd hc ht (leb_of src done) hs)
      ]

  -- The tag that `Encrypt` hands out: the first bytes of the tag block.
  encrypt_tag :
      (dst src nonce tag : List ℕ)
      → IsBlock nonce
      → All IsByte src
      → length src ≤ length dst
      → length tag ≤ 16
      → (encrypt c dst src nonce tag (length tag)).1
        ≡ take
            (length tag)
            (encrypt_loop (length src) c (c.encrypt nonce) zero_block zero_block dst src).1
  unfolding encrypt
  encrypt_tag dst src nonce tag hn hs h ht =
      let r = encrypt_loop (length src) c (c.encrypt nonce) zero_block zero_block dst src in
      copy_whole tag (take (length tag) r.1) (
        omega (
          arith,
          length-take (length tag) r.1,
          length-loop_tag (length src) (c.encrypt nonce) zero_block zero_block dst src
              (c.encrypt-IsBlock nonce hn) (refl, omega arith) refl hs (omega arith) h,
        ))

  encrypt_dst :
      (dst src nonce tag : List ℕ)
      → (encrypt c dst src nonce tag (length tag)).0
        ≡ (encrypt_loop (length src) c (c.encrypt nonce) zero_block zero_block dst src).0
  unfolding encrypt
  encrypt_dst dst src nonce tag = refl

  -- `Decrypt` on what `Encrypt` wrote, with the same nonce and the tag, which may be cut to up to
  -- 16 bytes, gives the message back and accepts the tag.
  pub decrypt-encrypt :
      (dst dst' src nonce tag : List ℕ)
      → IsBlock nonce
      → All IsByte src
      → length src ≤ length dst
      → length dst' ≡ length src
      → length tag ≤ 16
      → let sealed = encrypt c dst src nonce tag (length tag) in
        decrypt c dst' (take (length src) sealed.0) nonce sealed.1 ≡ (src, true)
  unfolding decrypt
  decrypt-encrypt dst dst' src nonce tag hn hs h h' ht =
      let r = encrypt_loop (length src) c (c.encrypt nonce) zero_block zero_block dst src in
      let delta = c.encrypt-IsBlock nonce hn in
      let lr : length r.0 ≡ length dst =
        length-encrypt_loop (length src) (c.encrypt nonce) zero_block zero_block dst src delta refl
          refl hs (omega arith) h in
      let l : length (take (length src) r.0) ≡ length src =
        omega (arith, length-take (length src) r.0) in
      let lt : length (take (length tag) r.1) ≡ length tag = omega (
        arith,
        length-take (length tag) r.1,
        length-loop_tag (length src) (c.encrypt nonce) zero_block zero_block dst src delta
            (refl, omega arith) refl hs (omega arith) h,
      ) in
      let small : ltb 16 (length tag) ≡ false = ground arith in
      rw (
        encrypt_tag dst src nonce tag hn hs h ht,
        encrypt_dst dst src nonce tag,
        lt,
        small,
        l,
        loop_round_trip (length src) (c.encrypt nonce) zero_block zero_block zero_block dst dst' src
            delta refl refl refl hs (omega arith) h h',
        same_bytes_self (take (length tag) r.1),
      )

  pub length-encrypt :
      (dst src nonce tag : List ℕ) (n : ℕ)
      → IsBlock nonce
      → All IsByte src
      → length src ≤ length dst
      → (length (encrypt c dst src nonce tag n).0 ≡ length dst)
        × (length (encrypt c dst src nonce tag n).1 ≡ length tag)
  unfolding encrypt
  length-encrypt dst src nonce tag n hn hs h = (
    length-encrypt_loop (length src) (c.encrypt nonce) zero_block zero_block dst src
        (c.encrypt-IsBlock nonce hn) refl refl hs (omega arith) h,
    length-copy tag _,
  )
