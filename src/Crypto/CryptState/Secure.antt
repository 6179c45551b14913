-- ===== src/Crypto/CryptState/Secure.antt =====
-- The secure mode: AES-256-GCM with a 64-bit counter and a window for late packets.
use go_mumble_server.Base.{
  ℕ, zero, suc, ◌+◌, ◌-◌, ◌^◌, ◌<◌, ◌≤◌, ◌≡◌, refl, sym, ap, ap₂, ◌∙◌, true, false, none, some,
  List, ◌++◌, length, drop, ltb, leb, ◌==◌, if◌then◌else◌, arith, length-append, length-drop,
  take_front, drop_front, bit_and,
}
use go_mumble_server.Crypto.Block.{copy}
use go_mumble_server.Crypto.Ocb2.LastBlock.{copy_whole, copy-append}
use go_mumble_server.Crypto.CryptState.{
  CryptState, write_packet, counter_nonce, encrypt_secure_with, Aead, encrypt_secure,
  decrypt_secure, decrypt_secure_with, track_then_open, track_secure, open_secure, deliver,
  big_endian, from_big_endian, packet_counter, u64, zeros_of, newest_state, late_byte, late_mask,
  late_state,
}

-- The counter of a packet is what its sender wrote.
from_big_endian-big_endian : (v : ℕ) → v < 2 ^ 64 → from_big_endian (big_endian 8 v) 0 ≡ v
unfolding from_big_endian big_endian
from_big_endian-big_endian v h = omega arith

length-big_endian : (n v : ℕ) → length (big_endian n v) ≡ n
unfolding big_endian
length-big_endian zero v = refl
length-big_endian (suc n) v = ap suc (length-big_endian n v)

write_packet_lem :
    (dst nonce text : List ℕ)
    → length nonce ≡ 12
    → length dst ≡ 12 + length text
    → write_packet dst nonce text ≡ nonce ++ text
unfolding write_packet
write_packet_lem dst nonce text hn hd =
    let e : copy dst nonce ≡ nonce ++ drop (length nonce) dst =
      copy-append dst nonce (omega arith) in
    rw (
      e,
      take_front 12 nonce (drop (length nonce) dst) hn,
      drop_front 12 nonce (drop (length nonce) dst) hn,
      copy_whole (drop (length nonce) dst) text (omega (arith, length-drop (length nonce) dst)),
    )

-- A packet that is longer than the overhead, with the key set, and a state for its counter.
pub decrypt_secure_tracked :
    (aead : Aead) (c c' : CryptState) (dst src : List ℕ)
    → c.secure_aead ≡ some aead
    → 28 ≤ length src
    → track_secure c (packet_counter src) ≡ some c'
    → decrypt_secure c dst src ≡ open_secure aead c' dst src
unfolding decrypt_secure
decrypt_secure_tracked aead c c' dst src ha h e =
    let l : ltb (length src) 28 ≡ false = ground arith in
    ap (λ o. decrypt_secure_with o c dst src) ha
    ∙ rw l (ap (λ o. track_then_open o aead c dst src) e)

pub track_newest :
    (c : CryptState) (k : ℕ) → c.dec_max < k → track_secure c k ≡ some (newest_state c k)
unfolding track_secure
track_newest c k h = let e : leb k c.dec_max ≡ false = ground arith in rw e

pub track_late :
    (c : CryptState) (k : ℕ)
    → k ≤ c.dec_max
    → c.dec_max < k + 64
    → track_secure c k
      ≡ (if bit_and (late_byte c k) (late_mask c k) == 0 then some (late_state c k) else none)
unfolding track_secure
track_late c k h h' =
    let e : leb k c.dec_max ≡ true = ground arith in
    let e' : leb 64 (c.dec_max - k) ≡ false = ground arith in rw (e, e')

pub track_old : (c : CryptState) (k : ℕ) → k + 64 ≤ c.dec_max → track_secure c k ≡ none
unfolding track_secure
track_old c k h =
    let e : leb k c.dec_max ≡ true = ground arith in
    let e' : leb 64 (c.dec_max - k) ≡ true = ground arith in rw (e, e')

length-counter_nonce : (k : ℕ) → length (counter_nonce k) ≡ 12
length-counter_nonce k =
    omega (arith, length-append (zeros_of 4) (big_endian 8 k), length-big_endian 8 k)

packet_counter_lem :
    (k : ℕ) (text : List ℕ) → k < 2 ^ 64 → packet_counter (counter_nonce k ++ text) ≡ k
packet_counter_lem k text h =
    ap (λ l. from_big_endian (drop 4 l) 0)
      (take_front 12 (counter_nonce k) text (length-counter_nonce k))
    ∙ ap (λ l. from_big_endian l 0) (drop_front 4 (zeros_of 4) (big_endian 8 k) refl)
    ∙ from_big_endian-big_endian k h

module _ (aead : Aead) (s : CryptState) (dst src : List ℕ) (hs : s.secure_aead ≡ some aead)
    (room : length dst ≡ length src + 28) where
  abbrev pub counter : ℕ
  counter = u64 (s.enc_counter + 1)

  abbrev pub packet : List ℕ
  packet = counter_nonce counter ++ aead.seal (counter_nonce counter) src

  pub length-packet : length packet ≡ length src + 28
  length-packet = omega (
    arith,
    length-append (counter_nonce counter) (aead.seal (counter_nonce counter) src),
    length-counter_nonce counter,
    aead.length-seal (counter_nonce counter) src,
  )

  pub encrypt_secure_lem :
      encrypt_secure s dst src ≡ (record s { enc_counter = counter }, packet, none)
  unfolding encrypt_secure
  encrypt_secure_lem =
      let e : ltb (length dst) (length src + 28) ≡ false = ground arith in
      let text = aead.seal (counter_nonce counter) src in
      ap (λ o. encrypt_secure_with o s dst src) hs
      ∙ rw (
        e,
        write_packet_lem dst (counter_nonce counter) text (length-counter_nonce counter)
            (omega (arith, aead.length-seal (counter_nonce counter) src)),
      )

  -- A receiver that tracks the counter opens the packet.
  pub open_sealed :
      (r r' : CryptState) (dst' : List ℕ)
      → r.secure_aead ≡ some aead
      → length dst' ≡ length src
      → track_secure r counter ≡ some r'
      → decrypt_secure r dst' packet ≡ (r', src, none)
  unfolding open_secure
  open_sealed r r' dst' hr h e =
      let text = aead.seal (counter_nonce counter) src in
      let n = length-counter_nonce counter in
      let c : u64 (s.enc_counter + 1) < 2 ^ 64 = omega arith in
      let fits : ltb (length dst') (length src) ≡ false = ground arith in
      decrypt_secure_tracked aead r r' dst' packet hr (omega (arith, length-packet))
        (ap (track_secure r) (packet_counter_lem counter text c) ∙ e)
      ∙ ap₂ (λ a b. deliver (aead.unseal a b) r' dst')
          (take_front 12 (counter_nonce counter) text n)
          (drop_front 12 (counter_nonce counter) text n)
      ∙ ap (λ o. deliver o r' dst') (aead.unseal-seal (counter_nonce counter) src)
      ∙ rw (fits, copy_whole dst' src (sym h))
