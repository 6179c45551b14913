-- ===== src/Crypto/CryptState/Legacy.antt =====
-- The legacy mode: a receiver that missed packets follows the sender's nonce.
use go_mumble_server.Base.{
  ℕ, zero, suc, ◌+◌, ◌-◌, ◌%◌, ◌<◌, ◌≡◌, refl, sym, ap, ap₂, ◌∙◌, true, false, none, some, List, [],
  ◌∷◌, ◌++◌, length, take, drop, set, get_or, ltb, ◌==◌, if◌then◌else◌, All, arith, Option,
  Bool-cases, inl, inr, length-append, length-take, length-drop, take_front, drop_front, take_all,
}
use go_mumble_server.Base.Int.{pos, sub_ℕ}
use go_mumble_server.Crypto.Block.{Cipher, IsBlock, IsByte}
use go_mumble_server.Crypto.Ocb2
use go_mumble_server.Crypto.Ocb2.RoundTrip.{decrypt-encrypt, length-encrypt}
use go_mumble_server.Crypto.CryptState.Replay.{decrypt_legacy-arrives}
use go_mumble_server.Crypto.CryptState.{
  CryptState, Arrival, bump, encrypt_legacy, decrypt_legacy, arrival, wrap_diff, move_nonce,
  arrive_legacy, u32, CryptError,
}

-- The nonce after `k` packets.
abbrev pub bumps : ℕ → List ℕ → List ℕ
bumps zero nonce = nonce
bumps (suc k) nonce = bump (bumps k nonce)

length-bump : (xs : List ℕ) → length (bump xs) ≡ length xs
unfolding bump
length-bump [] = refl
length-bump (x ∷ xs) = ground (arith, length-bump xs)

bytes-bump : (xs : List ℕ) → All IsByte xs → All IsByte (bump xs)
unfolding bump
bytes-bump [] h = tt
bytes-bump (x ∷ xs) h = ground (arith, bytes-bump xs h.1)

pub bumps-IsBlock : (k : ℕ) (xs : List ℕ) → IsBlock xs → IsBlock (bumps k xs)
bumps-IsBlock zero xs h = h
bumps-IsBlock (suc k) xs h =
    let r = bumps-IsBlock k xs h in (length-bump (bumps k xs) ∙ r.0, bytes-bump (bumps k xs) r.1)

-- Fewer than 256 packets change the first byte by their number, and the rest once at most.
bumps_lem :
    (k x : ℕ) (xs : List ℕ)
    → x < 256
    → k < 256
    → bumps k (x ∷ xs) ≡ ((x + k) % 256) ∷ (if ltb (x + k) 256 then xs else bump xs)
bumps_lem zero x xs hx h = ground arith
bumps_lem (suc k) x xs hx h = rw (bumps_lem k x xs hx (omega arith)) (unfold bump in ground arith)

-- The receiver's rule agrees with the sender's counter for up to 127 packets.
move_nonce-bumps :
    (k x : ℕ) (xs : List ℕ)
    → x < 256
    → k < 255
    → move_nonce (x ∷ xs) ((x + suc k) % 256) ≡ bumps (suc k) (x ∷ xs)
unfolding move_nonce
move_nonce-bumps k x xs hx h = rw (bumps_lem (suc k) x xs hx (omega arith)) (ground arith)

wrap_diff_ahead :
    (k x : ℕ) → x < 256 → k < 127 → wrap_diff (sub_ℕ ((x + suc k) % 256) x) ≡ pos (suc k)
wrap_diff_ahead k x hx h = ground arith

arrival_ahead :
    (k x : ℕ)
    → x < 256
    → k < 127
    → arrival (wrap_diff (sub_ℕ ((x + suc k) % 256) x)) ≡ Arrival.ahead k
unfolding arrival
arrival_ahead k x hx h = rw (wrap_diff_ahead k x hx h)

-- The first byte of the nonce of the packet after `k` lost ones.
head_bumps :
    (k x : ℕ) (xs : List ℕ)
    → x < 256
    → k < 255
    → get_or (bumps (suc k) (x ∷ xs)) 0 0 ≡ (x + suc k) % 256
head_bumps k x xs hx h = rw (bumps_lem (suc k) x xs hx (omega arith))

module _ (block : Cipher) (s r : CryptState) (dst dst' src : List ℕ)
    (hs : s.legacy_block ≡ some block) (hr : r.legacy_block ≡ some block) (bytes : All IsByte src)
    (room : length dst ≡ length src + 4) (room' : length dst' ≡ length src) where
  abbrev nonce : List ℕ
  nonce = bump s.enc_nonce

  abbrev sealed : List ℕ × List ℕ
  sealed = Ocb2.encrypt block (drop 4 dst) src nonce (take 3 (drop 1 dst)) 3

  abbrev packet : List ℕ
  packet = get_or nonce 0 0 ∷ (sealed.1 ++ sealed.0)

  encrypt_legacy_lem : encrypt_legacy s dst src ≡ (record s { enc_nonce = nonce }, packet, none)
  unfolding encrypt_legacy
  encrypt_legacy_lem =
      let e : ltb (length dst) (length src + 4) ≡ false = ground arith in rw (hs, e)

  module _ (hn : IsBlock nonce) where
    sealed_lengths : (length sealed.0 ≡ length src) × (length sealed.1 ≡ 3)
    sealed_lengths =
        let l =
          length-encrypt block (drop 4 dst) src nonce (take 3 (drop 1 dst)) 3 hn bytes
            (omega (arith, length-drop 4 dst)) in
        (
          omega (arith, l.0, length-drop 4 dst),
          omega (arith, l.1, length-take 3 (drop 1 dst), length-drop 1 dst),
        )

    packet_parts :
        (take 3 (drop 1 packet) ≡ sealed.1)
        × (drop 4 packet ≡ sealed.0)
        × (length packet ≡ length src + 4)
    packet_parts = (
      take_front 3 sealed.1 sealed.0 sealed_lengths.1,
      drop_front 3 sealed.1 sealed.0 sealed_lengths.1,
      omega (arith, length-append sealed.1 sealed.0, sealed_lengths.0, sealed_lengths.1),
    )

    -- The cipher text opens under the nonce that it was sealed with.
    opened : Ocb2.decrypt block dst' sealed.0 nonce sealed.1 ≡ (src, true)
    opened =
        let tag = take 3 (drop 1 dst) in
        let lt : length tag ≡ 3 = omega (arith, length-take 3 (drop 1 dst), length-drop 1 dst) in
        let e =
          decrypt-encrypt block (drop 4 dst) dst' src nonce tag hn bytes
            (omega (arith, length-drop 4 dst)) room' (omega arith) in
        let e' = rw lt at e in rw (take_all (length src) sealed.0 sealed_lengths.0) at e'

  -- What the receiver makes of the packet that follows `k` lost ones.
  abbrev received : ℕ → CryptState × List ℕ × Option CryptError
  received k =
      let lost = if k == 0 then r.lost else u32 (r.lost + k) in
      if get_or r.dec_history (get_or nonce 0 0) 0 == get_or nonce 1 0
      then (record r { lost = lost }, dst', some CryptError.replay_detected)
      else (
        record r {
          dec_nonce = nonce;
          dec_history = set r.dec_history (get_or nonce 0 0) (get_or nonce 1 0);
          lost = lost;
          good = u32 (r.good + 1);
        },
        src,
        none,
      )

  ahead_opens :
      (k : ℕ)
      → IsBlock nonce
      → move_nonce r.dec_nonce (get_or nonce 0 0) ≡ nonce
      → arrive_legacy block r (Arrival.ahead k) dst' packet ≡ received k
  unfolding arrive_legacy
  ahead_opens k hn e =
      let p = packet_parts hn in
      let old = get_or r.dec_history (get_or nonce 0 0) 0 == get_or nonce 1 0 in
      elim (Bool-cases old) [ inl f ↦ rw (e, f) refl | inr f ↦ rw (e, f, p.0, p.1, opened hn) refl ]

  open_packet :
      (k x : ℕ) (xs : List ℕ)
      → r.dec_nonce ≡ x ∷ xs
      → IsBlock (x ∷ xs)
      → k < 127
      → s.enc_nonce ≡ bumps k (x ∷ xs)
      → decrypt_legacy r dst' packet ≡ received k
  open_packet k x xs er hb hk es =
      let en : nonce ≡ bumps (suc k) (x ∷ xs) = ap bump es in
      let hn : IsBlock nonce = rw en (bumps-IsBlock (suc k) (x ∷ xs) hb) in
      let h0 : get_or nonce 0 0 ≡ (x + suc k) % 256 =
        ap (λ l. get_or l 0 0) en ∙ head_bumps k x xs hb.1.0 (omega arith) in
      let hx : get_or r.dec_nonce 0 0 ≡ x = ap (λ l. get_or l 0 0) er in
      let a : arrival (wrap_diff (sub_ℕ (get_or nonce 0 0) (get_or r.dec_nonce 0 0)))
          ≡ Arrival.ahead k =
        ap₂ (λ a b. arrival (wrap_diff (sub_ℕ a b))) h0 hx ∙ arrival_ahead k x hb.1.0 hk in
      let m : move_nonce r.dec_nonce (get_or nonce 0 0) ≡ nonce =
        ap₂ move_nonce er h0 ∙ move_nonce-bumps k x xs hb.1.0 (omega arith) ∙ sym en in
      let lp = (packet_parts hn).2 in
      let l1 : ltb (length packet) 4 ≡ false = ground arith in
      let l2 : ltb (length dst') (length packet - 4) ≡ false = ground arith in
      decrypt_legacy-arrives block r dst' packet hr l1 l2
      ∙ ap (λ a. arrive_legacy block r a dst' packet) a
      ∙ ahead_opens k hn m

-- A sender and a receiver with one key. The receiver's nonce is `k` packets behind the sender's
-- (`k` below 127, so that up to 126 packets were lost). Then the sender's next nonce is one packet on,
-- the receiver counts `k` lost packets, and there are two cases. When its history does not hold the
-- new nonce's second byte at the first byte, it gets the message whole, takes over the sender's new
-- nonce and remembers it in the history. When the history holds it, the packet is refused as a replay, and the
-- nonce and the history stay.
pub legacy_follows :
    (block : Cipher) (s r : CryptState) (dst dst' src : List ℕ) (k x : ℕ) (xs : List ℕ)
    → s.legacy_block ≡ some block
    → r.legacy_block ≡ some block
    → All IsByte src
    → length dst ≡ length src + 4
    → length dst' ≡ length src
    → r.dec_nonce ≡ x ∷ xs
    → IsBlock (x ∷ xs)
    → k < 127
    → s.enc_nonce ≡ bumps k (x ∷ xs)
    → let sent = encrypt_legacy s dst src in
      let next = sent.0.enc_nonce in
      let lost = if k == 0 then r.lost else u32 (r.lost + k) in
      (next ≡ bumps (suc k) (x ∷ xs))
      × (decrypt_legacy r dst' sent.1 ≡ (
          if get_or r.dec_history (get_or next 0 0) 0 == get_or next 1 0
          then (record r { lost = lost }, dst', some CryptError.replay_detected)
          else (
            record r {
              dec_nonce = next;
              dec_history = set r.dec_history (get_or next 0 0) (get_or next 1 0);
              lost = lost;
              good = u32 (r.good + 1);
            },
            src,
            none,
          )))
legacy_follows block s r dst dst' src k x xs hs hr bytes room room' er hb hk es =
    rw (encrypt_legacy_lem block s r dst dst' src hs hr bytes room room')
      (ap bump es, open_packet block s r dst dst' src hs hr bytes room room' k x xs er hb hk es)
