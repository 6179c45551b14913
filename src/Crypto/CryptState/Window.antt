-- ===== src/Crypto/CryptState/Window.antt =====
-- The secure mode's window for late packets: what it refuses and what it lets through.
use go_mumble_server.Base.{
  ℕ, zero, suc, Bool, true, ◌&&◌, ◌+◌, ◌-◌, ◌*◌, ◌/◌, ◌%◌, ◌^◌, ◌<◌, ◌≤◌, ◌≡◌, Bool-cases, inl, inr,
  refl, ap, ◌∙◌, false, Option, none, some, List, [], ◌∷◌, length, take, drop, set, get_or, ltb,
  ◌==◌, arith, bit_and, bit_or,
}
use go_mumble_server.Base.Bits.{zero-bit_and, bit}
use native.Mathlib.Nat.{pow-suc}
use go_mumble_server.Crypto.CryptState.Secure.{
  decrypt_secure_tracked, track_newest, track_late, track_old, open_sealed, encrypt_secure_lem,
  packet,
}
use go_mumble_server.Crypto.CryptState.{
  CryptState, CryptError, Aead, encrypt_secure, decrypt_secure, decrypt_secure_with,
  track_then_open, track_secure, open_secure, deliver, packet_counter, u64, shift_bitmap,
  newest_state, newest_bitmap, late_byte, late_mask, late_state, late_index, zeros_of,
}

bit-pow : (i : ℕ) → bit (2 ^ i) i ≡ 1
bit-pow zero = refl
bit-pow (suc i) = let e : 2 ^ suc i / 2 ≡ 2 ^ i = omega (arith, pow-suc 2 i) in rw e (bit-pow i)

bit-zero : (i : ℕ) → bit 0 i ≡ 0
bit-zero zero = refl
bit-zero (suc i) = bit-zero i

-- A bitmap with the mark of the counter that is `d + 1` behind the newest, and what is left of it when
-- the newest counter goes one on.
abbrev marked : ℕ → List ℕ
marked d =
    let i = 62 - d in
    set (zeros_of 8) (i / 8) (bit_or (get_or (zeros_of 8) (i / 8) 0) (2 ^ (i % 8)))

abbrev marked_then_moved : ℕ → List ℕ
marked_then_moved d =
    let moved = shift_bitmap 1 (marked d) in set moved 0 (bit_or (get_or moved 0 0) 128)

-- Whether the place where the counter is then looked for is free.
abbrev is_lost : ℕ → Bool
is_lost d = bit_and (get_or (marked_then_moved d) ((61 - d) / 8) 0) (2 ^ ((61 - d) % 8)) == 0

abbrev all_below : (ℕ → Bool) → ℕ → Bool
all_below p zero = true
all_below p (suc n) = p n && all_below p n

shift_bitmap-last :
    (s n : ℕ) (l : List ℕ) → length l ≡ suc n → get_or l n 0 ≡ 0 → get_or (shift_bitmap s l) n 0 ≡ 0
unfolding shift_bitmap
shift_bitmap-last s n [] h e = absurd (omega arith)
shift_bitmap-last s zero (x ∷ []) h e = omega (arith, ap (λ (n : ℕ). n * 2 ^ s) e)
shift_bitmap-last s (suc n) (x ∷ []) h e = absurd (omega arith)
shift_bitmap-last s zero (x ∷ y ∷ l) h e = absurd (omega arith)
shift_bitmap-last s (suc n) (x ∷ y ∷ l) h e = shift_bitmap-last s n (y ∷ l) (omega arith) e

get_or-set_head : (l : List ℕ) (v i : ℕ) → get_or (set l 0 v) (suc i) 0 ≡ get_or l (suc i) 0
get_or-set_head [] v i = refl
get_or-set_head (x ∷ l) v i = refl

newest_bitmap-last :
    (c : CryptState) (k : ℕ)
    → length c.dec_bitmap ≡ 8
    → get_or c.dec_bitmap 7 0 ≡ 0
    → get_or (newest_bitmap c k) 7 0 ≡ 0
newest_bitmap-last c k hb h = elim (Bool-cases (ltb 64 (k - c.dec_max))) [
  | inl far ↦ rw far
  | inr near ↦ rw near (shift_bitmap-last (k - c.dec_max) 7 c.dec_bitmap hb h)
]

-- The bit of the newest counter is the last of the window, and `track` does not set it.
newest_unmarked :
    (c : CryptState) (k : ℕ)
    → length c.dec_bitmap ≡ 8
    → get_or c.dec_bitmap 7 0 ≡ 0
    → late_byte (newest_state c k) k ≡ 0
newest_unmarked c k hb h =
    let i : late_index (newest_state c k) k / 8 ≡ 7 = omega arith in
    rw i (
      get_or-set_head (newest_bitmap c k) (bit_or (get_or (newest_bitmap c k) 0 0) 128) 6
      ∙ newest_bitmap-last c k hb h)

track_newest_again :
    (c : CryptState) (k : ℕ)
    → length c.dec_bitmap ≡ 8
    → get_or c.dec_bitmap 7 0 ≡ 0
    → track_secure (newest_state c k) k ≡ some (late_state (newest_state c k) k)
track_newest_again c k hb h =
    track_late (newest_state c k) k (omega arith) (omega arith)
    ∙ rw (newest_unmarked c k hb h, zero-bit_and (late_mask (newest_state c k) k))

-- Twice the same packet: with no late packet in the last byte of its window, the receiver opens
-- the sender's packet, and opens it again when it is replayed at once.
pub secure_replay_accepted :
    (aead : Aead) (s r : CryptState) (dst dst' src : List ℕ)
    → s.secure_aead ≡ some aead
    → r.secure_aead ≡ some aead
    → length dst ≡ length src + 28
    → length dst' ≡ length src
    → r.dec_max < u64 (s.enc_counter + 1)
    → length r.dec_bitmap ≡ 8
    → get_or r.dec_bitmap 7 0 ≡ 0
    → let sent = encrypt_secure s dst src in
      let first = decrypt_secure r dst' sent.1 in
      let second = decrypt_secure first.0 dst' sent.1 in
      (first.1 ≡ src) × (first.2 ≡ none) × (second.1 ≡ src) × (second.2 ≡ none)
secure_replay_accepted aead s r dst dst' src hs hr room room' h hb h7 =
    let k = u64 (s.enc_counter + 1) in
    let r' = newest_state r k in
    let sent : (encrypt_secure s dst src).1 ≡ packet aead s dst src hs room =
      ap (λ (x : CryptState × List ℕ × Option CryptError). x.1)
        (encrypt_secure_lem aead s dst src hs room) in
    let first = open_sealed aead s dst src hs room r r' dst' hr room' (track_newest r k h) in
    let second =
      open_sealed aead s dst src hs room r' (late_state r' k) dst' hr room'
        (track_newest_again r k hb h7) in
    rw (sent, first, second) (refl, refl, refl, refl)

refused_when_old :
    (aead : Aead) (c : CryptState) (dst src : List ℕ)
    → c.secure_aead ≡ some aead
    → 28 ≤ length src
    → packet_counter src + 64 ≤ c.dec_max
    → (decrypt_secure c dst src).2 ≡ some CryptError.replay_detected
unfolding decrypt_secure
refused_when_old aead c dst src ha h old =
    let l : ltb (length src) 28 ≡ false = ground arith in
    ap (λ o. (decrypt_secure_with o c dst src).2) ha
    ∙ rw l (ap (λ o. (track_then_open o aead c dst src).2) (track_old c (packet_counter src) old))

-- A packet that nobody with the key wrote moves the window before it is authenticated: after a
-- forged packet with a counter `k` above the window, which is refused, every packet whose counter
-- is 64 or more below `k` is refused as a replay.
pub forged_counter_blocks :
    (aead : Aead) (r : CryptState) (dst dst' forged genuine : List ℕ)
    → r.secure_aead ≡ some aead
    → 28 ≤ length forged
    → r.dec_max < packet_counter forged
    → aead.unseal (take 12 forged) (drop 12 forged) ≡ none
    → 28 ≤ length genuine
    → packet_counter genuine + 64 ≤ packet_counter forged
    → let first = decrypt_secure r dst forged in
      (first.2 ≡ some CryptError.decrypt_failed)
      × ((decrypt_secure first.0 dst' genuine).2 ≡ some CryptError.replay_detected)
forged_counter_blocks aead r dst dst' forged genuine hr hf hk hu hg hj =
    let k = packet_counter forged in
    let r' = newest_state r k in
    let first : decrypt_secure r dst forged ≡ (r', dst, some CryptError.decrypt_failed) =
      decrypt_secure_tracked aead r r' dst forged hr hf (track_newest r k hk)
      ∙ (unfold open_secure in ap (λ o. deliver o r' dst) hu) in
    rw first (refl, refused_when_old aead r' dst' genuine hr hg hj)
