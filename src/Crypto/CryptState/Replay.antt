-- ===== src/Crypto/CryptState/Replay.antt =====
-- The legacy mode: packets that are refused, and packets that come twice.
use go_mumble_server.Base.{
  ℕ, zero, suc, ◌+◌, ◌-◌, ◌<◌, ◌≤◌, ◌≡◌, refl, sym, ap, ◌∙◌, Bool, true, false, Option, none, some,
  List, [], ◌∷◌, length, set, get_or, ltb, if◌then◌else◌, arith, ◌⊎◌, ==_iff, inl, inr,
}
use go_mumble_server.Base.Int.{pos, sub_ℕ}
use go_mumble_server.Crypto.Block.{Cipher}
use go_mumble_server.Crypto.CryptState.{
  CryptState, CryptError, Arrival, decrypt_legacy, decrypt_legacy_with, arrival, wrap_diff,
  move_nonce, arrive_legacy, open_legacy, ahead_state, behind_state, u32,
}

-- What the receiver's later behaviour depends on.
abbrev pub SameWindow : CryptState → CryptState → Type 0
SameWindow c c' =
    (c'.dec_nonce ≡ c.dec_nonce)
    × (c'.dec_history ≡ c.dec_history)
    × (c'.good ≡ c.good)
    × (c'.legacy_block ≡ c.legacy_block)

open_legacy_refused :
    (block : Cipher) (c : CryptState) (saved : List ℕ) (restore : Bool) (dst src : List ℕ)
    {e : CryptError}
    → (open_legacy block c saved restore dst src).2 ≡ some e
    → SameWindow (record c { dec_nonce = saved }) (open_legacy block c saved restore dst src).0
unfolding open_legacy
open_legacy_refused block c saved restore dst src h = ground arith

arrive_legacy_refused :
    (block : Cipher) (c : CryptState) (a : Arrival) (dst src : List ℕ) {e : CryptError}
    → (arrive_legacy block c a dst src).2 ≡ some e
    → SameWindow c (arrive_legacy block c a dst src).0
unfolding arrive_legacy
arrive_legacy_refused block c (Arrival.ahead n) dst src h =
    open_legacy_refused block (ahead_state c n src) c.dec_nonce false dst src h
arrive_legacy_refused block c Arrival.behind dst src h =
    open_legacy_refused block (behind_state c src) c.dec_nonce true dst src h
arrive_legacy_refused block c Arrival.refused dst src h = (refl, refl, refl, refl)

-- How far the packet's first byte is ahead.
abbrev pub arrives : CryptState → List ℕ → Arrival
arrives c src = arrival (wrap_diff (sub_ℕ (get_or src 0 0) (get_or c.dec_nonce 0 0)))

pub decrypt_legacy-arrives :
    (block : Cipher) (c : CryptState) (dst src : List ℕ)
    → c.legacy_block ≡ some block
    → ltb (length src) 4 ≡ false
    → ltb (length dst) (length src - 4) ≡ false
    → decrypt_legacy c dst src ≡ arrive_legacy block c (arrives c src) dst src
unfolding decrypt_legacy
decrypt_legacy-arrives block c dst src hb h1 h2 =
    ap (λ o. decrypt_legacy_with o c dst src) hb ∙ rw (h1, h2)

decrypt_legacy_with_refused :
    (o : Option Cipher) (c : CryptState) (dst src : List ℕ) {e : CryptError}
    → (decrypt_legacy_with o c dst src).2 ≡ some e
    → SameWindow c (decrypt_legacy_with o c dst src).0
unfolding decrypt_legacy_with
decrypt_legacy_with_refused none c dst src h = (refl, refl, refl, refl)
decrypt_legacy_with_refused (some block) c dst src h =
    ground (arith, arrive_legacy_refused block c (arrives c src) dst src)

-- A packet that is refused, for whatever reason, leaves the nonce, the history, the key and the count
-- of good packets as they were.
pub decrypt_legacy_refused :
    (c : CryptState) (dst src : List ℕ) {e : CryptError}
    → (decrypt_legacy c dst src).2 ≡ some e
    → SameWindow c (decrypt_legacy c dst src).0
unfolding decrypt_legacy
decrypt_legacy_refused c dst src h = decrypt_legacy_with_refused c.legacy_block c dst src h

open_legacy_done :
    (block : Cipher) (c : CryptState) (saved : List ℕ) (restore : Bool) (dst src : List ℕ)
    → (open_legacy block c saved restore dst src).2 ≡ none
    → (open_legacy block c saved restore dst src).0 ≡ record c {
      dec_history = set c.dec_history (get_or src 0 0) (get_or c.dec_nonce 1 0);
      dec_nonce = if restore then saved else c.dec_nonce;
      good = u32 (c.good + 1);
    }
unfolding open_legacy
open_legacy_done block c saved restore dst src h = ground arith

-- After a packet went through, its first byte and the nonce's second are in the history, and the
-- first byte is not ahead of the nonce.
abbrev Seen : CryptState → List ℕ → Type 0
Seen c src =
    (arrives c src ≡ Arrival.refused)
    ⊎ ((arrives c src ≡ Arrival.behind)
        × (get_or c.dec_history (get_or src 0 0) 0 ≡ get_or c.dec_nonce 1 0))

get_or-set : (xs : List ℕ) (i v : ℕ) → i < length xs → get_or (set xs i v) i 0 ≡ v
get_or-set [] i v h = elim h [ ]
get_or-set (x ∷ xs) zero v h = refl
get_or-set (x ∷ xs) (suc i) v h = get_or-set xs i v (omega arith)

second-set : (xs : List ℕ) (v : ℕ) → get_or (set xs 0 v) 1 0 ≡ get_or xs 1 0
second-set [] v = refl
second-set (x ∷ xs) v = refl

head-move_nonce : (x : ℕ) (xs : List ℕ) (iv : ℕ) → get_or (move_nonce (x ∷ xs) iv) 0 0 ≡ iv
unfolding move_nonce
head-move_nonce x xs iv = refl

not_ahead : (iv : ℕ) → arrival (wrap_diff (sub_ℕ iv iv)) ≡ Arrival.refused
unfolding arrival
not_ahead iv = let e : sub_ℕ iv iv ≡ pos 0 = ground arith in rw e

arrive_legacy-Seen :
    (block : Cipher) (c : CryptState) (a : Arrival) (dst src : List ℕ) (x : ℕ) (xs : List ℕ)
    → c.dec_nonce ≡ x ∷ xs
    → a ≡ arrives c src
    → get_or src 0 0 < length c.dec_history
    → (arrive_legacy block c a dst src).2 ≡ none
    → Seen (arrive_legacy block c a dst src).0 src
unfolding arrive_legacy
arrive_legacy-Seen block c (Arrival.ahead n) dst src x xs hn ha hl h =
    let e = open_legacy_done block (ahead_state c n src) c.dec_nonce false dst src h in
    inl (
      ap (λ (d : CryptState). arrives d src) e
      ∙ ap (λ l. arrival (wrap_diff (sub_ℕ (get_or src 0 0) (get_or l 0 0))))
          (ap (λ l. move_nonce l (get_or src 0 0)) hn)
      ∙ ap (λ n. arrival (wrap_diff (sub_ℕ (get_or src 0 0) n)))
          (head-move_nonce x xs (get_or src 0 0))
      ∙ not_ahead (get_or src 0 0))
arrive_legacy-Seen block c Arrival.behind dst src x xs hn ha hl h =
    let iv = get_or src 0 0 in
    let e = open_legacy_done block (behind_state c src) c.dec_nonce true dst src h in
    inr (
      ap (λ (d : CryptState). arrives d src) e ∙ sym ha,
      ap (λ (d : CryptState). get_or d.dec_history iv 0) e
          ∙ get_or-set c.dec_history iv (get_or (set c.dec_nonce 0 iv) 1 0) hl
          ∙ second-set c.dec_nonce iv
          ∙ sym (ap (λ (d : CryptState). get_or d.dec_nonce 1 0) e),
    )
arrive_legacy-Seen block c Arrival.refused dst src x xs hn ha hl h = cc

Seen-refused :
    (block : Cipher) (c : CryptState) (dst src : List ℕ)
    → Seen c src
    → (arrive_legacy block c (arrives c src) dst src).2 ≡ some CryptError.replay_detected
unfolding arrive_legacy
Seen-refused block c dst src (inl e) = rw e
Seen-refused block c dst src (inr (e, h)) = rw e (
    unfold open_legacy in
    rw (
      (==_iff (get_or c.dec_history (get_or src 0 0) 0)
          (get_or (set c.dec_nonce 0 (get_or src 0 0)) 1 0)).1
        (h ∙ sym (second-set c.dec_nonce (get_or src 0 0)))))

open_legacy_key :
    (block : Cipher) (c : CryptState) (saved : List ℕ) (restore : Bool) (dst src : List ℕ)
    → (open_legacy block c saved restore dst src).0.legacy_block ≡ c.legacy_block
unfolding open_legacy
open_legacy_key block c saved restore dst src = ground arith

arrive_legacy_key :
    (block : Cipher) (c : CryptState) (a : Arrival) (dst src : List ℕ)
    → (arrive_legacy block c a dst src).0.legacy_block ≡ c.legacy_block
unfolding arrive_legacy
arrive_legacy_key block c (Arrival.ahead n) dst src =
    open_legacy_key block (ahead_state c n src) c.dec_nonce false dst src
arrive_legacy_key block c Arrival.behind dst src =
    open_legacy_key block (behind_state c src) c.dec_nonce true dst src
arrive_legacy_key block c Arrival.refused dst src = refl

-- What a packet that goes through passed before its arrival was looked at.
decrypt_legacy_done :
    (o : Option Cipher) (c : CryptState) (dst src : List ℕ)
    → (decrypt_legacy_with o c dst src).2 ≡ none
    → (block : Cipher) × (o ≡ some block)
      × (4 ≤ length src)
      × (decrypt_legacy_with o c dst src ≡ arrive_legacy block c (arrives c src) dst src)
unfolding decrypt_legacy_with
decrypt_legacy_done none c dst src h = cc
decrypt_legacy_done (some block) c dst src h = (block, refl, ground arith, ground arith)

-- A packet that went through is refused as a replay when it comes again at once, whether it was the
-- next one, came after lost ones or came late.
pub replay_refused :
    (c : CryptState) (dst dst' src : List ℕ) (x : ℕ) (xs : List ℕ)
    → c.dec_nonce ≡ x ∷ xs
    → get_or src 0 0 < length c.dec_history
    → length src ≤ length dst' + 4
    → (decrypt_legacy c dst src).2 ≡ none
    → (decrypt_legacy (decrypt_legacy c dst src).0 dst' src).2 ≡ some CryptError.replay_detected
unfolding decrypt_legacy
replay_refused c dst dst' src x xs hn hl room h =
    let (block, hb, h4, e) = decrypt_legacy_done c.legacy_block c dst src h in
    let c' = (arrive_legacy block c (arrives c src) dst src).0 in
    let seen : Seen c' src =
      arrive_legacy-Seen block c (arrives c src) dst src x xs hn refl hl
        (ap (λ (r : CryptState × List ℕ × Option CryptError). r.2) (sym e) ∙ h) in
    let key : c'.legacy_block ≡ some block =
      arrive_legacy_key block c (arrives c src) dst src ∙ hb in
    ap
      (λ (r : CryptState × List ℕ × Option CryptError).
        (decrypt_legacy_with r.0.legacy_block r.0 dst' src).2)
      e
    ∙ ap (λ (r : CryptState × List ℕ × Option CryptError). r.2)
        (decrypt_legacy-arrives block c' dst' src key (ground arith) (ground arith))
    ∙ Seen-refused block c' dst' src seen
