-- ===== src/Crypto/CryptState.antt =====
-- pkg/mumble/crypto/cryptstate.go: the state of one client's voice encryption. A call returns the
-- new state, the new contents of `dst` and the error, if any. AES and AES-GCM are not in the
-- repository: the keyed cipher and AEAD are values of the records `Cipher` and `Aead`.
pub mod Legacy
pub mod Replay
pub mod Secure
pub mod Window
use go_mumble_server.Base.{
  ℕ, zero, suc, ◌+◌, ◌-◌, ◌*◌, ◌/◌, ◌%◌, ◌^◌, ◌≡◌, Bool, true, false, Option, none, some, List, [],
  ◌∷◌, ◌++◌, length, take, drop, set, get_or, replicate, ltb, leb, ◌==◌, if◌then◌else◌, bit_and,
  bit_or, ◌&&◌, not, ◌||◌,
}
use go_mumble_server.Base.Int.{ℤ, pos, negsuc, sub_ℕ}
use go_mumble_server.Crypto.Block.{Cipher, copy}
use go_mumble_server.Crypto.Ocb2

pub data Mode : Type 0 where
  lite legacy secure : Mode

pub data CryptError : Type 0 where
  size_mismatch key_not_set dst_too_small invalid_packet replay_detected decrypt_failed : CryptError
  cipher_error : CryptError

-- cipher.AEAD: `Open` under the same nonce undoes `Seal`, which adds a tag of 16 bytes.
pub record Aead : Type 0 where
  pub seal : List ℕ → List ℕ → List ℕ
  pub unseal : List ℕ → List ℕ → Option (List ℕ)
  pub unseal-seal : (nonce plain : List ℕ) → unseal nonce (seal nonce plain) ≡ some plain
  pub length-seal : (nonce plain : List ℕ) → length (seal nonce plain) ≡ length plain + 16

-- aes.NewCipher, and aes.NewCipher with cipher.NewGCM; `none` is their error.
pub record KeyedCiphers : Type 0 where
  pub new_cipher : List ℕ → Option Cipher
  pub new_gcm : List ℕ → Option Aead

pub record CryptState : Type 0 where
  pub mode : Mode
  pub legacy_block : Option Cipher
  pub enc_nonce : List ℕ
  pub dec_nonce : List ℕ
  pub dec_history : List ℕ
  pub secure_aead : Option Aead
  pub enc_counter : ℕ
  pub dec_max : ℕ
  pub dec_bitmap : List ℕ
  pub good : ℕ
  pub late : ℕ
  pub lost : ℕ
  pub resync : ℕ

abbrev pub legacy_overhead : ℕ
legacy_overhead = 4

abbrev pub secure_nonce_size : ℕ
secure_nonce_size = 12

abbrev pub secure_overhead : ℕ
secure_overhead = 28

abbrev pub u32 : ℕ → ℕ
u32 n = n % 2 ^ 32

abbrev pub u64 : ℕ → ℕ
u64 n = n % 2 ^ 64

abbrev pub zeros_of : ℕ → List ℕ
zeros_of n = replicate n 0

unfoldable pub new_crypt_state : Mode → CryptState
new_crypt_state mode = record {
  mode = mode;
  legacy_block = none;
  enc_nonce = zeros_of 16;
  dec_nonce = zeros_of 16;
  dec_history = zeros_of 256;
  secure_aead = none;
  enc_counter = 0;
  dec_max = 0;
  dec_bitmap = zeros_of 8;
  good = 0;
  late = 0;
  lost = 0;
  resync = 0;
}

-- `EncNonce`: only the legacy mode has one.
unfoldable pub get_enc_nonce : CryptState → Option (List ℕ)
get_enc_nonce c = elim c.mode [ Mode.legacy ↦ some c.enc_nonce | _ ↦ none ]

unfoldable pub set_dec_nonce : CryptState → List ℕ → CryptState × Option CryptError
set_dec_nonce c nonce = elim c.mode [
  | Mode.lite ↦ (c, none)
  | Mode.legacy ↦
      if length nonce == 16
      then (record c { dec_nonce = nonce }, none)
      else (c, some CryptError.size_mismatch)
  | Mode.secure ↦ (c, none)
]

set_legacy_key :
    KeyedCiphers → CryptState → List ℕ → List ℕ → List ℕ → CryptState × Option CryptError
set_legacy_key k c key enc dec = elim (k.new_cipher key) [
  | none ↦ (c, some CryptError.cipher_error)
  | some block ↦ (record c { legacy_block = some block; enc_nonce = enc; dec_nonce = dec }, none)
]

set_secure_key : KeyedCiphers → CryptState → List ℕ → CryptState × Option CryptError
set_secure_key k c key = elim (k.new_gcm key) [
  | none ↦ (c, some CryptError.cipher_error)
  | some aead ↦ (record c { secure_aead = some aead }, none)
]

unfoldable pub set_key :
    KeyedCiphers → CryptState → List ℕ → List ℕ → List ℕ → CryptState × Option CryptError
unfolding set_legacy_key set_secure_key
set_key k c key enc dec = elim c.mode [
  | Mode.lite ↦ (c, none)
  | Mode.legacy ↦
      if length key == 16 && length enc == 16 && length dec == 16
      then set_legacy_key k c key enc dec
      else (c, some CryptError.size_mismatch)
  | Mode.secure ↦
      if length key == 32 then set_secure_key k c key else (c, some CryptError.size_mismatch)
]

unfoldable pub overhead : Mode → ℕ
overhead Mode.lite = 0
overhead Mode.legacy = legacy_overhead
overhead Mode.secure = secure_overhead

-- The counter loop on a nonce: add one to a byte, and go on to the next while it wraps to 0.
unfoldable pub bump : List ℕ → List ℕ
bump [] = []
bump (x ∷ xs) = let y = (x + 1) % 256 in y ∷ (if y == 0 then bump xs else xs)

unfoldable pub encrypt_legacy :
    CryptState → List ℕ → List ℕ → CryptState × List ℕ × Option CryptError
encrypt_legacy c dst src = elim c.legacy_block [
  | none ↦ (c, dst, some CryptError.key_not_set)
  | some block ↦
      if ltb (length dst) (length src + legacy_overhead)
      then (c, dst, some CryptError.dst_too_small)
      else (let nonce = bump c.enc_nonce in
          let sealed = Ocb2.encrypt block (drop 4 dst) src nonce (take 3 (drop 1 dst)) 3 in
          (record c { enc_nonce = nonce }, get_or nonce 0 0 ∷ (sealed.1 ++ sealed.0), none))
]

-- `diff`: how far the sent byte is ahead of the first byte of the nonce, on a circle of 256.
abbrev pub wrap_diff : ℤ → ℤ
wrap_diff (pos n) = if ltb 128 n then sub_ℕ n 256 else pos n
wrap_diff (negsuc n) = if ltb 128 (n + 1) then sub_ℕ 256 (n + 1) else negsuc n

-- What the packet's first byte says: it is the next packets' (with the number of those that were
-- skipped), an older one's, or one to refuse.
pub data Arrival : Type 0 where
  ahead : ℕ → Arrival
  behind : Arrival
  refused : Arrival

-- The chain `diff == 1`, `diff > 1`, `diff > -30 && diff < 0`.
unfoldable pub arrival : ℤ → Arrival
arrival (pos zero) = Arrival.refused
arrival (pos (suc n)) = Arrival.ahead n
arrival (negsuc n) = if ltb (n + 1) 30 then Arrival.behind else Arrival.refused

-- The nonce moved forward to a first byte: past the end of the circle the rest counts on.
unfoldable pub move_nonce : List ℕ → ℕ → List ℕ
move_nonce [] iv = []
move_nonce (first ∷ rest) iv = iv ∷ (if ltb iv first then bump rest else rest)

-- From the replay check on. `c` has the counters and the nonce for this packet, `saved` is the
-- nonce before it, and `restore` says that the packet came late.
unfoldable pub open_legacy :
    Cipher → CryptState → List ℕ → Bool → List ℕ → List ℕ → CryptState × List ℕ × Option CryptError
open_legacy block c saved restore dst src =
    let iv = get_or src 0 0 in
    let second = get_or c.dec_nonce 1 0 in
    if get_or c.dec_history iv 0 == second
    then (record c { dec_nonce = saved }, dst, some CryptError.replay_detected)
    else (let plain = Ocb2.decrypt block dst (drop 4 src) c.dec_nonce (take 3 (drop 1 src)) in
        if plain.1
        then (
          record c {
            dec_history = set c.dec_history iv second;
            dec_nonce = if restore then saved else c.dec_nonce;
            good = u32 (c.good + 1);
          },
          plain.0,
          none,
        )
        else (record c { dec_nonce = saved }, plain.0, some CryptError.decrypt_failed))

-- The counters and the nonce that the packet is opened with.
abbrev pub ahead_state : CryptState → ℕ → List ℕ → CryptState
ahead_state c skipped src = record c {
  lost = if skipped == 0 then c.lost else u32 (c.lost + skipped);
  dec_nonce = move_nonce c.dec_nonce (get_or src 0 0);
}

abbrev pub behind_state : CryptState → List ℕ → CryptState
behind_state c src = record c {
  late = u32 (c.late + 1);
  dec_nonce = set c.dec_nonce 0 (get_or src 0 0);
}

-- One branch for each arrival.
unfoldable pub arrive_legacy :
    Cipher → CryptState → Arrival → List ℕ → List ℕ → CryptState × List ℕ × Option CryptError
unfolding open_legacy
arrive_legacy block c (Arrival.ahead skipped) dst src =
    open_legacy block (ahead_state c skipped src) c.dec_nonce false dst src
arrive_legacy block c Arrival.behind dst src =
    open_legacy block (behind_state c src) c.dec_nonce true dst src
arrive_legacy block c Arrival.refused dst src = (c, dst, some CryptError.replay_detected)

-- `decryptLegacy` behind its test of the key.
unfoldable pub decrypt_legacy_with :
    Option Cipher → CryptState → List ℕ → List ℕ → CryptState × List ℕ × Option CryptError
unfolding arrive_legacy arrival move_nonce
decrypt_legacy_with none c dst src = (c, dst, some CryptError.key_not_set)
decrypt_legacy_with (some block) c dst src =
    if ltb (length src) legacy_overhead
    then (c, dst, some CryptError.invalid_packet)
    else (if ltb (length dst) (length src - legacy_overhead)
        then (c, dst, some CryptError.dst_too_small)
        else arrive_legacy block c
            (arrival (wrap_diff (sub_ℕ (get_or src 0 0) (get_or c.dec_nonce 0 0)))) dst src)

unfoldable pub decrypt_legacy :
    CryptState → List ℕ → List ℕ → CryptState × List ℕ × Option CryptError
unfolding decrypt_legacy_with
decrypt_legacy c dst src = decrypt_legacy_with c.legacy_block c dst src

-- binary.BigEndian on eight bytes.
unfoldable pub big_endian : ℕ → ℕ → List ℕ
big_endian zero v = []
big_endian (suc n) v = (v / 256 ^ n % 256) ∷ big_endian n v

unfoldable pub from_big_endian : List ℕ → ℕ → ℕ
from_big_endian [] acc = acc
from_big_endian (b ∷ bs) acc = from_big_endian bs (acc * 256 + b)

-- `copy(dst, nonce)` and `copy(dst[secureNonceSize:], ciphertext)`.
unfoldable pub write_packet : List ℕ → List ℕ → List ℕ → List ℕ
write_packet dst nonce text =
    let dst' = copy dst nonce in
    take secure_nonce_size dst' ++ copy (drop secure_nonce_size dst') text

abbrev pub counter_nonce : ℕ → List ℕ
counter_nonce counter = zeros_of 4 ++ big_endian 8 counter

-- `encryptSecure` behind its test of the key.
unfoldable pub encrypt_secure_with :
    Option Aead → CryptState → List ℕ → List ℕ → CryptState × List ℕ × Option CryptError
unfolding big_endian write_packet
encrypt_secure_with none c dst src = (c, dst, some CryptError.key_not_set)
encrypt_secure_with (some aead) c dst src =
    if ltb (length dst) (length src + secure_overhead)
    then (c, dst, some CryptError.dst_too_small)
    else (let counter = u64 (c.enc_counter + 1) in
        let nonce = counter_nonce counter in
        (record c { enc_counter = counter }, write_packet dst nonce (aead.seal nonce src), none))

unfoldable pub encrypt_secure :
    CryptState → List ℕ → List ℕ → CryptState × List ℕ × Option CryptError
unfolding encrypt_secure_with
encrypt_secure c dst src = encrypt_secure_with c.secure_aead c dst src

-- `b << shift` on a byte, and `b >> (8 - shift)`, whose count wraps past 8 and then shifts all out.
unfoldable pub shift_bitmap : ℕ → List ℕ → List ℕ
shift_bitmap shift [] = []
shift_bitmap shift (x ∷ []) = (x * 2 ^ shift % 256) ∷ []
shift_bitmap shift (x ∷ y ∷ r) =
    bit_or (x * 2 ^ shift % 256) (if leb shift 8 then y / 2 ^ (8 - shift) else 0)
    ∷ shift_bitmap shift (y ∷ r)

-- The window moved to a counter above all before it: `shift` stops at 64.
abbrev pub newest_shift : CryptState → ℕ → ℕ
newest_shift c counter = if ltb 64 (counter - c.dec_max) then 64 else counter - c.dec_max

abbrev pub newest_bitmap : CryptState → ℕ → List ℕ
newest_bitmap c counter =
    if ltb 64 (counter - c.dec_max)
    then zeros_of 8
    else shift_bitmap (counter - c.dec_max) c.dec_bitmap

abbrev pub newest_state : CryptState → ℕ → CryptState
newest_state c counter = record c {
  dec_bitmap = set (newest_bitmap c counter) 0 (bit_or (get_or (newest_bitmap c counter) 0 0) 128);
  dec_max = counter;
  lost =
      if ltb 1 (newest_shift c counter)
      then u32 (c.lost + (newest_shift c counter - 1))
      else c.lost;
  good = u32 (c.good + 1);
}

-- The bit of a counter that came late, and the state that remembers it.
abbrev pub late_index : CryptState → ℕ → ℕ
late_index c counter = 63 - (c.dec_max - counter)

abbrev pub late_byte : CryptState → ℕ → ℕ
late_byte c counter = get_or c.dec_bitmap (late_index c counter / 8) 0

abbrev pub late_mask : CryptState → ℕ → ℕ
late_mask c counter = 2 ^ (late_index c counter % 8)

abbrev pub late_state : CryptState → ℕ → CryptState
late_state c counter = record c {
  dec_bitmap =
      set c.dec_bitmap (late_index c counter / 8)
        (bit_or (late_byte c counter) (late_mask c counter));
  late = u32 (c.late + 1);
}

-- The replay window: the state for a packet with this counter, before the packet is opened.
unfoldable pub track_secure : CryptState → ℕ → Option CryptState
unfolding shift_bitmap
track_secure c counter =
    if leb counter c.dec_max
    then (if leb 64 (c.dec_max - counter)
        then none
        else (if bit_and (late_byte c counter) (late_mask c counter) == 0
            then some (late_state c counter)
            else none))
    else some (newest_state c counter)

unfoldable pub deliver :
    Option (List ℕ) → CryptState → List ℕ → CryptState × List ℕ × Option CryptError
deliver none c dst = (c, dst, some CryptError.decrypt_failed)
deliver (some plain) c dst =
    if ltb (length dst) (length plain)
    then (c, dst, some CryptError.dst_too_small)
    else (c, copy dst plain, none)

unfoldable pub open_secure :
    Aead → CryptState → List ℕ → List ℕ → CryptState × List ℕ × Option CryptError
unfolding deliver
open_secure aead c dst src =
    deliver (aead.unseal (take secure_nonce_size src) (drop secure_nonce_size src)) c dst

-- The counter that a packet names.
abbrev pub packet_counter : List ℕ → ℕ
packet_counter src = from_big_endian (drop 4 (take secure_nonce_size src)) 0

unfoldable pub track_then_open :
    Option CryptState
    → Aead
    → CryptState
    → List ℕ
    → List ℕ
    → CryptState × List ℕ × Option CryptError
unfolding open_secure
track_then_open none aead c dst src = (c, dst, some CryptError.replay_detected)
track_then_open (some c') aead c dst src = open_secure aead c' dst src

-- `decryptSecure` behind its test of the key.
unfoldable pub decrypt_secure_with :
    Option Aead → CryptState → List ℕ → List ℕ → CryptState × List ℕ × Option CryptError
unfolding track_then_open track_secure from_big_endian
decrypt_secure_with none c dst src = (c, dst, some CryptError.key_not_set)
decrypt_secure_with (some aead) c dst src =
    if ltb (length src) secure_overhead
    then (c, dst, some CryptError.invalid_packet)
    else track_then_open (track_secure c (packet_counter src)) aead c dst src

unfoldable pub decrypt_secure :
    CryptState → List ℕ → List ℕ → CryptState × List ℕ × Option CryptError
unfolding decrypt_secure_with
decrypt_secure c dst src = decrypt_secure_with c.secure_aead c dst src

unfoldable pub encrypt : CryptState → List ℕ → List ℕ → CryptState × List ℕ × Option CryptError
unfolding encrypt_legacy encrypt_secure
encrypt c dst src = elim c.mode [
  | Mode.lite ↦ (c, copy dst src, none)
  | Mode.legacy ↦ encrypt_legacy c dst src
  | Mode.secure ↦ encrypt_secure c dst src
]

unfoldable pub decrypt : CryptState → List ℕ → List ℕ → CryptState × List ℕ × Option CryptError
unfolding decrypt_legacy decrypt_secure
decrypt c dst src = elim c.mode [
  | Mode.lite ↦ (c, copy dst src, none)
  | Mode.legacy ↦ decrypt_legacy c dst src
  | Mode.secure ↦ decrypt_secure c dst src
]
