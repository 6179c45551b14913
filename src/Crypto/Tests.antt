-- ===== src/Crypto/Tests.antt =====
-- Runs of pkg/mumble/crypto on small packets.
use go_mumble_server.Base.{
  ℕ, ◌≡◌, refl, none, ◌==◌, if◌then◌else◌, some, List, [], ◌∷◌, ◌++◌, take, replicate, get_or, set,
  All, arith, true,
}
use go_mumble_server.Crypto.Block.{IsByte, IsBlock, xor, times2, times3, zeros}
use go_mumble_server.Crypto.Ocb2
use go_mumble_server.Crypto.Ocb2.RoundTrip.{decrypt-encrypt}
use go_mumble_server.Crypto.CryptState.{
  Mode, CryptError, CryptState, new_crypt_state, encrypt_legacy, decrypt_legacy, encrypt_secure,
  decrypt_secure, bump, from_big_endian,
}
use go_mumble_server.Crypto.CryptState.Replay.{decrypt_legacy_refused, replay_refused, SameWindow}
use go_mumble_server.Crypto.CryptState.Legacy.{legacy_follows, bumps}
use go_mumble_server.Crypto.CryptState.Window.{secure_replay_accepted, forged_counter_blocks}
use go_mumble_server.Crypto.Samples.{flip_cipher, tagged, open_tagged, small-All}

-- Two blocks, the second one of four bytes.
abbrev message : List ℕ
message =
    1 ∷ 2 ∷ 3 ∷ 4 ∷ 5 ∷ 6 ∷ 7 ∷ 8 ∷ 9 ∷ 10 ∷ 11 ∷ 12 ∷ 13 ∷ 14 ∷ 15 ∷ 255 ∷ 17 ∷ 18 ∷ 19 ∷ 20 ∷ []

message-All : All IsByte message
message-All = small-All message refl

nonce-IsBlock : IsBlock (replicate 16 0)
nonce-IsBlock = (refl, small-All (replicate 16 0) refl)

decrypt-encrypt_example :
    let sealed =
      Ocb2.encrypt flip_cipher (replicate 24 0) message (replicate 16 0) (replicate 3 0) 3 in
    Ocb2.decrypt flip_cipher (replicate 20 0) (take 20 sealed.0) (replicate 16 0) sealed.1
    ≡ (message, true)
decrypt-encrypt_example =
    decrypt-encrypt flip_cipher (replicate 24 0) (replicate 20 0) message (replicate 16 0)
      (replicate 3 0) nonce-IsBlock message-All (omega arith) refl (omega arith)

-- A sender that is two packets ahead of its receiver.
abbrev start : List ℕ
start = 0 ∷ 1 ∷ replicate 14 0

start-IsBlock : IsBlock start
start-IsBlock = (refl, small-All start refl)

abbrev sender : CryptState
sender = record (new_crypt_state Mode.legacy) {
  legacy_block = some flip_cipher;
  enc_nonce = bumps 2 start;
}

abbrev receiver : CryptState
receiver = record (new_crypt_state Mode.legacy) {
  legacy_block = some flip_cipher;
  enc_nonce = start;
  dec_nonce = start;
}

legacy_follows_example :
    let sent = encrypt_legacy sender (replicate 24 0) message in
    let next = sent.0.enc_nonce in
    (next ≡ bumps 3 start)
    × (decrypt_legacy receiver (replicate 20 0) sent.1 ≡ (
        if get_or receiver.dec_history (get_or next 0 0) 0 == get_or next 1 0
        then (record receiver { lost = 2 }, replicate 20 0, some CryptError.replay_detected)
        else (
          record receiver {
            dec_nonce = next;
            dec_history = set receiver.dec_history (get_or next 0 0) (get_or next 1 0);
            lost = 2;
            good = 1;
          },
          message,
          none,
        )))
unfolding new_crypt_state encrypt_legacy bump
legacy_follows_example =
    legacy_follows flip_cipher sender receiver (replicate 24 0) (replicate 20 0) message 2 0
      (1 ∷ replicate 14 0) refl refl message-All refl refl refl start-IsBlock (omega arith) refl

-- What `receiver` would send as its first packet.
abbrev first_packet : List ℕ
first_packet =
    1 ∷ 253 ∷ 253 ∷ 241 ∷ 91 ∷ 88 ∷ 89 ∷ 94 ∷ 95 ∷ 92 ∷ 93 ∷ 82 ∷ 83 ∷ 80 ∷ 81 ∷ 86 ∷ 87 ∷ 84 ∷ 85
    ∷ 165 ∷ 38 ∷ 37 ∷ 32 ∷ 39 ∷ []

replay_refused_example :
    (decrypt_legacy
      (decrypt_legacy receiver (replicate 20 0) first_packet).0
      (replicate 20 0)
      first_packet).2
    ≡ some CryptError.replay_detected
unfolding new_crypt_state decrypt_legacy Ocb2.decrypt Ocb2.decrypt_loop Ocb2.decrypt_last
    Ocb2.tag_block xor times3 times2 Ocb2.pad_rest Ocb2.length_block zeros
replay_refused_example =
    replay_refused receiver (replicate 20 0) (replicate 20 0) first_packet 0 (1 ∷ replicate 14 0)
      refl (omega arith) (omega arith) refl

decrypt_legacy_refused_example :
    SameWindow receiver (decrypt_legacy receiver (replicate 20 0) (replicate 24 9)).0
unfolding new_crypt_state decrypt_legacy Ocb2.decrypt Ocb2.decrypt_loop Ocb2.decrypt_last
    Ocb2.tag_block xor times3 times2 Ocb2.pad_rest Ocb2.length_block zeros
decrypt_legacy_refused_example =
    decrypt_legacy_refused receiver (replicate 20 0) (replicate 24 9)
      {e = CryptError.decrypt_failed} refl

abbrev secure_end : CryptState
secure_end = record (new_crypt_state Mode.secure) { secure_aead = some tagged }

secure_replay_accepted_example :
    let sent = encrypt_secure secure_end (replicate 48 0) message in
    let first = decrypt_secure secure_end (replicate 20 0) sent.1 in
    let second = decrypt_secure first.0 (replicate 20 0) sent.1 in
    (first.1 ≡ message) × (first.2 ≡ none) × (second.1 ≡ message) × (second.2 ≡ none)
unfolding new_crypt_state
secure_replay_accepted_example =
    secure_replay_accepted tagged secure_end secure_end (replicate 48 0) (replicate 20 0) message
      refl refl refl refl (omega arith) refl refl

-- A packet without a tag that names the counter `k`.
abbrev packet_of : ℕ → List ℕ
packet_of k = replicate 11 0 ++ k ∷ replicate 20 0

forged_counter_blocks_example :
    let first = decrypt_secure secure_end (replicate 20 0) (packet_of 200) in
    (first.2 ≡ some CryptError.decrypt_failed)
    × ((decrypt_secure first.0 (replicate 20 0) (packet_of 1)).2 ≡ some CryptError.replay_detected)
unfolding new_crypt_state open_tagged from_big_endian
forged_counter_blocks_example =
    forged_counter_blocks tagged secure_end (replicate 20 0) (replicate 20 0) (packet_of 200)
      (packet_of 1) refl (omega arith) (omega arith) refl (omega arith) (omega arith)

-- An empty window whose newest counter is 9.
abbrev late_end : CryptState
late_end = record secure_end { dec_max = 9; dec_bitmap = replicate 8 0 }

-- A sender and a receiver with one key that start with a nonce of zeros: the receiver refuses the first
-- packet, whose nonce is 1, 0, 0, ..., since its history of zeros holds the 0.
abbrev zero_end : CryptState
zero_end = record (new_crypt_state Mode.legacy) { legacy_block = some flip_cipher }

fresh_receiver_refuses :
    (decrypt_legacy zero_end
      (replicate 20 0)
      (encrypt_legacy zero_end (replicate 24 0) message).1).2
    ≡ some CryptError.replay_detected
unfolding new_crypt_state encrypt_legacy decrypt_legacy bump Ocb2.encrypt
    go_mumble_server.Crypto.Block.copy Ocb2.encrypt_loop Ocb2.encrypt_last Ocb2.tag_block xor times3
    times2 Ocb2.pad_rest Ocb2.length_block zeros
fresh_receiver_refuses = refl
