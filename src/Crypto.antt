-- ===== src/Crypto.antt =====
-- pkg/mumble/crypto: the encryption of voice packets.
pub mod Block
pub mod Ocb2
pub mod CryptState
mod Samples
mod Tests
