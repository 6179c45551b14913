-- ===== src/Audio.antt =====
-- pkg/mumble/audio
pub mod Varint
pub mod Legacy
pub mod Router
mod Tests
