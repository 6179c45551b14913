-- ===== src/Protocol.antt =====
-- pkg/mumble/protocol: the packets of the control channel and the fields inside them.
pub mod Wire
pub mod Framing
mod Tests
