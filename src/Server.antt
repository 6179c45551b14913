-- ===== src/Server.antt =====
-- internal/mumble: the state of the server beside the managers of channels and users.
pub mod Listeners
mod Tests
