-- ===== src/Users.antt =====
-- internal/user: the users that are connected, by session and by name.
pub mod Pool
pub mod Names
pub mod Manager
pub mod Views
mod Tests
