-- ===== src/Acl.antt =====
-- internal/acl: who may do what in which channel.
pub mod Selector
pub mod Group
pub mod Evaluator
mod Tests
