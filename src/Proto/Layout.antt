-- ===== src/Proto/Layout.antt =====
-- What each encoder writes.
pub mod Commands
pub mod Replies
