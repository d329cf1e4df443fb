-- ===== src/Proto/RoundTrip.antt =====
-- Decoding what was encoded.
pub mod Commands
pub mod Replies
