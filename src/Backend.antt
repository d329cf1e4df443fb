-- ===== src/Backend.antt =====
-- The configuration daemon as its clients see it: apps/config/config_client.c, config_lock.c, the
-- client list of config_handle.c, and the replies of lib/src/clicon_proto.c.
pub mod Types
pub mod Reply
pub mod Clients
pub mod Handlers
pub mod Commit
pub mod Sessions
pub mod Dispatch
pub mod Quiet
pub mod Cases
pub mod Lock
pub mod Guard
pub mod Request
pub mod Holder
pub mod Refusal
pub mod Answers
pub mod Sockets
pub mod Alive
pub mod Accept
mod Tests
