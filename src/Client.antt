-- ===== src/Client.antt =====
-- The client library: lib/src/clicon_proto.c and clicon_proto_client.c.
pub mod Socket
pub mod Rpc
pub mod Receive
pub mod Sized
pub mod Errors
mod Tests
