-- ===== src/Proto.antt =====
-- The message protocol between the clients and the configuration daemon:
-- lib/src/clicon_proto_encode.c, with the types of lib/clicon/clicon_proto.h.
pub mod Types
pub mod Buffer
pub mod Encode
pub mod Decode
pub mod Writing
pub mod Wire
pub mod Reading
pub mod Layout
pub mod RoundTrip
mod Tests
