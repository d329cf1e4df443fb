-- ===== src/Hash.antt =====
-- The hash tables of lib/src/clicon_hash.c, which hold the options and the data of a handle.
pub mod Table
pub mod Chain
pub mod Laws
pub mod Keys
mod Tests
