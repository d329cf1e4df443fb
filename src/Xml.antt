-- ===== src/Xml.antt =====
-- XML trees: lib/src/clicon_xml.c.
pub mod Tree
pub mod Find
pub mod Copy
pub mod Insert
pub mod Print
pub mod Read
mod Tests
