-- ===== src/Transaction.antt =====
-- Commit and validation of the candidate: apps/config/config_commit.c, the hooks of config_plugin.c
-- and the dependencies of config_dbdep.c.
pub mod Types
pub mod Callbacks
pub mod Match
pub mod Vector
pub mod Commit
mod Loops
pub mod Rollback
mod Adds
pub mod Trace
pub mod Complete
pub mod Error
mod Tests
