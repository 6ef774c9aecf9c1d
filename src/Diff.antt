-- ===== src/Diff.antt =====
-- crates/idakit/src/types/diff: the structural difference of two canonical types.
pub mod Change
pub mod Pairing
pub mod Engine
pub mod Catalog
mod Tests
