-- ===== src/Types.antt =====
-- crates/idakit/src/types: the interned table of types, and its reduction to canonical form.
pub mod Table
pub mod Walk
pub mod Builder
pub mod Sink
mod Tests
