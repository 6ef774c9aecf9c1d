-- ===== src/Runner.antt =====
-- crates/idakit-runner: the pool of worker processes that runs the test cases.
pub mod Scheduler
pub mod Protocol
pub mod Pool
mod Tests
