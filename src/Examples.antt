-- ===== src/Examples.antt =====
-- src/examples/: the programs that come with the crate.
pub mod Args
pub mod Harness
pub mod Programs
pub mod Setup
pub mod Usage
