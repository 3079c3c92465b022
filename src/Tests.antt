-- ===== src/Tests.antt =====
-- The theorems at concrete inputs.
pub mod Fixtures
pub mod Wire
pub mod Receiver
pub mod Sender
pub mod Network
pub mod Queue
pub mod Calls
pub mod Programs
pub mod Script
