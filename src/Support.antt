-- ===== src/Support.antt =====
-- The device support of records: src/driver/devreg.cpp, devwatch.cpp, devsignal.cpp, devmain.cpp, and
-- the attachment of a record in devutil.cpp.
pub mod Types
pub mod Write
pub mod Read
pub mod Connect
pub mod Frame
pub mod Bounds
pub mod Extension
pub mod Copied
pub mod ReadBack
pub mod Refusals
pub mod Awaited
pub mod Persisted
pub mod Ranges
pub mod Watch
pub mod Sync
pub mod Signals
pub mod Status
pub mod Attach
pub mod Fixtures
mod Tests
mod OtherTests
