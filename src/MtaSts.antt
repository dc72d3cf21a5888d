-- ===== src/MtaSts.antt =====
-- MTA-STS policies and records: internal/mtasts.
pub mod Policy
pub mod Parsed
pub mod Record
pub mod Ignored
pub mod Inspect
pub mod Health
mod InspectTests
mod Tests
