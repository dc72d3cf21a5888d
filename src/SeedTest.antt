-- ===== src/SeedTest.antt =====
-- Inbox placement of seed tests: internal/seedtest/placement.go.
pub mod Placement
pub mod Rows
pub mod Ordering
mod Tests
