-- ===== src/Rbl.antt =====
-- Blocklist state of the egress addresses: internal/rbl.
pub mod Status
pub mod Agree
mod Tests
