-- ===== src/Dns.antt =====
-- DNS inspection: internal/dns.
pub mod Spf
pub mod Lookups
pub mod Visits
pub mod Findings
pub mod Tags
pub mod Inspect
pub mod Calm
pub mod Health
pub mod Poll
pub mod Announced
mod Tests
mod PollTests
