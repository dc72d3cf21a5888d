-- ===== src/AuthWatch.antt =====
-- internal/authwatch: behavioral detection of compromised submission credentials.
pub mod Detector
pub mod Score
pub mod OffHours
pub mod Cooldown
pub mod Window
mod Tests
