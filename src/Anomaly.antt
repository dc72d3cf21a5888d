-- ===== src/Anomaly.antt =====
-- The send-volume detector: internal/anomaly.
pub mod Detector
pub mod Sweeping
pub mod Trips
mod Tests
