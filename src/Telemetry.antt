-- ===== src/Telemetry.antt =====
-- From a relay's mail log to the bus: internal/telemetry and the collector of cmd/telemetryd/main.go.
pub mod Spool
pub mod Durable
pub mod Words
pub mod Parser
pub mod Apart
pub mod Messages
mod Tests
