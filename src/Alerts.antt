-- ===== src/Alerts.antt =====
-- Alert channels: internal/alertchannels and the delivery log of internal/store/postgres.
pub mod Dispatch
pub mod Delivered
pub mod Logged
pub mod Secrets
pub mod Echo
mod Tests
mod SecretsTests
