-- ===== src/AlertRules.antt =====
-- Alert rules: cmd/alertd and the events of internal/store/postgres/alerts.go.
pub mod Rules
pub mod Evaluation
pub mod Firing
pub mod Messages
pub mod Blind
mod Tests
