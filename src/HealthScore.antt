-- ===== src/HealthScore.antt =====
-- The deliverability score: internal/healthscore/score.go.
pub mod Components
pub mod Compute
pub mod Bounds
pub mod Neutral
mod Tests
