-- ===== src/RateLimit.antt =====
-- internal/ratelimit: the fixed-window limiter over a pluggable counter, and its in-memory counter.
pub mod Limiter
pub mod Window
mod Tests
