-- ===== src/Failover.antt =====
-- internal/relayfailover and cmd/relayfailoverd: the circuit breaker that reroutes a provider's
-- mail to a fallback relay, and the daemon's tick around it.
pub mod Breaker
pub mod Runs
pub mod StateFile
pub mod Worker
pub mod Ticks
pub mod Follows
mod Tests
