-- ===== src/Correlate.antt =====
-- internal/correlate: rejection reasons, rejection spikes, and their correlation with DNS changes.
pub mod Reason
pub mod Spike
pub mod Aggregator
pub mod Counting
pub mod Pruning
pub mod RootCause
pub mod Latest
pub mod Blame
mod Tests
