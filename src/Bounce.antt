-- ===== src/Bounce.antt =====
-- internal/bounce: the classifier of delivery failures, the suppression policy and the export of
-- the suppression list.
pub mod Classify
pub mod Suppression
pub mod Evidence
pub mod Export
mod Tests
