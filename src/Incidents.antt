-- ===== src/Incidents.antt =====
-- Incidents: internal/incidents, cmd/incidentd and the insert of internal/store/postgres.
pub mod Mapping
pub mod Storing
pub mod Storable
pub mod Once
mod Tests
