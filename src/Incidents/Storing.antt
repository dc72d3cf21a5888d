-- ===== src/Incidents/Storing.antt =====
-- internal/store/postgres/incidents.go: `InsertIncident` with the two enums of its casts and its
-- conflict clause, and `onEvent` of cmd/incidentd/main.go, which acknowledges an event or has it
-- delivered again. What else the table refuses (an id that is no UUID, an unknown tenant, a text with
-- a NUL, a confidence that is no REAL) is left to the flag of a failing statement.
use mxsentinel.Prelude.{
  Bool, true, false, not, ◌&&◌, ◌||◌, Option, none, some, List, ◌∷◌, String, str_eq, if◌then◌else◌,
  any,
}
use mxsentinel.Incidents.Mapping.{Envelope, IncidentInput, from_envelope}

-- The values of the types `incident_kind` and `dns_finding_sev`.
unfoldable pub is_kind : String → Bool
is_kind k =
    str_eq k "rejection_spike"
    || (str_eq k "blacklist" || (str_eq k "dns_validation" || str_eq k "other"))

unfoldable pub is_severity : String → Bool
is_severity s = str_eq s "info" || (str_eq s "warning" || str_eq s "critical")

module _ {F : Type 0} where
  unfoldable pub same_event : IncidentInput F → IncidentInput F → Bool
  same_event a b = str_eq a.tenant_id b.tenant_id && str_eq a.source_event_id b.source_event_id

  -- The new rows and whether one was created; `none` is an error of the statement. `db_fails` stands for
  -- every refusal but those of the two enums.
  unfoldable pub insert_incident :
      Bool → List (IncidentInput F) → IncidentInput F → Option (List (IncidentInput F) × Bool)
  unfolding is_kind is_severity same_event
  insert_incident db_fails rows input =
      if db_fails || (not (is_kind input.kind) || not (is_severity input.severity))
      then none
      else if any (same_event input) rows
      then some (rows, false)
      else some (input ∷ rows, true)

  abbrev pub acknowledged :
      List (IncidentInput F)
      → Option (List (IncidentInput F) × Bool)
      → List (IncidentInput F) × Bool
  acknowledged rows none = (rows, false)
  acknowledged rows (some (rows', created)) = (rows', true)

  abbrev pub store :
      Bool → List (IncidentInput F) → Option (IncidentInput F) → List (IncidentInput F) × Bool
  store db_fails rows none = (rows, true)
  store db_fails rows (some input) = acknowledged rows (insert_incident db_fails rows input)

  -- The rows afterwards, and whether the event is acknowledged.
  unfoldable pub on_event :
      Bool → List (IncidentInput F) → Envelope F → List (IncidentInput F) × Bool
  unfolding insert_incident
  on_event db_fails rows ev = store db_fails rows (from_envelope ev)
