-- ===== src/Dns/Poll.antt =====
-- cmd/dnsd/main.go: one poll of a domain, over the snapshots of the domain that are stored and the
-- events on the bus. The checksum of a state is a parameter.
use mxsentinel.Prelude.{Bool, true, false, not, ◌&&◌, ◌||◌, List, [], ◌∷◌, if◌then◌else◌, any}
use mxsentinel.Prelude.Text.{Bytes, bytes_eq, is_empty}
use mxsentinel.Dns.Findings.{Severity, info, warning, critical, RecordFinding}
use mxsentinel.Dns.Inspect.{DnsState, Snapshot}

pub record StoredSnapshot : Type 0 where
  pub checksum : Bytes
  pub healthy : Bool
  pub findings : List RecordFinding

-- Rows newest first, and for each published event the checksum that it carries.
pub record Monitored : Type 0 where
  pub rows : List StoredSnapshot
  pub changes : List Bytes
  pub alerts : List StoredSnapshot

-- What fails in a poll.
pub record PollIo : Type 0 where
  pub prior_fails : Bool
  pub insert_fails : Bool
  pub change_refused : Bool
  pub alert_refused : Bool

-- `LatestSnapshotChecksum`: empty where there is no row.
unfoldable pub latest_checksum : List StoredSnapshot → Bytes
latest_checksum [] = []
latest_checksum (s ∷ ss) = s.checksum

unfoldable pub is_alertable : StoredSnapshot → Bool
is_alertable s = any (λ f. is_alert f.severity) s.findings
  where
    is_alert : Severity → Bool
    is_alert info = false
    is_alert warning = true
    is_alert critical = true

abbrev pub row_of : (DnsState → Bytes) → Snapshot → StoredSnapshot
row_of checksum s = record {
  checksum = checksum s.state;
  healthy = s.healthy;
  findings = s.findings;
}

-- The two publications that follow the insertion of a row.
unfoldable pub announce : PollIo → Bool → StoredSnapshot → Monitored → Monitored
unfolding is_alertable
announce io is_change s m = record m {
  changes = if is_change && not io.change_refused then s.checksum ∷ m.changes else m.changes;
  alerts = if is_alertable s && not io.alert_refused then s ∷ m.alerts else m.alerts;
}

-- `poll`, after the inspection.
unfoldable pub poll : PollIo → (DnsState → Bytes) → Snapshot → Monitored → Monitored
unfolding announce latest_checksum
poll io checksum snap m =
    let prior = latest_checksum m.rows in
    let s = row_of checksum snap in
    let changed = not (bytes_eq s.checksum prior) in
    let first = is_empty prior in
    if io.prior_fails || ((not changed && not first) || io.insert_fails)
    then m
    else announce io (changed && not first) s (record m { rows = s ∷ m.rows })
