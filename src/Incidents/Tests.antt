-- ===== src/Incidents/Tests.antt =====
-- Incidents of concrete events.
use mxsentinel.Prelude.{
  ℕ, zero, suc, ◌+◌, ◌-◌, ◌*◌, ◌/◌, ◌%◌, ◌≤◌, ◌<◌, ◌≡◌, refl, sym, ap, ◌∙◌, ◌≢◌, ◌↔◌, ◌⊎◌, inl, inr,
  Bool, true, false, not, ◌&&◌, ◌||◌, Option, none, some, List, [], ◌∷◌, ◌++◌, map, append_assoc,
  append-nil, arith, String, str_eq, eq_iff, eq_refl, ltb, leb, ◌==◌, if◌then◌else◌, ltb→lt, lt→ltb,
  leb→le, le→leb, ==→eq, ==_refl, Bool-cases, &&-left, &&-right, ||-cases, length, take, select,
  any, length-append, length-take_le, All, All-append, All-select, length-select, select-All,
  All-select_keep,
}
use mxsentinel.Prelude.Assoc.{string_key}
use mxsentinel.Incidents.Mapping.{
  Envelope, EventType, rate_anomaly, blacklist_hit, complaint_spike, dns_validation_failed,
  other_event, ReputationPayload, DnsPayload, DnsFinding, IncidentInput, Detail, text, number,
  from_envelope, worst_finding_severity, merge_detail,
}
use mxsentinel.Incidents.Storing.{on_event}
use mxsentinel.Incidents.Storable.{IsStorable, from_envelope-IsStorable}
use mxsentinel.Incidents.Once.{Distinct, IsStored, deliver, deliver-Distinct}

abbrev listing : ReputationPayload ℕ
listing = record {
  signal = "blacklist_hit";
  subject_kind = "ip";
  subject = "198.51.100.5";
  severity = "severe";
  source = "zen.spamhaus.org";
  observed_value = 1;
  window_secs = 0;
  detail = ("signal", text "kept") ∷ [];
}

abbrev hit : Envelope ℕ
hit = record {
  tenant_id = "t";
  event_id = "e1";
  event_type = blacklist_hit;
  correlation_domain = "x.com";
  reputation = some listing;
  dns = none;
}

abbrev broken_dns : Envelope ℕ
broken_dns = record hit {
  event_id = "e2";
  event_type = dns_validation_failed;
  dns = some (record {
    domain = "x.com";
    snapshot_id = "s";
    findings =
        record { severity = "info"; code = "A" }
        ∷ record { severity = "fatal"; code = "B" }
        ∷ record { severity = "critical"; code = "C" }
        ∷ [];
  });
}

-- A severity that the column does not have becomes a warning.
abbrev hit_incident : IncidentInput ℕ
hit_incident = record {
  tenant_id = "t";
  source_event_id = "e1";
  kind = "blacklist";
  severity = "warning";
  domain = "x.com";
  subject = "198.51.100.5";
  title = mxsentinel.Incidents.Mapping.Title.blacklist_hit_on "198.51.100.5" "zen.spamhaus.org";
  detail = mxsentinel.Incidents.Mapping.IncidentDetail.of_map (
      ("signal", text "kept")
      ∷ ("source", text "zen.spamhaus.org")
      ∷ ("observed_value", number 1)
      ∷ ("window_secs", number 0)
      ∷ []);
  confidence = none;
}

maps_hit : from_envelope hit ≡ some hit_incident
unfolding from_envelope mxsentinel.Prelude.Assoc.lookup mxsentinel.Prelude.Assoc.insert
maps_hit = refl

from_envelope-IsStorable_example : IsStorable hit_incident
from_envelope-IsStorable_example = from_envelope-IsStorable hit hit_incident maps_hit

-- Redelivered after a failure of the database, and once more.
abbrev deliveries : List (Bool × Envelope ℕ)
deliveries = (true, hit) ∷ (false, hit) ∷ (false, broken_dns) ∷ (false, hit) ∷ []

two_rows : map (λ i. i.source_event_id) (deliver deliveries []) ≡ "e2" ∷ "e1" ∷ []
unfolding deliver on_event from_envelope any
two_rows = refl

deliver-Distinct_example :
    Distinct (deliver deliveries [])
    × All (λ d. (d.0 ≡ true) ⊎ IsStored (deliver deliveries []) d.1) deliveries
deliver-Distinct_example = deliver-Distinct deliveries
