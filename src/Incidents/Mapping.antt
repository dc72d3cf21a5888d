-- ===== src/Incidents/Mapping.antt =====
-- internal/incidents/incidents.go: from an event of the bus to an incident. A payload that cannot be
-- decoded is `none`. The title and the detail are kept as what they are made of; the JSON of the
-- detail is another package.
use mxsentinel.Prelude.{
  ℕ, ◌||◌, Option, none, some, List, [], ◌∷◌, map, String, str_eq, ltb, if◌then◌else◌, length,
}
use mxsentinel.Prelude.Assoc.{lookup, insert, string_key}

pub data EventType : Type 0 where
  rate_anomaly blacklist_hit complaint_spike dns_validation_failed : EventType
  other_event : String → EventType

-- A value of a detail map: a string, a number, or anything else.
pub data Detail (F : Type 0) : Type 0 where
  text : String → Detail F
  number : F → Detail F
  opaque : String → Detail F

-- The fields of the payloads and of the envelope that the mapping reads; a payload that does not decode
-- is `none`.
pub record ReputationPayload (F : Type 0) : Type 0 where
  pub signal : String
  pub subject_kind : String
  pub subject : String
  pub severity : String
  pub source : String
  pub observed_value : F
  pub window_secs : F
  pub detail : List (String × Detail F)

pub record DnsFinding : Type 0 where
  pub severity : String
  pub code : String

pub record DnsPayload : Type 0 where
  pub domain : String
  pub snapshot_id : String
  pub findings : List DnsFinding

pub record Envelope (F : Type 0) : Type 0 where
  pub tenant_id : String
  pub event_id : String
  pub event_type : EventType
  pub correlation_domain : String
  pub reputation : Option (ReputationPayload F)
  pub dns : Option DnsPayload

-- The forms of a title, with the texts that it names.
pub data Title : Type 0 where
  root_cause : String → Title
  rejection_spike_for blacklist_hit_on complaint_spike_for : String → String → Title
  validation_issues : String → ℕ → Title

pub data IncidentDetail (F : Type 0) : Type 0 where
  of_map : List (String × Detail F) → IncidentDetail F
  of_findings : String → ℕ → List String → IncidentDetail F

pub record IncidentInput (F : Type 0) : Type 0 where
  pub tenant_id : String
  pub source_event_id : String
  pub kind : String
  pub severity : String
  pub domain : String
  pub subject : String
  pub title : Title
  pub detail : IncidentDetail F
  pub confidence : Option F

unfoldable pub norm_severity : String → String
norm_severity s =
    if str_eq s "info" || (str_eq s "warning" || str_eq s "critical") then s else "warning"

-- The map `rank`, with 0 for a missing key.
unfoldable pub rank : String → ℕ
rank s =
    if str_eq s "info"
    then 1
    else if str_eq s "warning"
    then 2
    else if str_eq s "critical"
    then 3
    else 0

-- The loop of `worstFindingSeverity`.
unfoldable pub worst_from : String → ℕ → List DnsFinding → String
unfolding rank
worst_from worst worst_n [] = worst
worst_from worst worst_n (f ∷ fs) =
    worst_from (if ltb worst_n (rank f.severity) then f.severity else worst)
      (if ltb worst_n (rank f.severity) then rank f.severity else worst_n) fs

unfoldable pub worst_finding_severity : List DnsFinding → String
unfolding worst_from
worst_finding_severity fs = worst_from "warning" 0 fs

unfoldable pub or_unknown : String → String
or_unknown s = if str_eq s "" then "unknown" else s

module _ {F : Type 0} where
  abbrev text_of : Option (Detail F) → String
  text_of (some (text s)) = s
  text_of _ = ""

  abbrev number_of : Option (Detail F) → Option F
  number_of (some (number v)) = some v
  number_of _ = none

  unfoldable pub detail_string : List (String × Detail F) → String → String
  detail_string d k = text_of (lookup k d)

  unfoldable pub detail_float : List (String × Detail F) → String → Option F
  detail_float d k = number_of (lookup k d)

  abbrev add_missing :
      Option (Detail F) → String → Detail F → List (String × Detail F) → List (String × Detail F)
  add_missing none k v out = insert k v out
  add_missing (some w) k v out = out

  -- The second loop of `mergeDetail`; the first copies the base.
  unfoldable pub merge_detail :
      List (String × Detail F) → List (String × Detail F) → List (String × Detail F)
  merge_detail out [] = out
  merge_detail out ((k, v) ∷ extra) = merge_detail (add_missing (lookup k out) k v out) extra

  unfoldable pub signal_detail : ReputationPayload F → List (String × Detail F)
  signal_detail p =
      ("signal", text p.signal)
      ∷ ("source", text p.source)
      ∷ ("observed_value", number p.observed_value)
      ∷ ("window_secs", number p.window_secs)
      ∷ []

  unfoldable pub spike_title : ReputationPayload F → Title
  unfolding detail_string or_unknown
  spike_title p =
      if str_eq (detail_string p.detail "root_cause") ""
      then rejection_spike_for (or_unknown p.subject) (or_unknown p.source)
      else root_cause (detail_string p.detail "root_cause")

  -- What the `switch` of `reputationIncident` sets: the kind, the title and the confidence.
  unfoldable pub classified : EventType → ReputationPayload F → String × Title × Option F
  unfolding spike_title detail_float or_unknown
  classified rate_anomaly p = ("rejection_spike", spike_title p, detail_float p.detail "confidence")
  classified blacklist_hit p =
      ("blacklist", blacklist_hit_on (or_unknown p.subject) (or_unknown p.source), none)
  classified _ p = ("other", complaint_spike_for (or_unknown p.subject) (or_unknown p.source), none)

  unfoldable pub reputation_incident : Envelope F → ReputationPayload F → IncidentInput F
  unfolding norm_severity classified signal_detail merge_detail
  reputation_incident ev p =
      let (kind, title, confidence) = classified ev.event_type p in
      record {
        tenant_id = ev.tenant_id;
        source_event_id = ev.event_id;
        kind = kind;
        severity = norm_severity p.severity;
        domain = if str_eq p.subject_kind "domain" then p.subject else ev.correlation_domain;
        subject = p.subject;
        title = title;
        detail = of_map (merge_detail p.detail (signal_detail p));
        confidence = confidence;
      }

  unfoldable pub dns_incident : Envelope F → DnsPayload → IncidentInput F
  unfolding worst_finding_severity or_unknown
  dns_incident ev p = record {
    tenant_id = ev.tenant_id;
    source_event_id = ev.event_id;
    kind = "dns_validation";
    severity = worst_finding_severity p.findings;
    domain = p.domain;
    subject = p.domain;
    title = validation_issues (or_unknown p.domain) (length p.findings);
    detail = of_findings p.snapshot_id (length p.findings) (map (λ f. f.code) p.findings);
    confidence = none;
  }

  abbrev pub of_reputation : Envelope F → Option (ReputationPayload F) → Option (IncidentInput F)
  of_reputation ev none = none
  of_reputation ev (some p) = some (reputation_incident ev p)

  abbrev pub of_dns : Envelope F → Option DnsPayload → Option (IncidentInput F)
  of_dns ev none = none
  of_dns ev (some p) = some (dns_incident ev p)

  abbrev pub of_type : EventType → Envelope F → Option (IncidentInput F)
  of_type dns_validation_failed ev = of_dns ev ev.dns
  of_type (other_event name) ev = none
  of_type _ ev = of_reputation ev ev.reputation

  -- `FromEnvelope`: `none` for an event that is no incident.
  unfoldable pub from_envelope : Envelope F → Option (IncidentInput F)
  unfolding reputation_incident dns_incident
  from_envelope ev = of_type ev.event_type ev
