-- ===== src/Incidents/Storable.antt =====
-- What incidents of internal/incidents/incidents.go the database accepts.
use mxsentinel.Prelude.{
  ℕ, ◌≡◌, refl, inl, inr, true, Option, none, some, List, [], ◌∷◌, arith, String, ltb, Bool-cases,
}
use mxsentinel.Incidents.Mapping.{
  Envelope, EventType, ReputationPayload, DnsPayload, DnsFinding, IncidentInput, from_envelope,
  norm_severity, rank, worst_from, worst_finding_severity, of_reputation, of_dns, of_type,
  reputation_incident, dns_incident, classified, rate_anomaly, blacklist_hit, complaint_spike,
  dns_validation_failed, other_event,
}
use mathlib.Core.Path.{subst}
use mxsentinel.Incidents.Storing.{is_kind, is_severity}

-- What both casts of the insert accept.
abbrev pub IsStorable : {F : Type 0} → IncidentInput F → Type 0
IsStorable i = (is_kind i.kind ≡ true) × (is_severity i.severity ≡ true)

norm_severity-is_severity : (s : String) → is_severity (norm_severity s) ≡ true
unfolding norm_severity is_severity
norm_severity-is_severity s = elim (Bool-cases (is_severity s)) [
  | inl q ↦ rw q q
  | inr q ↦ rw q refl
]

ranked_is_severity : (n : ℕ) (s : String) → ltb n (rank s) ≡ true → is_severity s ≡ true
unfolding rank is_severity
ranked_is_severity n s h = ground arith

worst_from-is_severity :
    (worst : String) (n : ℕ) (fs : List DnsFinding)
    → is_severity worst ≡ true
    → is_severity (worst_from worst n fs) ≡ true
unfolding worst_from
worst_from-is_severity worst n [] h = h
worst_from-is_severity worst n (f ∷ fs) h = elim (Bool-cases (ltb n (rank f.severity))) [
  | inl q ↦
      rw q
        (worst_from-is_severity f.severity (rank f.severity) fs (ranked_is_severity n f.severity q))
  | inr q ↦ rw q (worst_from-is_severity worst n fs h)
]

module _ {F : Type 0} where
  classified-is_kind :
      (ty : EventType) (p : ReputationPayload F) → is_kind (classified ty p).0 ≡ true
  unfolding classified is_kind
  classified-is_kind rate_anomaly p = refl
  classified-is_kind blacklist_hit p = refl
  classified-is_kind complaint_spike p = refl
  classified-is_kind dns_validation_failed p = refl
  classified-is_kind (other_event name) p = refl

  reputation_incident-IsStorable :
      (ev : Envelope F) (p : ReputationPayload F) → IsStorable (reputation_incident ev p)
  unfolding reputation_incident
  reputation_incident-IsStorable ev p =
      (classified-is_kind ev.event_type p, norm_severity-is_severity p.severity)

  dns_incident-IsStorable : (ev : Envelope F) (p : DnsPayload) → IsStorable (dns_incident ev p)
  unfolding dns_incident worst_finding_severity is_kind is_severity
  dns_incident-IsStorable ev p = (refl, worst_from-is_severity "warning" 0 p.findings refl)

  of_reputation-IsStorable :
      (ev : Envelope F) (o : Option (ReputationPayload F)) (i : IncidentInput F)
      → of_reputation ev o ≡ some i
      → IsStorable i
  of_reputation-IsStorable ev none i h = absurd (cc)
  of_reputation-IsStorable ev (some p) i h =
      let e : reputation_incident ev p ≡ i = cc in
      subst IsStorable e (reputation_incident-IsStorable ev p)

  of_dns-IsStorable :
      (ev : Envelope F) (o : Option DnsPayload) (i : IncidentInput F)
      → of_dns ev o ≡ some i
      → IsStorable i
  of_dns-IsStorable ev none i h = absurd (cc)
  of_dns-IsStorable ev (some p) i h =
      let e : dns_incident ev p ≡ i = cc in subst IsStorable e (dns_incident-IsStorable ev p)

  of_type-IsStorable :
      (ty : EventType) (ev : Envelope F) (i : IncidentInput F)
      → of_type ty ev ≡ some i
      → IsStorable i
  of_type-IsStorable rate_anomaly ev i h = of_reputation-IsStorable ev ev.reputation i h
  of_type-IsStorable blacklist_hit ev i h = of_reputation-IsStorable ev ev.reputation i h
  of_type-IsStorable complaint_spike ev i h = of_reputation-IsStorable ev ev.reputation i h
  of_type-IsStorable dns_validation_failed ev i h = of_dns-IsStorable ev ev.dns i h
  of_type-IsStorable (other_event name) ev i h = absurd (cc)

  -- Every incident that comes of an event has a kind and a severity that are values of the two enums,
  -- whatever the payload says, so that neither cast of the insert refuses it. Of the other columns
  -- nothing is said.
  pub from_envelope-IsStorable :
      (ev : Envelope F) (i : IncidentInput F) → from_envelope ev ≡ some i → IsStorable i
  unfolding from_envelope
  from_envelope-IsStorable ev i h = of_type-IsStorable ev.event_type ev i h
