-- ===== src/Dns/Inspect.antt =====
-- internal/dns/inspect.go: the posture of a domain and whether it is healthy. The JSON of the state and
-- its checksum are not modelled.
use mxsentinel.Prelude.{
  ℕ, Bool, not, Option, none, some, List, [], ◌∷◌, ◌++◌, map, ◌==◌, if◌then◌else◌, length,
}
use mxsentinel.Prelude.Text.{Bytes, codes, to_lower, trim_space, trim_dot, has_prefix}
use mxsentinel.Prelude.Sort.{sort, bytes_le}
use mxsentinel.Dns.Spf.{Resolver}
use mxsentinel.Dns.Findings.{
  RecordFinding, finding, when, warning, critical, mx, mx_missing, worst_severity, is_critical,
  evaluate_spf,
}
use mxsentinel.Dns.Tags.{Tags, evaluate_dmarc, evaluate_dkim}

pub record DnsState : Type 0 where
  pub domain : Bytes
  pub mx_hosts : List Bytes
  pub spf_record : Bytes
  pub dmarc_record : Bytes
  pub dkim_records : Tags
  pub mta_sts : Bytes
  pub tls_rpt : Bytes
  pub bimi : Bytes

pub record Snapshot : Type 0 where
  pub state : DnsState
  pub findings : List RecordFinding
  pub healthy : Bool

-- The resolver: TXT records, and the hosts of MX records.
pub record Lookup : Type 0 where
  pub txt : Resolver
  pub mx_hosts : Bytes → Option (List Bytes)

abbrev pub mx_answer : Option (List Bytes) → List Bytes × List RecordFinding
mx_answer none = ([], finding mx warning mx_missing ∷ [])
mx_answer (some hosts) =
    let names = sort bytes_le (map (λ h. trim_dot (to_lower h)) hosts) in
    (names, when (length names == 0) (finding mx critical mx_missing))

abbrev first_with : Bytes → List Bytes → Bytes
first_with prefix [] = []
first_with prefix (t ∷ ts) =
    let rest = first_with prefix ts in
    if has_prefix prefix (to_lower (trim_space t)) then t else rest

abbrev txt_answer : Bytes → Option (List Bytes) → Bytes
txt_answer prefix none = []
txt_answer prefix (some txts) = first_with prefix txts

unfoldable pub first_txt : Resolver → Bytes → Bytes → Bytes
first_txt r name prefix = txt_answer prefix (r name)

abbrev pub normal_domain : Bytes → Bytes
normal_domain domain = trim_dot (to_lower (trim_space domain))

unfoldable pub inspect : Lookup → (Bytes → Option ℕ) → List Bytes → Bytes → Snapshot
unfolding evaluate_spf evaluate_dmarc evaluate_dkim first_txt worst_severity is_critical sort
inspect l rsa_bits selectors domain =
    let d = normal_domain domain in
    let hosts = mx_answer (l.mx_hosts d) in
    let senders = evaluate_spf l.txt d in
    let policy = evaluate_dmarc l.txt d in
    let keys = evaluate_dkim l.txt rsa_bits d selectors [] in
    let findings = hosts.1 ++ (senders.1 ++ (policy.1 ++ keys.1)) in
    record {
      state = record {
        domain = d;
        mx_hosts = hosts.0;
        spf_record = senders.0;
        dmarc_record = policy.0;
        dkim_records = keys.0;
        mta_sts = first_txt l.txt (codes "_mta-sts." ++ d) (codes "v=stsv1");
        tls_rpt = first_txt l.txt (codes "_smtp._tls." ++ d) (codes "v=tlsrptv1");
        bimi = first_txt l.txt (codes "default._bimi." ++ d) (codes "v=bimi1");
      };
      findings = findings;
      healthy = not (is_critical (worst_severity findings));
    }
