-- ===== src/MtaSts/Inspect.antt =====
-- internal/mtasts/inspect.go: the MTA-STS posture of a domain, over the three dependencies that
-- cmd/tlsrptd passes. Times are nanoseconds. JSON and messages are not modelled.
use mxsentinel.Prelude.{
  ℕ, zero, suc, ◌+◌, ◌*◌, ◌⊎◌, inl, inr, Bool, true, false, not, ◌&&◌, ◌||◌, Option, none, some,
  List, [], ◌∷◌, ◌++◌, ltb, leb, ◌==◌, if◌then◌else◌, any,
}
use mxsentinel.Prelude.Text.{Bytes, codes, bytes_eq, is_empty, has_prefix}
use mxsentinel.Prelude.Sort.{sort, bytes_le}
use mxsentinel.Dns.Spf.{Resolver}
use mxsentinel.Dns.Findings.{
  Code, Severity, info, warning, critical, mta_sts, RecordFinding, finding, when, worst_severity,
  is_critical, txt_missing, txt_invalid, policy_unreachable, policy_invalid, mode_not_enforced,
  no_mx_listed, cert_expired, cert_expiring_soon, cert_invalid, cert_unreachable,
}
use mxsentinel.Dns.Inspect.{first_txt, normal_domain}
use mxsentinel.MtaSts.Policy.{
  Policy, PolicyError, StsRecord, TxtError, ℤ, pos, no_host, parse_policy, parse_txt,
}

pub record CertInfo : Type 0 where
  pub not_after : ℕ
  pub valid : Bool
  pub err : Bytes

-- `Deps`, with the clock.
pub record Deps : Type 0 where
  pub resolver : Resolver
  pub fetch : Bytes → Option Bytes
  pub check : Bytes → CertInfo
  pub now : ℕ

pub record StsState : Type 0 where
  pub domain : Bytes
  pub txt_id : Bytes
  pub policy_present : Bool
  pub mode : Bytes
  pub mx : List Bytes
  pub max_age : ℤ
  pub certs : List CertInfo

pub record StsSnapshot : Type 0 where
  pub state : StsState
  pub findings : List RecordFinding
  pub healthy : Bool
  pub cert_expiry : ℕ

abbrev sts : Severity → Code → RecordFinding
sts s c = finding mta_sts s c

abbrev pub txt_parsed : TxtError ⊎ StsRecord → Bytes × List RecordFinding
txt_parsed (inl e) = ([], sts warning txt_invalid ∷ [])
txt_parsed (inr r) = (r.id, [])

-- Step 1: the id of the record, empty where there is none.
unfoldable pub inspect_txt : Bytes → Bytes × List RecordFinding
inspect_txt txt =
    if is_empty txt then ([], sts warning txt_missing ∷ []) else txt_parsed (parse_txt txt)

unfoldable pub mode_findings : Policy → List RecordFinding
mode_findings p =
    (if bytes_eq p.mode (codes "none")
      then sts warning mode_not_enforced ∷ []
      else when (bytes_eq p.mode (codes "testing")) (sts info mode_not_enforced))
    ++ when (not (bytes_eq p.mode (codes "none")) && no_host p.mx) (sts critical no_mx_listed)

abbrev pub day : ℕ
day = 86400000000000

unfoldable pub cert_findings : ℕ → ℕ → CertInfo → List RecordFinding
cert_findings now warn_days i =
    if not (is_empty i.err)
    then sts warning cert_unreachable ∷ []
    else if not i.valid
    then sts critical cert_invalid ∷ []
    else if i.not_after == 0
    then []
    else if ltb i.not_after now
    then sts critical cert_expired ∷ []
    else when (leb i.not_after (now + warn_days * day)) (sts warning cert_expiring_soon)

-- Wildcard patterns are passed over.
unfoldable pub check_certs : Deps → ℕ → List Bytes → List CertInfo × List RecordFinding
unfolding cert_findings
check_certs d warn_days [] = ([], [])
check_certs d warn_days (host ∷ hosts) =
    let rest = check_certs d warn_days hosts in
    if has_prefix (codes "*.") host
    then rest
    else (d.check host ∷ rest.0, cert_findings d.now warn_days (d.check host) ++ rest.1)

-- 0 is the zero time.
unfoldable pub earliest_from : ℕ → List CertInfo → ℕ
earliest_from earliest [] = earliest
earliest_from earliest (c ∷ cs) =
    if c.not_after == 0
    then earliest_from earliest cs
    else earliest_from (if earliest == 0 || ltb c.not_after earliest then c.not_after else earliest)
        cs

unfoldable pub earliest_expiry : List CertInfo → ℕ
unfolding earliest_from
earliest_expiry cs = earliest_from 0 cs

abbrev pub blank_state : Bytes → Bytes → StsState
blank_state domain id = record {
  domain = domain;
  txt_id = id;
  policy_present = false;
  mode = [];
  mx = [];
  max_age = pos 0;
  certs = [];
}

-- Steps 2 and 3 on a policy file.
abbrev pub with_policy : Deps → ℕ → StsState → PolicyError ⊎ Policy → StsState × List RecordFinding
with_policy d warn_days s (inl e) = (s, sts critical policy_invalid ∷ [])
with_policy d warn_days s (inr p) =
    let checked = check_certs d warn_days p.mx in
    (
      record s {
        policy_present = true;
        mode = p.mode;
        mx = sort bytes_le p.mx;
        max_age = p.max_age;
        certs = checked.0;
      },
      mode_findings p ++ checked.1,
    )

abbrev pub with_body : Deps → ℕ → StsState → Option Bytes → StsState × List RecordFinding
with_body d warn_days s none = (s, sts warning policy_unreachable ∷ [])
with_body d warn_days s (some body) = with_policy d warn_days s (parse_policy body)

abbrev pub warn_days_of : ℕ → ℕ
warn_days_of zero = 14
warn_days_of (suc n) = suc n

unfoldable pub inspect_sts : Deps → ℕ → Bytes → StsSnapshot
unfolding inspect_txt mode_findings check_certs earliest_expiry worst_severity is_critical
inspect_sts d cert_warn_days domain =
    let name = normal_domain domain in
    let t = inspect_txt (first_txt d.resolver (codes "_mta-sts." ++ name) (codes "v=stsv1")) in
    let p = with_body d (warn_days_of cert_warn_days) (blank_state name t.0) (d.fetch name) in
    let findings = t.1 ++ p.1 in
    record {
      state = p.0;
      findings = findings;
      healthy = not (is_critical (worst_severity findings));
      cert_expiry = earliest_expiry p.0.certs;
    }

-- `HasAlertable`
unfoldable pub has_alertable : List RecordFinding → Bool
has_alertable fs = any (λ f. is_alert f.severity) fs
  where
    is_alert : Severity → Bool
    is_alert info = false
    is_alert warning = true
    is_alert critical = true
