-- ===== src/MtaSts/Health.antt =====
-- When internal/mtasts/inspect.go calls a domain healthy.
use mxsentinel.Prelude.{
  ℕ, ◌≡◌, refl, ◌∙◌, ◌⊎◌, inl, inr, Bool, true, false, not, ◌&&◌, ◌||◌, Option, none, some, List,
  [], ◌∷◌, ◌++◌, arith, ltb, ◌==◌, if◌then◌else◌, Bool-cases,
}
use mxsentinel.Prelude.Text.{Bytes, codes, is_empty, has_prefix}
use mxsentinel.Dns.Findings.{is_critical, worst_severity}
use mxsentinel.Dns.Calm.{calm, calm-append, worst_of-calm}
use mxsentinel.Dns.Inspect.{first_txt, normal_domain}
use mxsentinel.MtaSts.Policy.{Policy, PolicyError, StsRecord, TxtError, parse_policy, parse_txt}
use mxsentinel.MtaSts.Parsed.{IsUsable, parse_policy-IsUsable}
use mxsentinel.MtaSts.Inspect.{
  CertInfo, Deps, StsState, txt_parsed, inspect_txt, mode_findings, cert_findings, check_certs,
  blank_state, with_policy, with_body, warn_days_of, inspect_sts,
}

-- A certificate that can be read is valid and has not expired.
unfoldable pub cert_ok : ℕ → CertInfo → Bool
cert_ok now i = not (is_empty i.err) || (i.valid && (i.not_after == 0 || not (ltb i.not_after now)))

unfoldable pub hosts_ok : Deps → List Bytes → Bool
unfolding cert_ok
hosts_ok d [] = true
hosts_ok d (host ∷ hosts) =
    let rest = hosts_ok d hosts in
    if has_prefix (codes "*.") host then rest else cert_ok d.now (d.check host) && rest

abbrev policy_ok : Deps → PolicyError ⊎ Policy → Bool
policy_ok d (inl e) = false
policy_ok d (inr p) = hosts_ok d p.mx

-- A policy that is served is well formed, and the certificates of its hosts are good.
abbrev pub body_ok : Deps → Option Bytes → Bool
body_ok d none = true
body_ok d (some body) = policy_ok d (parse_policy body)

calm-txt_parsed : (r : TxtError ⊎ StsRecord) → calm (txt_parsed r).1 ≡ true
unfolding calm is_critical
calm-txt_parsed (inl e) = refl
calm-txt_parsed (inr r) = refl

calm-txt : (txt : Bytes) → calm (inspect_txt txt).1 ≡ true
unfolding calm is_critical inspect_txt
calm-txt txt = elim (Bool-cases (is_empty txt)) [
  | inl e ↦ rw e refl
  | inr e ↦ rw e (calm-txt_parsed (parse_txt txt))
]

-- The finding on missing hosts is not made of a policy that was accepted.
calm-mode : (p : Policy) → IsUsable p → calm (mode_findings p) ≡ true
unfolding calm is_critical mode_findings
calm-mode p u = ground arith

calm-cert :
    (now warn_days : ℕ) (i : CertInfo) → calm (cert_findings now warn_days i) ≡ cert_ok now i
unfolding calm is_critical cert_findings cert_ok
calm-cert now warn_days i = ground arith

calm-certs :
    (d : Deps) (warn_days : ℕ) (hosts : List Bytes)
    → calm (check_certs d warn_days hosts).1 ≡ hosts_ok d hosts
unfolding calm check_certs hosts_ok
calm-certs d warn_days [] = refl
calm-certs d warn_days (host ∷ hosts) = elim (Bool-cases (has_prefix (codes "*.") host)) [
  | inl e ↦ rw e (calm-certs d warn_days hosts)
  | inr e ↦
      rw e rw
        (calm-append (cert_findings d.now warn_days (d.check host))
          (check_certs d warn_days hosts).1)
        rw (calm-cert d.now warn_days (d.check host)) rw (calm-certs d warn_days hosts) refl
]

calm-parsed :
    (d : Deps) (warn_days : ℕ) (s : StsState) (body : Bytes) (r : PolicyError ⊎ Policy)
    → parse_policy body ≡ r
    → calm (with_policy d warn_days s r).1 ≡ policy_ok d r
unfolding calm is_critical
calm-parsed d warn_days s body (inl e) h = refl
calm-parsed d warn_days s body (inr p) h =
    rw (calm-append (mode_findings p) (check_certs d warn_days p.mx).1) rw
      (calm-mode p (parse_policy-IsUsable body p h).0) (calm-certs d warn_days p.mx)

calm-body :
    (d : Deps) (warn_days : ℕ) (s : StsState) (o : Option Bytes)
    → calm (with_body d warn_days s o).1 ≡ body_ok d o
unfolding calm is_critical
calm-body d warn_days s none = refl
calm-body d warn_days s (some body) = calm-parsed d warn_days s body (parse_policy body) refl

-- A domain is healthy exactly when no policy is served, or the one that is served is accepted by the
-- parser and each of its hosts that is no pattern has a certificate that is valid and not expired, as
-- far as it can be read; what the TXT record says does not matter.
pub inspect_sts-healthy :
    (d : Deps) (cert_warn_days : ℕ) (domain : Bytes)
    → (inspect_sts d cert_warn_days domain).healthy ≡ body_ok d (d.fetch (normal_domain domain))
unfolding inspect_sts worst_severity is_critical
inspect_sts-healthy d cert_warn_days domain =
    let name = normal_domain domain in
    let t = inspect_txt (first_txt d.resolver (codes "_mta-sts." ++ name) (codes "v=stsv1")) in
    let p = with_body d (warn_days_of cert_warn_days) (blank_state name t.0) (d.fetch name) in
    worst_of-calm none (t.1 ++ p.1)
    ∙ calm-append t.1 p.1
    ∙ rw (calm-txt (first_txt d.resolver (codes "_mta-sts." ++ name) (codes "v=stsv1")))
        (calm-body d (warn_days_of cert_warn_days) (blank_state name t.0) (d.fetch name))
