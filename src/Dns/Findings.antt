-- ===== src/Dns/Findings.antt =====
-- internal/dns/findings.go, and the findings on SPF: `evaluateSPF` of internal/dns/spf.go. Messages and
-- details are not modelled. internal/mtasts/findings.go makes the same findings with codes of its own.
use mxsentinel.Prelude.{
  ℕ, Bool, true, false, not, Option, none, some, List, [], ◌∷◌, ◌++◌, ltb, ◌==◌, if◌then◌else◌,
  length, select, any,
}
use mxsentinel.Prelude.Text.{Bytes, codes, bytes_eq, to_lower, has_prefix}
use mxsentinel.Dns.Spf.{
  Resolver, Lookups, is_spf, is_qualifier, strip_qualifier, fields, spf_lookups,
}

pub data Severity : Type 0 where
  info warning critical : Severity

pub data FindingCategory : Type 0 where
  spf dkim dmarc mx mta_sts : FindingCategory

pub data Code : Type 0 where
  spf_missing spf_multiple spf_lookup_limit spf_recursive spf_plus_all spf_no_all : Code
  spf_lookup_failed : Code
  dkim_missing_selector dkim_revoked dkim_weak_key dkim_testing dkim_invalid : Code
  dmarc_missing dmarc_policy_none dmarc_missing_rua dmarc_pct_partial dmarc_invalid : Code
  mx_missing : Code
  txt_missing txt_invalid policy_unreachable policy_invalid mode_not_enforced no_mx_listed : Code
  cert_expired cert_expiring_soon cert_invalid cert_unreachable : Code

pub record RecordFinding : Type 0 where
  pub category : FindingCategory
  pub severity : Severity
  pub code : Code

abbrev pub finding : FindingCategory → Severity → Code → RecordFinding
finding k s c = record { category = k; severity = s; code = c }

-- The map `rank`; no severity counts 0.
unfoldable pub finding_rank : Option Severity → ℕ
finding_rank none = 0
finding_rank (some info) = 1
finding_rank (some warning) = 2
finding_rank (some critical) = 3

unfoldable pub worst_of : Option Severity → List RecordFinding → Option Severity
unfolding finding_rank
worst_of worst [] = worst
worst_of worst (f ∷ fs) =
    worst_of
      (if ltb (finding_rank worst) (finding_rank (some f.severity)) then some f.severity else worst)
      fs

unfoldable pub worst_severity : List RecordFinding → Option Severity
unfolding worst_of
worst_severity fs = worst_of none fs

unfoldable pub is_critical : Option Severity → Bool
is_critical (some critical) = true
is_critical _ = false

abbrev pub when : Bool → RecordFinding → List RecordFinding
when b f = if b then f ∷ [] else []

-- The qualifier of a term, `+` where it has none, and the term without it.
abbrev qualified : Bytes → ℕ × Bytes
qualified [] = (43, [])
qualified (c ∷ t) = if is_qualifier c then (c, t) else (43, c ∷ t)

unfoldable pub all_among : List Bytes → Option ℕ
all_among [] = none
all_among (raw ∷ raws) =
    let rest = all_among raws in
    if bytes_eq (to_lower (qualified raw).1) (codes "all") then some (qualified raw).0 else rest

unfoldable pub all_qualifier : Bytes → Option ℕ
unfolding all_among fields
all_qualifier txt = all_among (fields txt)

unfoldable pub has_redirect : Bytes → Bool
unfolding fields strip_qualifier
has_redirect txt =
    any (λ raw. has_prefix (codes "redirect=") (to_lower (strip_qualifier raw))) (fields txt)

abbrev pub spf_max_lookups : ℕ
spf_max_lookups = 10

abbrev pub walk_findings : Lookups → List RecordFinding
walk_findings l =
    when l.cycle (finding spf critical spf_recursive)
    ++ (when l.failed (finding spf warning spf_lookup_failed)
        ++ when (ltb spf_max_lookups l.count) (finding spf critical spf_lookup_limit))

abbrev pub all_findings : Option ℕ → Bool → List RecordFinding
all_findings (some q) redirects = when (q == 43) (finding spf critical spf_plus_all)
all_findings none redirects = when (not redirects) (finding spf warning spf_no_all)

abbrev pub chosen_spf : Resolver → Bytes → List Bytes → Bytes × List RecordFinding
chosen_spf r domain [] = ([], finding spf warning spf_missing ∷ [])
chosen_spf r domain (t ∷ ts) = (
  t,
  when (ltb 1 (length (t ∷ ts))) (finding spf critical spf_multiple)
      ++ (walk_findings (spf_lookups r 12 domain t [])
          ++ all_findings (all_qualifier t) (has_redirect t)),
)

abbrev pub spf_answer : Resolver → Bytes → Option (List Bytes) → Bytes × List RecordFinding
spf_answer r domain none = ([], finding spf warning spf_lookup_failed ∷ [])
spf_answer r domain (some txts) = chosen_spf r domain (select is_spf txts)

-- The record, empty where there is none, and the findings.
unfoldable pub evaluate_spf : Resolver → Bytes → Bytes × List RecordFinding
unfolding is_spf spf_lookups all_qualifier has_redirect
evaluate_spf r domain = spf_answer r domain (r domain)
