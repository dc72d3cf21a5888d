-- ===== src/Correlate/RootCause.antt =====
-- internal/correlate/correlate.go: a spike is blamed on a preceding DNS change, if there is one. The
-- texts of the root cause and the remediation are kept as what they are composed of. Times are
-- seconds; `Add(-lookback)` is written on the other side of the comparison.
use mxsentinel.Prelude.{
  ℕ, ◌+◌, Bool, ◌&&◌, ◌||◌, Option, none, some, List, [], ◌∷◌, String, str_eq, ltb, leb, ◌==◌,
  if◌then◌else◌,
}
use mxsentinel.Correlate.Reason.{Reason, auth}
use mxsentinel.Correlate.Aggregator.{Spike, rank_of}

pub record Finding : Type 0 where
  pub category : String
  pub severity : String
  pub code : String

pub record DnsChange : Type 0 where
  pub snapshot_id : String
  pub at : ℕ
  pub findings : List Finding

-- confHigh, confMedium and confLow.
pub data Confidence : Type 0 where
  low medium high : Confidence

-- The three forms of the root cause.
pub data RootCause : Type 0 where
  no_change : RootCause
  authentication_problem : DnsChange → Finding → RootCause
  likely_related : DnsChange → RootCause

-- The remediation is looked up by a finding's code or by the reason.
pub data Remediation : Type 0 where
  for_finding : String → Remediation
  for_reason : Reason → Remediation

pub record Correlation : Type 0 where
  pub spike : Spike
  pub root_cause : RootCause
  pub confidence : Confidence
  pub related_change : Option DnsChange
  pub remediation : Remediation

-- `best == nil || ch.At.After(best.At)`
abbrev later : Option DnsChange → DnsChange → Option DnsChange
later none ch = some ch
later (some best) ch = if ltb best.at ch.at then some ch else some best

-- Neither before `WindowStart - lookback` nor after `WindowEnd`.
abbrev pub in_range : ℕ → ℕ → ℕ → ℕ → Bool
in_range start lookback stop t = leb start (t + lookback) && leb t stop

-- The loop of `mostRecentChangeBefore`.
unfoldable pub most_recent_from : ℕ → ℕ → ℕ → Option DnsChange → List DnsChange → Option DnsChange
most_recent_from start lookback stop best [] = best
most_recent_from start lookback stop best (ch ∷ chs) =
    most_recent_from start lookback stop
      (if in_range start lookback stop ch.at then later best ch else best) chs

unfoldable pub severity_rank : String → ℕ
severity_rank s =
    if str_eq s "info"
    then 1
    else if str_eq s "warning"
    then 2
    else if str_eq s "critical"
    then 3
    else 0

unfoldable pub is_auth_category : String → Bool
is_auth_category c = str_eq c "spf" || (str_eq c "dkim" || str_eq c "dmarc")

abbrev worse : Option Finding → Finding → Option Finding
worse none f = some f
worse (some best) f =
    if ltb (severity_rank best.severity) (severity_rank f.severity) then some f else some best

-- The loop of `mostSevereInCategories`, over the authentication categories.
unfoldable pub most_severe_from : Option Finding → List Finding → Option Finding
most_severe_from best [] = best
most_severe_from best (f ∷ fs) =
    most_severe_from (if is_auth_category f.category then worse best f else best) fs

abbrev is_auth : Reason → Bool
is_auth r = rank_of r == rank_of auth

abbrev first_remedy : List Finding → Reason → Remediation
first_remedy [] r = for_reason r
first_remedy (f ∷ fs) r = for_finding f.code

-- The two outcomes where a change is found.
unfoldable pub blame : Spike → DnsChange → Option Finding → Correlation
blame spike ch none = record {
  spike = spike;
  root_cause = likely_related ch;
  confidence = medium;
  related_change = some ch;
  remediation = first_remedy ch.findings spike.dominant_reason;
}
blame spike ch (some f) = record {
  spike = spike;
  root_cause = authentication_problem ch f;
  confidence = high;
  related_change = some ch;
  remediation = for_finding f.code;
}

unfoldable pub correlate_with : Spike → Option DnsChange → Correlation
unfolding blame
correlate_with spike none = record {
  spike = spike;
  root_cause = no_change;
  confidence = low;
  related_change = none;
  remediation = for_reason spike.dominant_reason;
}
correlate_with spike (some ch) =
    blame spike ch
      (if is_auth spike.dominant_reason then most_severe_from none ch.findings else none)

unfoldable pub correlate : Spike → List DnsChange → ℕ → Correlation
unfolding correlate_with
correlate spike changes lookback =
    correlate_with spike
      (most_recent_from spike.window_start lookback spike.window_end none changes)
