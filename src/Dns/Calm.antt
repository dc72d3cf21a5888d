-- ===== src/Dns/Calm.antt =====
-- Lists of findings without a critical one, and `worstSeverity` of internal/dns/findings.go.
use mxsentinel.Prelude.{
  ◌≡◌, refl, sym, ap, ◌∙◌, Bool, true, false, not, ◌&&◌, Option, none, some, List, [], ◌∷◌, ◌++◌,
  arith, ltb, if◌then◌else◌,
}
use mxsentinel.Prelude.Assoc.{bytes_key}
use mxsentinel.Dns.Findings.{
  Severity, info, warning, critical, RecordFinding, when, finding_rank, worst_of, is_critical,
}

-- No finding is critical.
unfoldable pub calm : List RecordFinding → Bool
unfolding is_critical
calm [] = true
calm (f ∷ fs) = not (is_critical (some f.severity)) && calm fs

&&-assoc : (a b c : Bool) → (a && b) && c ≡ a && (b && c)
&&-assoc true b c = refl
&&-assoc false b c = refl

pub calm-append : (fs gs : List RecordFinding) → calm (fs ++ gs) ≡ calm fs && calm gs
unfolding calm
calm-append [] gs = refl
calm-append (f ∷ fs) gs =
    ap (λ b. not (is_critical (some f.severity)) && b) (calm-append fs gs)
    ∙ sym (&&-assoc (not (is_critical (some f.severity))) (calm fs) (calm gs))

pub calm-when :
    (b : Bool) (f : RecordFinding) → calm (when b f) ≡ not (b && is_critical (some f.severity))
unfolding calm
calm-when true f = ground arith
calm-when false f = refl

abbrev raised : Option Severity → Severity → Option Severity
raised worst s = if ltb (finding_rank worst) (finding_rank (some s)) then some s else worst

raised-is_critical :
    (worst : Option Severity) (s : Severity)
    → not (is_critical (raised worst s)) ≡ not (is_critical worst) && not (is_critical (some s))
unfolding finding_rank is_critical
raised-is_critical none info = refl
raised-is_critical none warning = refl
raised-is_critical none critical = refl
raised-is_critical (some info) info = refl
raised-is_critical (some info) warning = refl
raised-is_critical (some info) critical = refl
raised-is_critical (some warning) info = refl
raised-is_critical (some warning) warning = refl
raised-is_critical (some warning) critical = refl
raised-is_critical (some critical) info = refl
raised-is_critical (some critical) warning = refl
raised-is_critical (some critical) critical = refl

pub worst_of-calm :
    (worst : Option Severity) (fs : List RecordFinding)
    → not (is_critical (worst_of worst fs)) ≡ not (is_critical worst) && calm fs
unfolding worst_of calm
worst_of-calm worst [] = ground (arith)
worst_of-calm worst (f ∷ fs) =
    worst_of-calm (raised worst f.severity) fs
    ∙ ap (λ b. b && calm fs) (raised-is_critical worst f.severity)
    ∙ &&-assoc (not (is_critical worst)) (not (is_critical (some f.severity))) (calm fs)
