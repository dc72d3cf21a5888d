-- ===== src/Correlate/Blame.antt =====
-- Which change a spike is blamed on, and with what confidence (internal/correlate/correlate.go).
use mxsentinel.Prelude.{
  ℕ, ◌≤◌, ◌≡◌, refl, ap, ◌⊎◌, inl, inr, true, false, Option, none, some, List, [], ◌∷◌, arith, ltb,
  ◌==◌, ltb→lt, ==→eq, ==_refl, Bool-cases, All,
}
use mathlib.Core.List.{Memᴰ}
use mathlib.Core.Path.{subst}
use mxsentinel.Correlate.Reason.{auth}
use mxsentinel.Correlate.Aggregator.{Spike, rank_of, rank_of_injective}
use mxsentinel.Correlate.Latest.{IsLatest, most_recent_IsLatest}
use mxsentinel.Correlate.RootCause.{
  Finding, DnsChange, low, medium, high, no_change, likely_related, authentication_problem,
  for_reason, for_finding, Correlation, severity_rank, is_auth_category, most_severe_from, blame,
  correlate_with, correlate,
}

-- A worst finding: one of the authentication categories, with no worse one among the findings.
abbrev pub IsWorst : List Finding → Finding → Type 0
IsWorst fs f =
    Memᴰ f fs
    × (is_auth_category f.category ≡ true)
    × All
        (λ g.
          is_auth_category g.category ≡ true → severity_rank g.severity ≤ severity_rank f.severity)
        fs

most_severe_some :
    (best : Finding) (fs : List Finding)
    → is_auth_category best.category ≡ true
    → (f : Finding) × (most_severe_from (some best) fs ≡ some f)
      × ((f ≡ best) ⊎ Memᴰ f fs)
      × (is_auth_category f.category ≡ true)
      × (severity_rank best.severity ≤ severity_rank f.severity)
      × All
          (λ g.
            is_auth_category g.category ≡ true
            → severity_rank g.severity ≤ severity_rank f.severity)
          fs
unfolding most_severe_from
most_severe_some best [] h = (best, refl, inl refl, h, omega arith, tt)
most_severe_some best (g ∷ fs) h = elim (Bool-cases (is_auth_category g.category)) [
  | inl e ↦ elim (Bool-cases (ltb (severity_rank best.severity) (severity_rank g.severity))) [
    | inl l ↦
        let (f, q, m, r, le, all) = most_severe_some g fs e in
        (
          f,
          rw (e, l) q,
          inr (elim m [ inl s ↦ Memᴰ.head s | inr s ↦ Memᴰ.tail s ]),
          r,
          omega (arith, ltb→lt _ _ l),
          (λ _. le, all),
        )
    | inr l ↦
        let (f, q, m, r, le, all) = most_severe_some best fs h in
        (
          f,
          rw (e, l) q,
          elim m [ inl s ↦ inl s | inr s ↦ inr (Memᴰ.tail s) ],
          r,
          le,
          (λ _. ground arith, all),
        )
  ]
  | inr e ↦
      let (f, q, m, r, le, all) = most_severe_some best fs h in
      (
        f,
        rw e q,
        elim m [ inl s ↦ inl s | inr s ↦ inr (Memᴰ.tail s) ],
        r,
        le,
        (λ t. absurd (cc (e, t)), all),
      )
]

most_severe_IsWorst :
    (fs : List Finding) (f : Finding) → most_severe_from none fs ≡ some f → IsWorst fs f
unfolding most_severe_from
most_severe_IsWorst [] f h = absurd (cc)
most_severe_IsWorst (g ∷ fs) f h = elim (Bool-cases (is_auth_category g.category)) [
  | inl e ↦
      let (x, q, m, r, le, all) = most_severe_some g fs e in
      let found : most_severe_from (some g) fs ≡ some f = (rw e at h) in
      let same : x ≡ f = cc (q, found) in
      subst (IsWorst (g ∷ fs)) same
        (elim m [ inl s ↦ Memᴰ.head s | inr s ↦ Memᴰ.tail s ], r, (λ _. le, all))
  | inr e ↦
      let w = most_severe_IsWorst fs f (rw e at h) in
      (Memᴰ.tail w.0, w.1, (λ t. absurd (cc (e, t)), w.2))
]

none_severe :
    (fs : List Finding)
    → most_severe_from none fs ≡ none
    → All (λ f. is_auth_category f.category ≡ false) fs
unfolding most_severe_from
none_severe [] h = tt
none_severe (g ∷ fs) h = elim (Bool-cases (is_auth_category g.category)) [
  | inl e ↦
      let (x, q, m, r, le, all) = most_severe_some g fs e in
      let found : most_severe_from (some g) fs ≡ none = (rw e at h) in absurd (cc (q, found))
  | inr e ↦ (e, none_severe fs (rw e at h))
]

-- What a correlation claims, in each of the three cases.
abbrev pub IsUnexplained : Spike → Correlation → Type 0
IsUnexplained spike r =
    (r.confidence ≡ low)
    × (r.related_change ≡ none)
    × (r.root_cause ≡ no_change)
    × (r.remediation ≡ for_reason spike.dominant_reason)

-- No authentication problem: the spike has another reason, or the change has no such finding.
abbrev pub IsRelated : Spike → Correlation → DnsChange → Type 0
IsRelated spike r ch =
    (r.confidence ≡ medium)
    × (r.related_change ≡ some ch)
    × (r.root_cause ≡ likely_related ch)
    × (spike.dominant_reason ≡ auth → All (λ f. is_auth_category f.category ≡ false) ch.findings)

abbrev pub IsProblem : Spike → Correlation → DnsChange → Finding → Type 0
IsProblem spike r ch f =
    (r.confidence ≡ high)
    × (r.related_change ≡ some ch)
    × (r.root_cause ≡ authentication_problem ch f)
    × (r.remediation ≡ for_finding f.code)
    × (spike.dominant_reason ≡ auth)
    × IsWorst ch.findings f

abbrev pub IsJustified : Spike → Correlation → Type 0
IsJustified spike r =
    IsUnexplained spike r
    ⊎ (((ch : DnsChange) × IsRelated spike r ch)
        ⊎ ((ch : DnsChange) × (f : Finding) × IsProblem spike r ch f))

blame-IsJustified :
    (spike : Spike) (ch : DnsChange) (o : Option Finding)
    → most_severe_from none ch.findings ≡ o
    → spike.dominant_reason ≡ auth
    → IsJustified spike (blame spike ch o)
unfolding blame
blame-IsJustified spike ch none h a =
    inr (inl (ch, (refl, refl, refl, λ _. none_severe ch.findings h)))
blame-IsJustified spike ch (some f) h a =
    inr (inr (ch, f, (refl, refl, refl, refl, a, most_severe_IsWorst ch.findings f h)))

correlate_with-IsJustified :
    (spike : Spike) (o : Option DnsChange) → IsJustified spike (correlate_with spike o)
unfolding correlate_with blame
correlate_with-IsJustified spike none = inl (refl, refl, refl, refl)
correlate_with-IsJustified spike (some ch) =
    elim (Bool-cases (rank_of spike.dominant_reason == rank_of auth)) [
      | inl e ↦ rw e (
          blame-IsJustified spike ch (most_severe_from none ch.findings) refl (
            rank_of_injective spike.dominant_reason auth
              (==→eq (rank_of spike.dominant_reason) (rank_of auth) e)))
      | inr e ↦ rw e (
          inr (
            inl (
              ch,
              (
                refl,
                refl,
                refl,
                λ a. absurd (cc (e, ap (λ r. rank_of r == rank_of auth) a, ==_refl (rank_of auth))),
              ),
            )))
    ]

correlate_with-related :
    (spike : Spike) (o : Option DnsChange) → (correlate_with spike o).related_change ≡ o
unfolding correlate_with blame
correlate_with-related spike none = refl
correlate_with-related spike (some ch) = ground arith

-- A spike is blamed on a latest DNS change between the lookback before its start and its end. With
-- no such change the confidence is low and the root cause says that there is none. With one, where
-- the dominant reason is authentication and the change has a finding in an authentication category,
-- the confidence is high, and the root cause and the remediation are those of such a finding that no
-- other exceeds in severity; in every other case the confidence is medium and the root cause only
-- names the change.
pub correlate-IsJustified :
    (spike : Spike) (changes : List DnsChange) (lookback : ℕ)
    → let r = correlate spike changes lookback in
      IsLatest spike.window_start lookback spike.window_end changes r.related_change
      × IsJustified spike r
unfolding correlate
correlate-IsJustified spike changes lookback = (
  rw correlate_with-related
      (most_recent_IsLatest spike.window_start lookback spike.window_end changes),
  correlate_with-IsJustified spike _,
)
