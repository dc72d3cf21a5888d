-- ===== src/Correlate/Latest.antt =====
-- The change that `mostRecentChangeBefore` of internal/correlate/correlate.go finds.
use mxsentinel.Prelude.{
  ℕ, ◌≤◌, ◌≡◌, refl, ◌⊎◌, inl, inr, true, false, Option, none, some, List, [], ◌∷◌, arith, ltb,
  ltb→lt, Bool-cases, All,
}
use mathlib.Core.List.{Memᴰ}
use mxsentinel.Correlate.RootCause.{DnsChange, in_range, most_recent_from}

-- What the loop has found: among the changes so far, one in range that no other in range is later than.
abbrev pub IsLatest : ℕ → ℕ → ℕ → List DnsChange → Option DnsChange → Type 0
IsLatest start lookback stop chs none = All (λ c. in_range start lookback stop c.at ≡ false) chs
IsLatest start lookback stop chs (some ch) =
    Memᴰ ch chs
    × (in_range start lookback stop ch.at ≡ true)
    × All (λ c. in_range start lookback stop c.at ≡ true → c.at ≤ ch.at) chs

module _ (start lookback stop : ℕ) where
  most_recent_some :
      (best : DnsChange) (chs : List DnsChange)
      → in_range start lookback stop best.at ≡ true
      → (ch : DnsChange) × (most_recent_from start lookback stop (some best) chs ≡ some ch)
        × ((ch ≡ best) ⊎ Memᴰ ch chs)
        × (in_range start lookback stop ch.at ≡ true)
        × (best.at ≤ ch.at)
        × All (λ c. in_range start lookback stop c.at ≡ true → c.at ≤ ch.at) chs
  unfolding most_recent_from
  most_recent_some best [] h = (best, refl, inl refl, h, omega arith, tt)
  most_recent_some best (c ∷ chs) h = elim (Bool-cases (in_range start lookback stop c.at)) [
    | inl e ↦ elim (Bool-cases (ltb best.at c.at)) [
      | inl l ↦
          let (ch, q, m, r, le, all) = most_recent_some c chs e in
          (
            ch,
            rw (e, l) q,
            inr (elim m [ inl s ↦ Memᴰ.head s | inr s ↦ Memᴰ.tail s ]),
            r,
            omega (arith, ltb→lt best.at c.at l),
            (λ _. le, all),
          )
      | inr l ↦
          let (ch, q, m, r, le, all) = most_recent_some best chs h in
          (
            ch,
            rw (e, l) q,
            elim m [ inl s ↦ inl s | inr s ↦ inr (Memᴰ.tail s) ],
            r,
            le,
            (λ _. ground arith, all),
          )
    ]
    | inr e ↦
        let (ch, q, m, r, le, all) = most_recent_some best chs h in
        (ch, rw e q, elim m [ inl s ↦ inl s | inr s ↦ inr (Memᴰ.tail s) ], r, le, (λ t. cc, all))
  ]

  IsLatest-skip :
      (c : DnsChange) (chs : List DnsChange) (r : Option DnsChange)
      → in_range start lookback stop c.at ≡ false
      → IsLatest start lookback stop chs r
      → IsLatest start lookback stop (c ∷ chs) r
  IsLatest-skip c chs none e h = (e, h)
  IsLatest-skip c chs (some ch) e h = (Memᴰ.tail h.0, h.1, (λ t. absurd (cc (e, t)), h.2))

  pub most_recent_IsLatest :
      (chs : List DnsChange)
      → IsLatest start lookback stop chs (most_recent_from start lookback stop none chs)
  unfolding most_recent_from
  most_recent_IsLatest [] = tt
  most_recent_IsLatest (c ∷ chs) = elim (Bool-cases (in_range start lookback stop c.at)) [
    | inl e ↦
        let (ch, q, m, r, le, all) = most_recent_some c chs e in
        rw (e, q) (elim m [ inl s ↦ Memᴰ.head s | inr s ↦ Memᴰ.tail s ], r, (λ _. le, all))
    | inr e ↦ rw e (IsLatest-skip c chs _ e (most_recent_IsLatest chs))
  ]
