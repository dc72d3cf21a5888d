-- ===== src/Failover/Ticks.antt =====
-- The file that one tick of the failover daemon leaves (cmd/relayfailoverd/main.go).
use mxsentinel.Prelude.{
  ℕ, ◌≤◌, ◌<◌, ◌≡◌, refl, ◌⊎◌, inl, inr, Bool, Option, none, some, List, [], arith, length,
  length-take_le,
}
use mxsentinel.Prelude.Floats.{FloatOps}
use mxsentinel.Prelude.Text.{Bytes}
use mxsentinel.Failover.Breaker.{Sample, Breaker}
use mxsentinel.Failover.StateFile.{domains_text}
use mxsentinel.Failover.Worker.{
  Effective, Config, World, Answers, resolve_effective, decide, throttled, capped, written, tick,
}

length-capped : (n : ℕ) (ds : List Bytes) → 0 < n → length (capped n ds) ≤ n
unfolding capped
length-capped n ds h = ground (arith, length-take_le n ds)

capped-nil : (n : ℕ) → capped n [] ≡ []
unfolding capped
capped-nil n = ground arith

-- The domains of a decision: none, those configured, or (the query failed) no decision.
decide_domains :
    {F : Type 0} (fl : FloatOps F) (open_secret : Option (Bytes → Option Bytes)) (c : Config F)
    (eff : Effective F) (b : Breaker) (now : ℕ) (stats : Option Sample)
    → let d = (decide fl open_secret c eff b now stats).domains in
      (d ≡ none) ⊎ ((d ≡ some []) ⊎ (d ≡ some eff.domains))
unfolding decide throttled
decide_domains fl open_secret c eff b now stats = ground arith

written_cases :
    (n : ℕ) (old : Bytes) (ok : Bool) (ds : List Bytes) (d : Option (List Bytes))
    → (d ≡ none) ⊎ ((d ≡ some []) ⊎ (d ≡ some ds))
    → (written n old ok d ≡ old)
      ⊎ ((written n old ok d ≡ domains_text []) ⊎ (written n old ok d ≡ domains_text (capped n ds)))
unfolding written
written_cases n old ok ds d h = ground (arith, capped-nil n)

module _ {F : Type 0} (fl : FloatOps F) (open_secret : Option (Bytes → Option Bytes)) (c : Config F)
    (w : World) (a : Answers F) where
  abbrev eff : Effective F
  eff = resolve_effective fl open_secret c a.settings

  -- Where the failover file changes, it lists at most as many domains as the cap allows, all from
  -- the head of the configured domains or none of them.
  pub tick-capped :
      0 < eff.policy.max_domains
      → let w' = tick fl open_secret c w a in
        (w'.domains_file ≡ w.domains_file)
        ⊎ ((ds : List Bytes) × (w'.domains_file ≡ domains_text ds)
            × (length ds ≤ eff.policy.max_domains)
            × ((ds ≡ capped eff.policy.max_domains eff.domains) ⊎ (ds ≡ [])))
  unfolding tick
  tick-capped h =
      elim (written_cases eff.policy.max_domains w.domains_file a.domains_ok eff.domains
        (decide fl open_secret c eff w.breaker a.now a.stats).domains
        (decide_domains fl open_secret c eff w.breaker a.now a.stats)) [
          | inl e ↦ inl e
          | inr (inl e) ↦ inr ([], e, omega arith, inr refl)
          | inr (inr e) ↦ inr (
            capped eff.policy.max_domains eff.domains,
            e,
            length-capped _ eff.domains h,
            inl refl,
          )
        ]
