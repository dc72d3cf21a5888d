-- ===== src/Failover/Follows.antt =====
-- What the failover daemon does over many ticks (cmd/relayfailoverd/main.go) while the breaker is in
-- charge: its state is that of the breaker alone, and the failover file follows it.
use mxsentinel.Failover.Breaker.{new_breaker}
use mxsentinel.Prelude.{
  ℕ, ◌+◌, ◌<◌, ◌≡◌, refl, sym, ap, ◌∙◌, ◌⊎◌, inl, inr, Bool, true, false, Option, none, some, List,
  [], ◌∷◌, arith, All,
}
use mathlib.Core.Path.{subst}
use mxsentinel.Prelude.Floats.{FloatOps}
use mxsentinel.Prelude.Text.{Bytes, codes, bytes_eq}
use mxsentinel.Failover.Breaker.{opened, Sample, Breaker}
use mxsentinel.Failover.StateFile.{domains_text}
use mxsentinel.Failover.Worker.{
  Effective, Config, World, Answers, Incident, resolve_effective, decide, throttled, capped,
  written, recorded, started, ticks, incident_for, if_open, tick,
}
use mxsentinel.Failover.Runs.{Tick, run, run_holds, IsSound, run-IsSound_new}

abbrev samples_of : ℕ → Option Sample → List Tick → List Tick
samples_of now none rest = rest
samples_of now (some s) rest = record { now = now; sample = s } ∷ rest

-- What the breaker sees of the ticks: nothing of those whose query failed.
unfoldable pub samples : {F : Type 0} → List (Answers F) → List Tick
samples [] = []
samples (a ∷ later) = samples_of a.now a.stats (samples later)

module _ {F : Type 0} (fl : FloatOps F) (open_secret : Option (Bytes → Option Bytes))
    (c : Config F) where
  module _ (eff : Effective F) where
    -- The effective configuration leaves the decision to the breaker, and this tick reads it.
    abbrev pub IsInCharge : Answers F → Type 0
    IsInCharge a =
        (resolve_effective fl open_secret c a.settings ≡ eff)
        × (eff.enabled ≡ true)
        × (bytes_eq eff.mode (codes "always") ≡ false)

    -- The query failed, or the failover file was written.
    abbrev pub IsHarmless : Answers F → Type 0
    IsHarmless a = (a.stats ≡ none) ⊎ (a.domains_ok ≡ true)

    abbrev file_of : Breaker → Bytes
    file_of b = domains_text (capped eff.policy.max_domains (if_open b.state eff.domains))

    tick-throttled :
        (w : World) (a : Answers F)
        → IsInCharge a
        → let d = throttled fl open_secret c eff w.breaker a.now a.stats in
          ((tick fl open_secret c w a).breaker ≡ d.breaker)
          × ((tick fl open_secret c w a).domains_file
              ≡ written eff.policy.max_domains w.domains_file a.domains_ok d.domains)
    unfolding tick decide
    tick-throttled w a h = rw h.0 rw (h.1, h.2) (refl, refl)

    written-follows :
        (w : World) (now : ℕ) (o : Option Sample)
        → w.domains_file ≡ file_of w.breaker
        → let d = throttled fl open_secret c eff w.breaker now o in
          written eff.policy.max_domains w.domains_file true d.domains ≡ file_of d.breaker
    unfolding throttled written
    written-follows w now none e = e
    written-follows w now (some s) e = refl

    -- A tick that is read and written makes the file follow the breaker.
    tick_taken :
        (w : World) (a : Answers F) (s : Sample)
        → IsInCharge a
        → a.stats ≡ some s
        → a.domains_ok ≡ true
        → let w' = tick fl open_secret c w a in w'.domains_file ≡ file_of w'.breaker
    unfolding throttled written
    tick_taken w a s h q k =
        let (b, f) = tick-throttled w a h in f ∙ (rw (q, k) refl ∙ ap file_of (sym b))

    -- A harmless one leaves it so.
    tick_harmless :
        (w : World) (a : Answers F)
        → IsInCharge a
        → IsHarmless a
        → w.domains_file ≡ file_of w.breaker
        → let w' = tick fl open_secret c w a in w'.domains_file ≡ file_of w'.breaker
    unfolding throttled written
    tick_harmless w a h k e =
        let (b, f) = tick-throttled w a h in
        let d = throttled fl open_secret c eff w.breaker a.now a.stats in
        let follows : written eff.policy.max_domains w.domains_file a.domains_ok d.domains
            ≡ file_of d.breaker =
          (elim k [ inl q ↦ rw q e | inr t ↦ rw t (written-follows w a.now a.stats e) ]) in
        f ∙ (follows ∙ ap file_of (sym b))

    ticks_harmless :
        (later : List (Answers F)) (w : World)
        → All IsInCharge later
        → All IsHarmless later
        → w.domains_file ≡ file_of w.breaker
        → let w' = ticks fl open_secret c w later in w'.domains_file ≡ file_of w'.breaker
    unfolding ticks
    ticks_harmless [] w h k e = e
    ticks_harmless (a ∷ later) w h k e =
        ticks_harmless later _ h.1 k.1 (tick_harmless w a h.0 k.0 e)

    throttled_breaker :
        (b : Breaker) (now : ℕ) (o : Option Sample) (rest : List Tick)
        → run fl eff.policy (throttled fl open_secret c eff b now o).breaker rest
          ≡ run fl eff.policy b (samples_of now o rest)
    unfolding throttled run
    throttled_breaker b now none rest = refl
    throttled_breaker b now (some s) rest = refl

    ticks_breaker :
        (all : List (Answers F)) (w : World)
        → All IsInCharge all
        → (ticks fl open_secret c w all).breaker ≡ run fl eff.policy w.breaker (samples all)
    unfolding ticks samples run
    ticks_breaker [] w h = refl
    ticks_breaker (a ∷ later) w h =
        ticks_breaker later _ h.1
        ∙ (ap (λ b. run fl eff.policy b (samples later)) (tick-throttled w a h.0).0
            ∙ throttled_breaker w.breaker a.now a.stats (samples later))

    samples-All :
        (stop : ℕ) (all : List (Answers F))
        → All (λ x. x.now < stop) all
        → All (λ t. t.now < stop) (samples all)
    unfolding samples
    samples-All stop [] h = tt
    samples-All stop (a ∷ later) h =
        before a.now a.stats (samples later) h.0 (samples-All stop later h.1)
      where
        before :
            (now : ℕ) (o : Option Sample) (rest : List Tick)
            → now < stop
            → All (λ t. t.now < stop) rest
            → All (λ t. t.now < stop) (samples_of now o rest)
        before now none rest h hs = hs
        before now (some s) rest h hs = (h, hs)

    -- The same from any state, from the first tick whose query and write both succeed.
    ticks_follow :
        (w : World) (a : Answers F) (s : Sample) (later : List (Answers F))
        → All IsInCharge (a ∷ later)
        → a.stats ≡ some s
        → a.domains_ok ≡ true
        → All IsHarmless later
        → let w' = ticks fl open_secret c w (a ∷ later) in
          (w'.breaker ≡ run fl eff.policy w.breaker (samples (a ∷ later)))
          × (w'.domains_file
              ≡ domains_text (capped eff.policy.max_domains (if_open w'.breaker.state eff.domains)))
    unfolding ticks
    ticks_follow w a s later h q k ok =
        (ticks_breaker (a ∷ later) w h, ticks_harmless later _ h.1 ok (tick_taken w a s h.0 q k))

    -- From an open breaker, while the effective configuration leaves the decision to it: after a tick
    -- whose query and write both succeed and any further ticks, all of them in the hold time and none
    -- with a query that succeeds and a write that fails, the breaker is as it was and the failover file
    -- lists the capped domains, whatever the samples say and whichever queries fail.
    pub ticks_hold :
        (w : World) (a : Answers F) (s : Sample) (later : List (Answers F))
        → w.breaker.state ≡ opened
        → All IsInCharge (a ∷ later)
        → All (λ x. x.now < w.breaker.opened_at + eff.policy.hold_for) (a ∷ later)
        → a.stats ≡ some s
        → a.domains_ok ≡ true
        → All IsHarmless later
        → let w' = ticks fl open_secret c w (a ∷ later) in
          (w'.breaker ≡ w.breaker)
          × (w'.domains_file ≡ domains_text (capped eff.policy.max_domains eff.domains))
    ticks_hold w a s later o h t q k ok =
        let (b, f) = ticks_follow w a s later h q k ok in
        let kept =
          b
          ∙ run_holds fl eff.policy w.breaker (samples (a ∷ later)) o
              (samples-All (w.breaker.opened_at + eff.policy.hold_for) (a ∷ later) t) in
        (
          kept,
          f
              ∙ (ap file_of kept
                  ∙ ap (λ st. domains_text (capped eff.policy.max_domains (if_open st eff.domains)))
                      o),
        )

    closed_file : (w : World) → (started true w).domains_file ≡ file_of (started true w).breaker
    unfolding started new_breaker capped
    closed_file w = ground arith

    -- The daemon starts with a closed breaker and has written an empty failover file. While the
    -- effective configuration leaves the decision to the breaker and no write of the file fails in a
    -- tick whose query succeeds: after any ticks, the breaker is in the state that the samples of the
    -- ticks whose query succeeded give it on its own, the file lists the capped domains if it is open
    -- and no domain if it is closed, and it is open only on a remembered sample that warranted it. So
    -- a failed query moves neither.
    pub daemon_follows :
        (w : World) (all : List (Answers F))
        → All IsInCharge all
        → All IsHarmless all
        → let w' = ticks fl open_secret c (started true w) all in
          (w'.breaker ≡ run fl eff.policy new_breaker (samples all))
          × (w'.domains_file
              ≡ domains_text (capped eff.policy.max_domains (if_open w'.breaker.state eff.domains)))
          × IsSound fl eff.policy w'.breaker
    unfolding started
    daemon_follows w all h ok =
        let same = ticks_breaker all (started true w) h in
        (
          same,
          ticks_harmless all (started true w) h ok (closed_file w),
          subst (IsSound fl eff.policy) (sym same) (run-IsSound_new fl eff.policy (samples all)),
        )

  throttled-incident :
      (eff : Effective F) (log : List Incident) (b : Breaker) (now : ℕ) (ok : Bool)
      (o : Option Sample)
      → recorded log ok (throttled fl open_secret c eff b now o).incident ≡ log
  unfolding throttled recorded incident_for mxsentinel.Incidents.Storing.is_severity
  throttled-incident eff log b now ok none = refl
  throttled-incident eff log b now ok (some s) = ground arith

  tick-incidents : (w : World) (a : Answers F) → (tick fl open_secret c w a).incidents ≡ w.incidents
  unfolding tick decide recorded
  tick-incidents w a =
      let eff = resolve_effective fl open_secret c a.settings in
      ground (arith, throttled-incident eff w.incidents w.breaker a.now a.incident_ok a.stats)

  -- No tick records an incident, whether or not it trips the breaker and whatever the database does:
  -- the severity of a failover's incident is no value of the column's enum.
  pub ticks-incidents :
      (all : List (Answers F)) (w : World) → (ticks fl open_secret c w all).incidents ≡ w.incidents
  unfolding ticks
  ticks-incidents [] w = refl
  ticks-incidents (a ∷ later) w = ticks-incidents later _ ∙ tick-incidents w a
