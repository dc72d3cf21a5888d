-- ===== src/AuthWatch/Window.antt =====
-- The window of a credential after an observation, and what a trip rests on
-- (internal/authwatch/detector.go).
use mxsentinel.Prelude.{
  ℕ, ◌+◌, ◌<◌, ◌≡◌, refl, ◌⊎◌, inl, inr, Bool, true, false, Option, none, some, List, [], ◌∷◌,
  arith, String, str_eq, ltb, ltb→lt, Bool-cases, length, select, length-append, All, All-append,
}
use mxsentinel.Prelude.Floats.{FloatOps}
use mxsentinel.Prelude.Assoc.{lookup, string_key, lookup-insert_self, lookup-insert_ne}
use mxsentinel.AuthWatch.Score.{
  Config, Sample, CredWindow, TripDetail, score, bursts, bounces, surges, sends_off_hours,
}
use mxsentinel.AuthWatch.Detector.{
  Observation, Detector, alert, is_cooling, event_time, observe, fold_event, keep_recent,
}

keep_recent-All :
    (window now : ℕ) (ss : List Sample) → All (λ s. now < s.t + window) (keep_recent window now ss)
unfolding keep_recent select
keep_recent-All window now [] = tt
keep_recent-All window now (s ∷ ss) = elim (Bool-cases (ltb now (s.t + window))) [
  | inl e ↦ rw e (ltb→lt _ _ e, keep_recent-All window now ss)
  | inr e ↦ rw e (keep_recent-All window now ss)
]

module _ {F : Type 0} (fl : FloatOps F) (is_zero : F → Bool) (default_alpha one : F)
    (c : Config F) where
  -- After an observation of a named credential, its window holds only samples that are younger than
  -- the configured window, the new event among them.
  pub observe-window :
      (d : Detector F) (o : Observation) (clock : ℕ)
      → 0 < c.window
      → str_eq o.sasl_username "" ≡ false
      → (cw : CredWindow F) × (lookup o.sasl_username
            (observe fl is_zero default_alpha one c d o clock).1.creds
          ≡ some cw)
        × All (λ s. event_time o clock < s.t + c.window) cw.samples
        × (0 < length cw.samples)
  unfolding observe fold_event
  observe-window d o clock w e =
      let now = event_time o clock in
      let cw = fold_event fl is_zero default_alpha one c (lookup o.sasl_username d.creds) o now in
      (
        cw,
        rw e (lookup-insert_self o.sasl_username cw d.creds),
        All-append (λ s. now < s.t + c.window) (keep_recent c.window now _) _
            (keep_recent-All c.window now _) (omega arith, tt),
        rw length-append (omega arith),
      )

  alert-others :
      (alerted : List (String × ℕ)) (user v : String) (cw : CredWindow F)
      (det : Option (TripDetail F)) (now : ℕ)
      → str_eq user v ≡ false
      → lookup v (alert fl is_zero default_alpha one c alerted user cw det now).1 ≡ lookup v alerted
  unfolding alert
  alert-others alerted user v cw none now h = refl
  alert-others alerted user v cw (some det) now h =
      elim (Bool-cases (is_cooling c.cooldown (lookup user alerted) now)) [
        | inl e ↦ rw e
        | inr e ↦ rw e (lookup-insert_ne user v now alerted h)
      ]

  -- An observation leaves the windows and the alert times of all other credentials as they were.
  pub observe-others :
      (d : Detector F) (o : Observation) (clock : ℕ) (v : String)
      → str_eq o.sasl_username v ≡ false
      → let d' = (observe fl is_zero default_alpha one c d o clock).1 in
        (lookup v d'.creds ≡ lookup v d.creds) × (lookup v d'.alerted ≡ lookup v d.alerted)
  unfolding observe
  observe-others d o clock v h = elim (Bool-cases (str_eq o.sasl_username "")) [
    | inl e ↦ rw e (refl, refl)
    | inr e ↦
        let now = event_time o clock in
        let cw = fold_event fl is_zero default_alpha one c (lookup o.sasl_username d.creds) o now in
        rw e (
          lookup-insert_ne o.sasl_username v cw d.creds h,
          alert-others d.alerted o.sasl_username v cw (score fl c cw) now h,
        )
  ]

module _ {F : Type 0} (fl : FloatOps F) (c : Config F) where
  -- A trip has evidence: one of the four signals is present in the window, the summed score is not
  -- below the threshold, the report counts the window's messages, and there is at least one.
  pub score-evidence :
      (cw : CredWindow F) {det : TripDetail F}
      → score fl c cw ≡ some det
      → ((bursts fl c cw.samples ≡ true)
          ⊎ ((bounces fl c cw.samples ≡ true)
              ⊎ ((surges fl c cw.baseline cw.samples ≡ true)
                  ⊎ (sends_off_hours fl c cw.samples ≡ true))))
        × (fl.ltb det.score c.threshold ≡ false)
        × (det.messages ≡ length cw.samples)
        × (0 < det.messages)
  unfolding score
  score-evidence cw h = ground arith
