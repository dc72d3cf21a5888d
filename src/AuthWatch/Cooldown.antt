-- ===== src/AuthWatch/Cooldown.antt =====
-- Trips of one credential over time (internal/authwatch/detector.go): observations and prunings in
-- any order, as the daemon makes them.
use mxsentinel.Prelude.{
  ℕ, ◌+◌, ◌≤◌, ◌≡◌, refl, sym, ap, ◌∙◌, ◌⊎◌, inl, inr, Bool, true, false, ◌&&◌, Option, none, some,
  List, [], ◌∷◌, arith, String, str_eq, eq_iff, leb, if◌then◌else◌, Bool-cases,
}
use mxsentinel.Prelude.Floats.{FloatOps}
use mxsentinel.Prelude.Assoc.{
  lookup, insert, retain, string_key, lookup-insert_self, lookup-insert_ne, IsMap, IsMap-insert,
  IsMap-retain, lookup-retain, lookup-retain_keep,
}
use mxsentinel.AuthWatch.Score.{Config, CredWindow, TripDetail, score}
use mxsentinel.AuthWatch.Detector.{
  Observation, Detector, new_detector, is_cooling, alert, event_time, observe, prune, fold_event,
}

pub data Event : Type 0 where
  observed : Observation → ℕ → Event
  pruned : ℕ → Event

abbrev pub time_of : Event → ℕ
time_of (observed o clock) = event_time o clock
time_of (pruned now) = now

-- Each event is at or after the one before it.
abbrev pub InOrder : ℕ → List Event → Type 0
InOrder t [] = Unit
InOrder t (ev ∷ evs) = (t ≤ time_of ev) × InOrder (time_of ev) evs

-- The gap after an earlier time, if there is one.
abbrev pub IsApart : ℕ → Option ℕ → ℕ → Type 0
IsApart gap none t = Unit
IsApart gap (some last) t = last + gap ≤ t

-- Consecutive times are at least the gap apart.
abbrev pub Spaced : ℕ → Option ℕ → List ℕ → Type 0
Spaced gap last [] = Unit
Spaced gap last (t ∷ ts) = IsApart gap last t × Spaced gap (some t) ts

module _ {F : Type 0} (fl : FloatOps F) (is_zero : F → Bool) (default_alpha one : F) (c : Config F)
    (u : String) where
  unfoldable pub step : Detector F → Event → Detector F
  step d (observed o clock) = (observe fl is_zero default_alpha one c d o clock).1
  step d (pruned now) = prune fl is_zero default_alpha one c d now

  -- The time of the trip that the event causes for the credential, if it does.
  unfoldable pub trip_of : Detector F → Event → Option ℕ
  trip_of d (observed o clock) =
      if str_eq o.sasl_username u && (observe fl is_zero default_alpha one c d o clock).0.tripped
      then some (event_time o clock)
      else none
  trip_of d (pruned now) = none

  abbrev cons_some : Option ℕ → List ℕ → List ℕ
  cons_some none ts = ts
  cons_some (some t) ts = t ∷ ts

  unfoldable pub trips : Detector F → List Event → List ℕ
  trips d [] = []
  trips d (ev ∷ evs) = cons_some (trip_of d ev) (trips (step d ev) evs)

  -- What the detector still knows of the last trip: its time, or, once that is pruned, nothing, when
  -- the cooldown is over.
  abbrev Knows : Option ℕ → Detector F → ℕ → Type 0
  Knows none d t = lookup u d.alerted ≡ none
  Knows (some last) d t =
      (lookup u d.alerted ≡ some last) ⊎ ((lookup u d.alerted ≡ none) × (last + c.cooldown ≤ t))

  alert_cases :
      (alerted : List (String × ℕ)) (user : String) (cw : CredWindow F)
      (det : Option (TripDetail F)) (now : ℕ)
      → let (out, alerted') = alert fl is_zero default_alpha one c alerted user cw det now in
        ((out.tripped ≡ false) × (alerted' ≡ alerted))
        ⊎ ((out.tripped ≡ true)
            × (alerted' ≡ insert user now alerted)
            × (is_cooling c.cooldown (lookup user alerted) now ≡ false))
  unfolding alert
  alert_cases alerted user cw det now = ground arith

  -- An observation leaves the alert times as they were, or trips its credential.
  observe_cases :
      (d : Detector F) (o : Observation) (clock : ℕ)
      → let (out, d') = observe fl is_zero default_alpha one c d o clock in
        ((out.tripped ≡ false) × (d'.alerted ≡ d.alerted))
        ⊎ ((out.tripped ≡ true)
            × (d'.alerted ≡ insert o.sasl_username (event_time o clock) d.alerted)
            × (is_cooling c.cooldown (lookup o.sasl_username d.alerted) (event_time o clock)
                ≡ false))
  unfolding observe
  observe_cases d o clock = elim (Bool-cases (str_eq o.sasl_username "")) [
    | inl e ↦ rw e (inl (refl, refl))
    | inr e ↦
        let cw =
          fold_event fl is_zero default_alpha one c (lookup o.sasl_username d.creds) o
            (event_time o clock) in
        rw e (alert_cases d.alerted o.sasl_username cw (score fl c cw) (event_time o clock))
  ]

  not_cooling :
      (last now : ℕ) → is_cooling c.cooldown (some last) now ≡ false → last + c.cooldown ≤ now
  unfolding is_cooling
  not_cooling last now h = ground arith

  trip_lookup :
      (d d' : Detector F) (user : String) (now : ℕ)
      → d'.alerted ≡ insert user now d.alerted
      → str_eq user u ≡ true
      → lookup u d'.alerted ≡ some now
  trip_lookup d d' user now e h = rw (e, (eq_iff user u).0 h) (lookup-insert_self u now d.alerted)

  other_lookup :
      (d d' : Detector F) (user : String) (now : ℕ)
      → d'.alerted ≡ insert user now d.alerted
      → str_eq user u ≡ false
      → lookup u d'.alerted ≡ lookup u d.alerted
  other_lookup d d' user now e h = rw e (lookup-insert_ne user u now d.alerted h)

  Knows-at :
      (last : Option ℕ) (d d' : Detector F) (t t' : ℕ)
      → lookup u d'.alerted ≡ lookup u d.alerted
      → t ≤ t'
      → Knows last d t
      → Knows last d' t'
  Knows-at none d d' t t' e h k = e ∙ k
  Knows-at (some l) d d' t t' e h (inl k) = inl (e ∙ k)
  Knows-at (some l) d d' t t' e h (inr k) = inr (e ∙ k.0, omega arith)

  apart :
      (last : Option ℕ) (d : Detector F) (t now : ℕ)
      → Knows last d t
      → t ≤ now
      → is_cooling c.cooldown (lookup u d.alerted) now ≡ false
      → IsApart c.cooldown last now
  apart none d t now k h n = tt
  apart (some l) d t now (inl k) h n = not_cooling l now (rw k at n)
  apart (some l) d t now (inr k) h n = omega arith

  -- What an event does to the trips of the credential and to what the detector knows.
  abbrev Keeps : Option ℕ → Detector F → Event → ℕ → Type 0
  Keeps last d ev t =
      ((trip_of d ev ≡ none) × Knows last (step d ev) t)
      ⊎ ((trip_of d ev ≡ some t) × IsApart c.cooldown last t × Knows (some t) (step d ev) t)

  observed-Keeps :
      (last : Option ℕ) (d : Detector F) (o : Observation) (clock t : ℕ)
      → t ≤ event_time o clock
      → Knows last d t
      → Keeps last d (observed o clock) (event_time o clock)
  unfolding step trip_of
  observed-Keeps last d o clock t h k = elim (observe_cases d o clock) [
    | inl q ↦ inl (
      rw q.0 (and_false (str_eq o.sasl_username u)),
      Knows-at last d _ t _ (ap (lookup u) q.1) h k,
    )
    | inr q ↦ elim (Bool-cases (str_eq o.sasl_username u)) [
      | inl s ↦
          let user_is : o.sasl_username ≡ u = (eq_iff o.sasl_username u).0 s in
          inr (
            rw (s, q.0),
            apart last d t (event_time o clock) k h (
                ap (λ x. is_cooling c.cooldown (lookup x d.alerted) (event_time o clock))
                  (sym user_is)
                ∙ q.2),
            inl (
                trip_lookup d (observe fl is_zero default_alpha one c d o clock).1 o.sasl_username
                  (event_time o clock) q.1 s),
          )
      | inr s ↦ inl (
        rw s,
        Knows-at last d _ t _
            (other_lookup d (observe fl is_zero default_alpha one c d o clock).1 o.sasl_username
              (event_time o clock) q.1 s)
            h k,
      )
    ]
  ]
    where
      and_false : (b : Bool) → (if b && false then some (event_time o clock) else none) ≡ none
      and_false true = refl
      and_false false = refl

  prune_lookup :
      (d : Detector F) (now : ℕ)
      → IsMap d.alerted
      → (last : Option ℕ) (t : ℕ) → t ≤ now
      → Knows last d t
      → Knows last (prune fl is_zero default_alpha one c d now) now
  unfolding prune
  prune_lookup d now m none t h k =
      gone (lookup u (retain (λ user x. leb now (x + c.cooldown)) d.alerted)) refl
    where
      gone :
          (o : Option ℕ)
          → lookup u (retain (λ user x. leb now (x + c.cooldown)) d.alerted) ≡ o
          → lookup u (retain (λ user x. leb now (x + c.cooldown)) d.alerted) ≡ none
      gone none e = e
      gone (some v) e =
          absurd (cc ((lookup-retain (λ user x. leb now (x + c.cooldown)) u v d.alerted m e).0, k))
  prune_lookup d now m (some l) t h k =
      kept (lookup u (retain (λ user x. leb now (x + c.cooldown)) d.alerted)) refl
    where
      kept :
          (o : Option ℕ)
          → lookup u (retain (λ user x. leb now (x + c.cooldown)) d.alerted) ≡ o
          → Knows (some l) (prune fl is_zero default_alpha one c d now) now
      kept (some v) e =
          let found = lookup-retain (λ user x. leb now (x + c.cooldown)) u v d.alerted m e in
          elim k [ inl q ↦ inl (e ∙ sym found.0 ∙ q) | inr q ↦ absurd (cc (found.0, q.0)) ]
      kept none e = elim k [
        | inl q ↦ elim (Bool-cases (leb now (l + c.cooldown))) [
          | inl y ↦
              absurd
                (cc (lookup-retain_keep (λ user x. leb now (x + c.cooldown)) u l d.alerted q y, e))
          | inr y ↦ inr (e, ground arith)
        ]
        | inr q ↦ inr (e, omega arith)
      ]

  step-IsMap : (d : Detector F) (ev : Event) → IsMap d.alerted → IsMap (step d ev).alerted
  unfolding step prune
  step-IsMap d (observed o clock) m = elim (observe_cases d o clock) [
    | inl q ↦ rw q.1 m
    | inr q ↦ rw q.1 (IsMap-insert o.sasl_username (event_time o clock) d.alerted m)
  ]
  step-IsMap d (pruned now) m = IsMap-retain (λ user x. leb now (x + c.cooldown)) d.alerted m

  step-Keeps :
      (last : Option ℕ) (d : Detector F) (ev : Event) (t : ℕ)
      → t ≤ time_of ev
      → IsMap d.alerted
      → Knows last d t
      → Keeps last d ev (time_of ev)
  unfolding step trip_of
  step-Keeps last d (observed o clock) t h m k = observed-Keeps last d o clock t h k
  step-Keeps last d (pruned now) t h m k = inl (refl, prune_lookup d now m last t h k)

  trips-Spaced_from :
      (last : Option ℕ) (d : Detector F) (t : ℕ) (evs : List Event)
      → IsMap d.alerted
      → Knows last d t
      → InOrder t evs
      → Spaced c.cooldown last (trips d evs)
  unfolding trips
  trips-Spaced_from last d t [] m k o = tt
  trips-Spaced_from last d t (ev ∷ evs) m k o = elim (step-Keeps last d ev t o.0 m k) [
    | inl q ↦
        rw q.0 (trips-Spaced_from last (step d ev) (time_of ev) evs (step-IsMap d ev m) q.1 o.1)
    | inr q ↦ rw q.0 (
      q.1,
      trips-Spaced_from (some (time_of ev)) (step d ev) (time_of ev) evs (step-IsMap d ev m) q.2
          o.1,
    )
  ]

  -- Over any sequence of observations (of all credentials) and prunings, in the order of their
  -- times, the trips of one credential are at least the cooldown apart, whatever is observed and
  -- though pruning forgets old trips.
  pub trips-Spaced :
      (evs : List Event) → InOrder 0 evs → Spaced c.cooldown none (trips (new_detector F) evs)
  unfolding new_detector lookup
  trips-Spaced evs o = trips-Spaced_from none (new_detector F) 0 evs tt refl o
