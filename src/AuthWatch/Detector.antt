-- ===== src/AuthWatch/Detector.antt =====
-- internal/authwatch/detector.go: `Observe`, `maybeRollBaseline` and `Prune`. `now.Sub(t) < d` is
-- written `now < t + d`, and `t.After(now.Add(-w))` is `now < t + w`, the same on the integers.
use mxsentinel.Prelude.{
  ℕ, ◌+◌, ◌*◌, Bool, true, false, ◌&&◌, ◌||◌, Option, none, some, List, [], ◌∷◌, ◌++◌, String,
  str_eq, ltb, leb, ◌==◌, if◌then◌else◌, length, select,
}
use mxsentinel.Prelude.Floats.{FloatOps}
use mxsentinel.Prelude.Assoc.{lookup, insert, retain, string_key}
use mxsentinel.AuthWatch.Score.{
  Config, Sample, CredWindow, TripDetail, is_off_hours, hour_of, score,
}

pub record Observation : Type 0 where
  pub tenant_id : String
  pub sasl_username : String
  pub from_domain : String
  pub recipient_domain : String
  pub abuse : Bool
  pub at : ℕ  -- 0 is the zero time

pub record Detector (F : Type 0) : Type 0 where
  pub creds : List (String × CredWindow F)
  pub alerted : List (String × ℕ)

unfoldable pub new_detector : (F : Type 0) → Detector F
new_detector F = record { creds = []; alerted = [] }

-- `detail, tenant, domain, tripped`
pub record Outcome (F : Type 0) : Type 0 where
  pub detail : Option (TripDetail F)
  pub tenant : String
  pub domain : String
  pub tripped : Bool

-- Samples younger than the window.
unfoldable pub keep_recent : ℕ → ℕ → List Sample → List Sample
keep_recent window now ss = select (λ s. ltb now (s.t + window)) ss

-- The samples of the elapsed period: at most one window before the last roll, and not after it.
unfoldable pub period_volume : ℕ → ℕ → List Sample → ℕ
period_volume window last_roll ss =
    length (select (λ s. ltb last_roll (s.t + window) && leb s.t last_roll) ss)

-- `seen && now.Sub(last) < Cooldown`
unfoldable pub is_cooling : ℕ → Option ℕ → ℕ → Bool
is_cooling cooldown none now = false
is_cooling cooldown (some last) now = ltb now (last + cooldown)

-- `clock` is `time.Now()`, which replaces a zero time.
abbrev pub event_time : Observation → ℕ → ℕ
event_time o clock = if o.at == 0 then clock else o.at

module _ {F : Type 0} (fl : FloatOps F) (is_zero : F → Bool) (default_alpha one : F) where
  open fl use {of_nat, add, sub, mul, leb as leb_float, ltb as ltb_float}

  -- The smoothing factor in use: 0.3 where the configured one is out of range.
  unfoldable pub alpha_of : Config F → F
  alpha_of c =
      if leb_float c.baseline_alpha (of_nat 0) || ltb_float one c.baseline_alpha
      then default_alpha
      else c.baseline_alpha

  unfoldable pub next_baseline : Config F → F → ℕ → F
  unfolding alpha_of
  next_baseline c baseline vol =
      if is_zero baseline
      then of_nat vol
      else add (mul (alpha_of c) (of_nat vol)) (mul (sub one (alpha_of c)) baseline)

  unfoldable pub maybe_roll_baseline : Config F → CredWindow F → ℕ → CredWindow F
  unfolding next_baseline
  maybe_roll_baseline c cw now =
      if cw.last_roll == 0
      then record cw { last_roll = now }
      else if ltb now (cw.last_roll + c.window)
      then cw
      else record cw {
        baseline = next_baseline c cw.baseline (period_volume c.window cw.last_roll cw.samples);
        last_roll = now;
      }

  abbrev new_window : ℕ → CredWindow F
  new_window now = record {
    tenant = "";
    domain = "";
    samples = [];
    baseline = of_nat 0;
    last_roll = now;
  }

  abbrev or_new : Option (CredWindow F) → ℕ → CredWindow F
  or_new none now = new_window now
  or_new (some cw) now = cw

  -- The window of the credential with the new event folded in.
  unfoldable pub fold_event : Config F → Option (CredWindow F) → Observation → ℕ → CredWindow F
  fold_event c old o now =
      let cw = or_new old now in
      let named = record cw {
        tenant = o.tenant_id;
        domain = if str_eq o.from_domain "" then cw.domain else o.from_domain;
      } in
      let rolled = maybe_roll_baseline c named now in
      record rolled {
        samples =
            keep_recent c.window now rolled.samples
            ++ (record {
              t = now;
              rcpt = o.recipient_domain;
              abuse = o.abuse;
              off_hours = is_off_hours c.off_hours_start c.off_hours_end (hour_of now);
            }
                ∷ []);
      }

  abbrev quiet : Outcome F
  quiet = record { detail = none; tenant = ""; domain = ""; tripped = false }

  -- What `Observe` does once the window is scored.
  unfoldable pub alert :
      Config F
      → List (String × ℕ)
      → String
      → CredWindow F
      → Option (TripDetail F)
      → ℕ
      → Outcome F × List (String × ℕ)
  unfolding is_cooling
  alert c alerted user cw none now = (quiet, alerted)
  alert c alerted user cw (some det) now =
      if is_cooling c.cooldown (lookup user alerted) now then (quiet, alerted) else (
        record {
          detail = some (record det { sending_domain = cw.domain });
          tenant = cw.tenant;
          domain = cw.domain;
          tripped = true;
        },
        insert user now alerted,
      )

  unfoldable pub observe : Config F → Detector F → Observation → ℕ → Outcome F × Detector F
  unfolding alert fold_event
  observe c d o clock =
      if str_eq o.sasl_username ""
      then (quiet, d)
      else let now = event_time o clock in
        let cw = fold_event c (lookup o.sasl_username d.creds) o now in
        let (out, alerted') = alert c d.alerted o.sasl_username cw (score fl c cw) now in
        (out, record { creds = insert o.sasl_username cw d.creds; alerted = alerted' })

  abbrev has_none : List Sample → Bool
  has_none [] = true
  has_none (s ∷ ss) = false

  -- A cold window: nothing recent, and no roll for two windows.
  unfoldable pub is_cold : Config F → ℕ → CredWindow F → Bool
  is_cold c now cw =
      has_none (keep_recent c.window now cw.samples) && ltb (cw.last_roll + 2 * c.window) now

  unfoldable pub prune_creds :
      Config F → ℕ → List (String × CredWindow F) → List (String × CredWindow F)
  unfolding is_cold
  prune_creds c now [] = []
  prune_creds c now ((user, cw) ∷ m) =
      let rest = prune_creds c now m in
      if is_cold c now cw
      then rest
      else (user, record cw { samples = keep_recent c.window now cw.samples }) ∷ rest

  unfoldable pub prune : Config F → Detector F → ℕ → Detector F
  unfolding prune_creds
  prune c d now = record {
    creds = prune_creds c now d.creds;
    alerted = retain (λ user t. leb now (t + c.cooldown)) d.alerted;
  }
