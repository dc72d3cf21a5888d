-- ===== src/Anomaly/Detector.antt =====
-- internal/anomaly/detector.go: `Record`, `rollover`, `threshold`, `fire` and `Sweep`. Times are
-- nanoseconds since the zero time, which is 0; `now.Sub(t) < d` is written `now < t + d`.
use mxsentinel.Prelude.{
  ℕ, suc, ◌+◌, ◌*◌, ◌/◌, Bool, true, false, not, ◌&&◌, ◌||◌, Option, none, some, List, [], ◌∷◌,
  ◌++◌, ltb, leb, ◌==◌, if◌then◌else◌,
}
use mxsentinel.Prelude.Text.{Bytes}
use mxsentinel.Prelude.Floats.{FloatOps}
use mxsentinel.Prelude.Assoc.{lookup, insert, bytes_key}

pub record Config (F : Type 0) : Type 0 where
  pub factor : F
  pub min_absolute : ℕ
  pub min_samples : ℕ
  pub ewma_alpha : F
  pub cooldown : ℕ

pub record Baseline (F : Type 0) : Type 0 where
  pub ewma : F
  pub samples : ℕ

pub record Counter (F : Type 0) : Type 0 where
  pub tenant : Bytes
  pub hour : ℕ
  pub count : ℕ
  pub baseline : Baseline F
  pub loaded : Bool
  pub tripped : Bool
  pub last_trip : ℕ

-- `d.counters`, by `tenant + "\x00" + domain`.
abbrev pub Counters : Type 0 → Type 0
Counters F = List (Bytes × Counter F)

unfoldable pub key : Bytes → Bytes → Bytes
key tenant domain = tenant ++ (0 ∷ domain)

abbrev pub first_nul : Bytes → Option Bytes
first_nul [] = none
first_nul (b ∷ bs) = if b == 0 then some bs else first_nul bs

abbrev pub or_all : Option Bytes → Bytes → Bytes
or_all none k = k
or_all (some rest) k = rest

-- What follows the first NUL, and the whole key where there is none.
unfoldable pub domain_of : Bytes → Bytes
domain_of k = or_all (first_nul k) k

-- `now.Truncate(time.Hour)`
unfoldable pub hour_start : ℕ → ℕ
hour_start now = now / 3600000000000 * 3600000000000

-- A row for `UpsertBaseline`.
pub record Upsert (F : Type 0) : Type 0 where
  pub tenant : Bytes
  pub domain : Bytes
  pub ewma : F
  pub samples : ℕ

-- What `fire` stores: the anomaly row, and the incident with its event id, which names the domain
-- and the hour of the wall clock.
pub record Fired (F : Type 0) : Type 0 where
  pub tenant : Bytes
  pub domain : Bytes
  pub observed : ℕ
  pub baseline : F
  pub factor : F
  pub incident_hour : ℕ

-- `!c.lastTrip.IsZero() && now.Sub(c.lastTrip) < Cooldown`
unfoldable pub is_cooling : ℕ → ℕ → ℕ → Bool
is_cooling cooldown last_trip now = not (last_trip == 0) && ltb now (last_trip + cooldown)

module _ {F : Type 0} (fl : FloatOps F) (one : F) where
  open fl use {of_nat, add, sub, mul, div, ltb as ltb_float}

  abbrev pub no_baseline : Baseline F
  no_baseline = record { ewma = of_nat 0; samples = 0 }

  abbrev new_counter : Bytes → ℕ → Counter F
  new_counter tenant hour = record {
    tenant = tenant;
    hour = hour;
    count = 0;
    baseline = no_baseline;
    loaded = false;
    tripped = false;
    last_trip = 0;
  }

  abbrev pub or_new : Option (Counter F) → Bytes → ℕ → Counter F
  or_new none tenant hour = new_counter tenant hour
  or_new (some c) tenant hour = c

  unfoldable pub threshold : Config F → F → F
  threshold cfg baseline =
      let t = mul baseline cfg.factor in
      if ltb_float t (of_nat cfg.min_absolute) then of_nat cfg.min_absolute else t

  -- The baseline with a completed hour folded in.
  unfoldable pub rollover : Config F → Counter F → Counter F
  rollover cfg c = record c {
    baseline = record {
      ewma =
          if c.baseline.samples == 0
          then of_nat c.count
          else add (mul cfg.ewma_alpha (of_nat c.count))
              (mul (sub one cfg.ewma_alpha) c.baseline.ewma);
      samples = suc c.baseline.samples;
    };
  }

  abbrev pub upsert_of : Bytes → Counter F → Upsert F
  upsert_of domain c = record {
    tenant = c.tenant;
    domain = domain;
    ewma = c.baseline.ewma;
    samples = c.baseline.samples;
  }

  abbrev pub begin_hour : Counter F → ℕ → Counter F
  begin_hour c hour = record c { hour = hour; count = 0; tripped = false }

  -- The first part of `Record`, under the lock: the counter is made if it is missing.
  unfoldable pub arrive : Counters F → Bytes → Bytes → ℕ → Counters F
  arrive m tenant domain now =
      insert (key tenant domain) (or_new (lookup (key tenant domain) m) tenant (hour_start now)) m

  -- A loaded baseline is adopted unless there is one; a failed read gives the zero baseline.
  unfoldable pub adopt : Option (Baseline F) → Counter F → Counter F
  adopt none c = if c.loaded then c else record c { baseline = no_baseline; loaded = true }
  adopt (some b) c = if c.loaded then c else record c { baseline = b; loaded = true }

  unfoldable pub roll_hour : Config F → Bytes → ℕ → Counter F → Counter F × Option (Upsert F)
  unfolding rollover
  roll_hour cfg domain now c =
      if ltb c.hour (hour_start now)
      then (begin_hour (rollover cfg c) (hour_start now), some (upsert_of domain (rollover cfg c)))
      else (c, none)

  -- The test of `Record`, on the counter that has counted the message.
  unfoldable pub trips_now : Config F → Counter F → ℕ → Bool
  unfolding is_cooling threshold
  trips_now cfg c now =
      leb cfg.min_samples c.baseline.samples
      && (not c.tripped
          && (not (is_cooling cfg.cooldown c.last_trip now)
              && ltb_float (threshold cfg c.baseline.ewma) (of_nat c.count)))

  -- `clock` is `time.Now()` in `fire`.
  unfoldable pub fire : Bytes → Bytes → ℕ → F → ℕ → Fired F
  fire tenant domain observed baseline clock = record {
    tenant = tenant;
    domain = domain;
    observed = observed;
    baseline = baseline;
    factor = if ltb_float (of_nat 0) baseline then div (of_nat observed) baseline else of_nat 0;
    incident_hour = hour_start clock;
  }

  -- The message is counted and the counter tested.
  unfoldable pub count_message :
      Config F → Bytes → Bytes → ℕ → ℕ → Counter F → Counter F × Option (Fired F)
  unfolding trips_now fire
  count_message cfg tenant domain now clock c =
      let counted = record c { count = suc c.count } in
      if trips_now cfg counted now
      then (
        record counted { tripped = true; last_trip = now },
        some (fire tenant domain counted.count c.baseline.ewma clock),
      )
      else (counted, none)

  pub record Settled : Type 0 where
    pub counters : Counters F
    pub stored : Option (Upsert F)
    pub fired : Option (Fired F)

  -- The second part of `Record`, after the read of the baseline, which runs without the lock.
  unfoldable pub settle :
      Config F → Counters F → Bytes → Bytes → ℕ → ℕ → Option (Baseline F) → Settled
  unfolding adopt roll_hour count_message
  settle cfg m tenant domain now clock fetched =
      let found = or_new (lookup (key tenant domain) m) tenant (hour_start now) in
      let rolled = roll_hour cfg domain now (adopt fetched found) in
      let counted = count_message cfg tenant domain now clock rolled.0 in
      record {
        counters = insert (key tenant domain) counted.0 m;
        stored = rolled.1;
        fired = counted.1;
      }

  abbrev is_empty : Bytes → Bool
  is_empty [] = true
  is_empty (b ∷ bs) = false

  -- `Record` where nothing comes between its parts.
  unfoldable pub record_message :
      Config F → Counters F → Bytes → Bytes → ℕ → ℕ → Option (Baseline F) → Settled
  unfolding settle arrive
  record_message cfg m tenant domain now clock fetched =
      if is_empty domain
      then record { counters = m; stored = none; fired = none }
      else settle cfg (arrive m tenant domain now) tenant domain now clock fetched

  -- A counter in `Sweep`: rolled over where its hour is complete.
  unfoldable pub sweep_counter : Config F → Bytes → ℕ → Counter F → Counter F × Option (Upsert F)
  unfolding rollover
  sweep_counter cfg k now c =
      if ltb c.hour (hour_start now)
      then if ltb 0 c.count
        then (
          begin_hour (rollover cfg c) (hour_start now),
          some (upsert_of (domain_of k) (rollover cfg c)),
        )
        else (begin_hour c (hour_start now), none)
      else (c, none)

  -- `idle && c.count == 0 && coolingDone`
  unfoldable pub is_prunable : Config F → ℕ → Counter F → Bool
  is_prunable cfg now c =
      ltb (c.hour + 24 * 3600000000000) now
      && (c.count == 0 && (c.last_trip == 0 || ltb (c.last_trip + cfg.cooldown) now))

  abbrev rows : Option (Upsert F) → List (Upsert F)
  rows none = []
  rows (some r) = r ∷ []

  -- The counters that stay, and the rows that are stored.
  unfoldable pub sweep : Config F → ℕ → Counters F → Counters F × List (Upsert F)
  unfolding sweep_counter is_prunable
  sweep cfg now [] = ([], [])
  sweep cfg now ((k, c) ∷ m) =
      let rest = sweep cfg now m in
      let c' = sweep_counter cfg k now c in
      let stored = rows c'.1 ++ rest.1 in
      if is_prunable cfg now c'.0 then (rest.0, stored) else ((k, c'.0) ∷ rest.0, stored)
