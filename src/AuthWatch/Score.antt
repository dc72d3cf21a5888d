-- ===== src/AuthWatch/Score.antt =====
-- internal/authwatch/detector.go: the configuration, the state of a credential and its score. Times
-- are nanoseconds since the zero time of Go (midnight UTC of 1 January of year 1).
use mxsentinel.Prelude.{
  ℕ, suc, ◌/◌, ◌%◌, Bool, true, false, ◌&&◌, ◌||◌, Option, none, some, List, [], ◌∷◌, ◌++◌, String,
  str_eq, ltb, leb, ◌==◌, if◌then◌else◌, length, any,
}
use mxsentinel.Prelude.Floats.{FloatOps}

pub record Config (F : Type 0) : Type 0 where
  pub window : ℕ
  pub cooldown : ℕ
  pub distinct_rcpt_threshold : ℕ
  pub min_volume : ℕ
  pub bounce_rate : F
  pub volume_factor : F
  pub volume_floor : ℕ
  pub off_hours_start : ℕ
  pub off_hours_end : ℕ
  pub off_hours_rate : F
  pub rcpt_weight : F
  pub bounce_weight : F
  pub volume_weight : F
  pub off_hours_weight : F
  pub threshold : F
  pub baseline_alpha : F

pub record Sample : Type 0 where
  pub t : ℕ
  pub rcpt : String
  pub abuse : Bool
  pub off_hours : Bool

pub record CredWindow (F : Type 0) : Type 0 where
  pub tenant : String
  pub domain : String
  pub samples : List Sample
  pub baseline : F
  pub last_roll : ℕ

pub data Signal : Type 0 where
  recipient_burst bounce_spike volume_spike off_hours_spike : Signal

pub record TripDetail (F : Type 0) : Type 0 where
  pub messages : ℕ
  pub distinct_rcpts : ℕ
  pub abuse_bounces : ℕ
  pub bounce_rate : F
  pub baseline : F
  pub off_hours_rate : F
  pub score : F
  pub threshold : F
  pub contributors : List Signal
  pub sending_domain : String

-- `IsOffHours`, on the hour of the day; a band may wrap past midnight.
unfoldable pub is_off_hours : ℕ → ℕ → ℕ → Bool
is_off_hours start stop h =
    if start == stop
    then false
    else if ltb start stop
    then leb start h && ltb h stop
    else leb start h || ltb h stop

-- `now.UTC().Hour()`
unfoldable pub hour_of : ℕ → ℕ
hour_of now = now / 3600000000000 % 24

unfoldable pub count : (Sample → Bool) → List Sample → ℕ
count p [] = 0
count p (s ∷ ss) = let n = count p ss in if p s then suc n else n

-- The keys of the set that the loop of `score` fills with the recipient domains.
unfoldable pub add_distinct : String → List String → List String
add_distinct x seen = if any (str_eq x) seen then seen else x ∷ seen

unfoldable pub distinct : List Sample → List String → List String
unfolding add_distinct
distinct [] seen = seen
distinct (s ∷ ss) seen = distinct ss (if str_eq s.rcpt "" then seen else add_distinct s.rcpt seen)

module _ {F : Type 0} (fl : FloatOps F) where
  open fl use {of_nat, add, sub, mul, div, leb as leb_float, ltb as ltb_float}

  -- `total` is at least one where this is called.
  unfoldable pub fraction : ℕ → ℕ → F
  fraction n total = if ltb 0 total then div (of_nat n) (of_nat total) else of_nat 0

  -- One of the four checks: a signal that fires adds its weight and its name.
  unfoldable pub contribute : Bool → F → Signal → F × List Signal → F × List Signal
  contribute fires weight signal (score, signals) =
      if fires then (add score weight, signals ++ (signal ∷ [])) else (score, signals)

  -- The four checks in their order.
  unfoldable pub bursts : Config F → List Sample → Bool
  bursts c ss = leb c.distinct_rcpt_threshold (length (distinct ss []))

  unfoldable pub bounces : Config F → List Sample → Bool
  unfolding fraction
  bounces c ss =
      leb c.min_volume (length ss)
      && leb_float c.bounce_rate (fraction (count (λ s. s.abuse) ss) (length ss))

  unfoldable pub surges : Config F → F → List Sample → Bool
  surges c baseline ss =
      ltb_float (of_nat 0) baseline
      && (leb c.volume_floor (length ss)
          && leb_float (mul c.volume_factor baseline) (of_nat (length ss)))

  unfoldable pub sends_off_hours : Config F → List Sample → Bool
  unfolding fraction
  sends_off_hours c ss =
      ltb_float (of_nat 0) c.off_hours_weight
      && (leb c.min_volume (length ss)
          && leb_float c.off_hours_rate (fraction (count (λ s. s.off_hours) ss) (length ss)))

  unfoldable pub totals : Config F → F → List Sample → F × List Signal
  unfolding contribute
  totals c baseline ss = contribute (sends_off_hours c ss) c.off_hours_weight off_hours_spike (
      contribute (surges c baseline ss) c.volume_weight volume_spike (
        contribute (bounces c ss) c.bounce_weight bounce_spike
          (contribute (bursts c ss) c.rcpt_weight recipient_burst (of_nat 0, []))))

  abbrev is_empty_list : List Signal → Bool
  is_empty_list [] = true
  is_empty_list (s ∷ ss) = false

  unfoldable pub detail_of : Config F → CredWindow F → F × List Signal → TripDetail F
  detail_of c cw (score, signals) = record {
    messages = length cw.samples;
    distinct_rcpts = length (distinct cw.samples []);
    abuse_bounces = count (λ s. s.abuse) cw.samples;
    bounce_rate = fraction (count (λ s. s.abuse) cw.samples) (length cw.samples);
    baseline = cw.baseline;
    off_hours_rate = fraction (count (λ s. s.off_hours) cw.samples) (length cw.samples);
    score = score;
    threshold = c.threshold;
    contributors = signals;
    sending_domain = "";
  }

  unfoldable pub score : Config F → CredWindow F → Option (TripDetail F)
  unfolding totals detail_of
  score c cw =
      let t = totals c cw.baseline cw.samples in
      if length cw.samples == 0
      then none
      else if ltb_float t.0 c.threshold || is_empty_list t.1
      then none
      else some (detail_of c cw t)
