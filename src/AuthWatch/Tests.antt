-- ===== src/AuthWatch/Tests.antt =====
-- The detector at concrete observations, over thousandths for float64.
use mxsentinel.AuthWatch.Score.{Signal}
use mxsentinel.Prelude.{
  ℕ, zero, suc, ◌+◌, ◌-◌, ◌*◌, ◌/◌, ◌%◌, ◌≤◌, ◌<◌, ◌≡◌, refl, sym, ap, ◌∙◌, ◌≢◌, ◌↔◌, ◌⊎◌, inl, inr,
  Bool, true, false, not, ◌&&◌, ◌||◌, Option, none, some, List, [], ◌∷◌, ◌++◌, map, append_assoc,
  append-nil, arith, String, str_eq, eq_iff, eq_refl, ltb, leb, ◌==◌, if◌then◌else◌, ltb→lt, lt→ltb,
  leb→le, le→leb, ==→eq, ==_refl, Bool-cases, &&-left, &&-right, ||-cases, length, take, select,
  any, length-append, length-take_le, All, All-append, All-select, length-select, select-All,
  All-select_keep,
}
use mxsentinel.Prelude.Floats.{milli}
use mxsentinel.Prelude.Assoc.{lookup, insert, string_key}
use mxsentinel.AuthWatch.Score.{
  Config, Sample, CredWindow, TripDetail, is_off_hours, score, bursts, bounces, surges,
  sends_off_hours,
}
use mxsentinel.AuthWatch.Detector.{Observation, Detector, new_detector, event_time, observe}
use mxsentinel.AuthWatch.OffHours.{is_off_hours-circular}
use mxsentinel.AuthWatch.Cooldown.{Event, observed, pruned, Spaced, trips, trips-Spaced, InOrder}

-- Two recipient domains within ten time units are a burst; trips are 100 units apart.
abbrev small_config : Config ℕ
small_config = record {
  window = 10;
  cooldown = 100;
  distinct_rcpt_threshold = 2;
  min_volume = 50;
  bounce_rate = 300;
  volume_factor = 5000;
  volume_floor = 200;
  off_hours_start = 22;
  off_hours_end = 5;
  off_hours_rate = 800;
  rcpt_weight = 1000;
  bounce_weight = 1000;
  volume_weight = 1000;
  off_hours_weight = 500;
  threshold = 1000;
  baseline_alpha = 300;
}

abbrev sent : String → String → ℕ → Observation
sent user rcpt t = record {
  tenant_id = "t";
  sasl_username = user;
  from_domain = "f.com";
  recipient_domain = rcpt;
  abuse = false;
  at = t;
}

is_off_hours-circular_example :
    is_off_hours 22 5 23 ≡ ltb ((23 + 24 - 22) % 24) ((5 + 24 - 22) % 24)
is_off_hours-circular_example =
    is_off_hours-circular 22 5 23 (omega arith) (omega arith) (omega arith)

abbrev bursty : List Event
bursty =
    observed (sent "u" "a.com" 1) 0
    ∷ observed (sent "u" "b.com" 2) 0
    ∷ observed (sent "u" "c.com" 3) 0
    ∷ pruned 103
    ∷ observed (sent "u" "d.com" 104) 0
    ∷ observed (sent "u" "e.com" 105) 0
    ∷ []

abbrev bursty_trips : List ℕ
bursty_trips = trips milli (λ b. b == 0) 300 1000 small_config "u" (new_detector ℕ) bursty

two_trips : bursty_trips ≡ 2 ∷ 105 ∷ []
unfolding trips mxsentinel.AuthWatch.Cooldown.trip_of mxsentinel.AuthWatch.Cooldown.step observe
    score select lookup insert new_detector sends_off_hours surges bounces bursts any
    mxsentinel.Prelude.Assoc.retain is_off_hours mxsentinel.AuthWatch.Detector.keep_recent
    mxsentinel.AuthWatch.Detector.maybe_roll_baseline mxsentinel.AuthWatch.Detector.prune
    mxsentinel.AuthWatch.Detector.alert mxsentinel.AuthWatch.Detector.alpha_of
    mxsentinel.AuthWatch.Detector.fold_event mxsentinel.AuthWatch.Detector.is_cold
    mxsentinel.AuthWatch.Detector.is_cooling mxsentinel.AuthWatch.Detector.next_baseline
    mxsentinel.AuthWatch.Detector.period_volume mxsentinel.AuthWatch.Detector.prune_creds
    mxsentinel.AuthWatch.Score.distinct mxsentinel.AuthWatch.Score.add_distinct
    mxsentinel.AuthWatch.Score.contribute mxsentinel.AuthWatch.Score.count
    mxsentinel.AuthWatch.Score.detail_of mxsentinel.AuthWatch.Score.fraction
    mxsentinel.AuthWatch.Score.hour_of mxsentinel.AuthWatch.Score.totals
two_trips = refl

trips-Spaced_example : Spaced 100 none bursty_trips
trips-Spaced_example =
    trips-Spaced milli (λ b. b == 0) 300 1000 small_config "u" bursty (omega arith)

abbrev two_domains : CredWindow ℕ
two_domains = record {
  tenant = "t";
  domain = "f.com";
  samples =
      record { t = 1; rcpt = "a.com"; abuse = false; off_hours = false }
      ∷ record { t = 2; rcpt = "b.com"; abuse = true; off_hours = false }
      ∷ [];
  baseline = 0;
  last_roll = 1;
}

abbrev two_domains_detail : TripDetail ℕ
two_domains_detail = record {
  messages = 2;
  distinct_rcpts = 2;
  abuse_bounces = 1;
  bounce_rate = 500;
  baseline = 0;
  off_hours_rate = 0;
  score = 1000;
  threshold = 1000;
  contributors = Signal.recipient_burst ∷ [];
  sending_domain = "";
}

score_two_domains : score milli small_config two_domains ≡ some two_domains_detail
unfolding score sends_off_hours surges bounces bursts mxsentinel.AuthWatch.Score.distinct any
    mxsentinel.AuthWatch.Score.count
score_two_domains = refl
