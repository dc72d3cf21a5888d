-- ===== src/Anomaly/Tests.antt =====
-- The detector at concrete messages, over thousandths for float64.
use mxsentinel.Prelude.{
  ℕ, zero, suc, ◌+◌, ◌-◌, ◌*◌, ◌/◌, ◌%◌, ◌≤◌, ◌<◌, ◌≡◌, refl, sym, ap, ◌∙◌, ◌≢◌, ◌↔◌, ◌⊎◌, inl, inr,
  Bool, true, false, not, ◌&&◌, ◌||◌, Option, none, some, List, [], ◌∷◌, ◌++◌, map, append_assoc,
  append-nil, arith, String, str_eq, eq_iff, eq_refl, ltb, leb, ◌==◌, if◌then◌else◌, ltb→lt, lt→ltb,
  leb→le, le→leb, ==→eq, ==_refl, Bool-cases, &&-left, &&-right, ||-cases, length, take, select,
  any, length-append, length-take_le, All, All-append, All-select, length-select, select-All,
  All-select_keep,
}
use mxsentinel.Prelude.Text.{Bytes, codes}
use mxsentinel.Prelude.Floats.{milli}
use mxsentinel.Prelude.Assoc.{lookup, insert, bytes_key}
use mxsentinel.Anomaly.Detector.{
  Config, Baseline, Counter, Counters, Fired, Upsert, key, domain_of, record_message, sweep,
  count_message,
}
use mxsentinel.Anomaly.Sweeping.{swept, lookup-sweep}
use mxsentinel.Anomaly.Trips.{Event, arrived, settled, cleaned, Trip, Apart, trips, trips-Apart}

-- Three times the baseline and more than two messages, after one learned hour; four hours of cooldown.
abbrev small_config : Config ℕ
small_config = record {
  factor = 3000;
  min_absolute = 2;
  min_samples = 1;
  ewma_alpha = 500;
  cooldown = 14400000000000;
}

abbrev tenant : Bytes
tenant = 116 ∷ []

abbrev domain : Bytes
domain = 100 ∷ 46 ∷ 99 ∷ []

abbrev learned : Baseline ℕ
learned = record { ewma = 0; samples = 9 }

-- Two messages whose reads of the baseline overlap, a sweep, and messages of the next hours.
abbrev busy : List (Event ℕ)
busy =
    arrived tenant domain 1
    ∷ arrived tenant domain 2
    ∷ settled tenant domain 2 2 (some learned)
    ∷ settled tenant domain 1 2 (some learned)
    ∷ settled tenant domain 3 3 none
    ∷ settled tenant domain 4 4 none
    ∷ cleaned 3600000000001
    ∷ settled tenant domain 3600000000002 3600000000002 none
    ∷ []

abbrev busy_trips : List Trip
busy_trips = trips milli 1000 small_config (key tenant domain) [] busy

one_trip : busy_trips ≡ record { at = 3; bucket = 0 } ∷ []
unfolding trips mxsentinel.Prelude.Text.bytes_eq key mxsentinel.Anomaly.Detector.settle lookup
    mxsentinel.Anomaly.Detector.arrive insert mxsentinel.Anomaly.Detector.hour_start sweep
one_trip = refl

trips-Apart_example : Apart 14400000000000 none busy_trips
trips-Apart_example =
    trips-Apart milli 1000 small_config (key tenant domain) busy
      (omega arith, (omega arith, (omega arith, (omega arith, (omega arith, tt)))))

abbrev old_counter : Counter ℕ
old_counter = record {
  tenant = tenant;
  hour = 0;
  count = 0;
  baseline = learned;
  loaded = true;
  tripped = false;
  last_trip = 0;
}

-- Idle for three days, and kept.
lookup-sweep_example :
    lookup
      (key tenant domain)
      (sweep milli 1000 small_config 259200000000000 ((key tenant domain, old_counter) ∷ [])).0
    ≡ swept milli 1000 small_config
        (key tenant domain)
        259200000000000
        (lookup (key tenant domain) ((key tenant domain, old_counter) ∷ []))
lookup-sweep_example =
    lookup-sweep milli 1000 small_config 259200000000000 ((key tenant domain, old_counter) ∷ [])
      (key tenant domain)

abbrev full_counter : Counter ℕ
full_counter = record old_counter { count = 2 }

milli_lt_trans : (a b c : ℕ) → milli.ltb a b ≡ true → milli.ltb b c ≡ true → milli.ltb a c ≡ true
milli_lt_trans a b c p q = le→leb (a + 1) c (omega (arith, leb→le (a + 1) b p, leb→le (b + 1) c q))

milli_le_lt : (a b c : ℕ) → milli.ltb a b ≡ false → milli.ltb a c ≡ true → milli.ltb b c ≡ true
milli_le_lt a b c p q = ground (arith, leb→le (a + 1) c, le→leb (a + 1) b, le→leb (b + 1) c)

abbrev fired_alert : Fired ℕ
fired_alert = record {
  tenant = tenant;
  domain = domain;
  observed = 3;
  baseline = 0;
  factor = 0;
  incident_hour = 0;
}

-- A store that holds a baseline of 500 hours fails to answer when the first message comes. At the
-- end of the hour the row that replaces it counts one hour.
abbrev after_failure : Counters ℕ
after_failure = (record_message milli 1000 small_config [] tenant domain 1 1 none).counters

failed_read_loses_baseline :
    (record_message milli 1000 small_config after_failure tenant domain 3600000000001 3600000000001
      (some (record { ewma = 70000; samples = 500 }))).stored
    ≡ some (record { tenant = tenant; domain = domain; ewma = 1000; samples = 1 })
unfolding record_message lookup insert mxsentinel.Prelude.Text.bytes_eq key
    mxsentinel.Anomaly.Detector.hour_start
failed_read_loses_baseline = refl
