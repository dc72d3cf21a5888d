-- ===== src/AuthWatch/OffHours.antt =====
-- The off-hours band of internal/authwatch/detector.go, against a circular interval.
use mxsentinel.Prelude.{ℕ, ◌+◌, ◌-◌, ◌%◌, ◌<◌, ◌≡◌, arith, ltb}
use mxsentinel.AuthWatch.Score.{is_off_hours, hour_of}

-- For hours of the day the band is the circular interval from its start up to and without its end:
-- an hour lies in it exactly when, counted from the start round the clock, it comes before the end.
-- This covers bands that wrap past midnight, and an empty band (start equal to end) has no hour.
pub is_off_hours-circular :
    (start stop h : ℕ)
    → start < 24
    → stop < 24
    → h < 24
    → is_off_hours start stop h ≡ ltb ((h + 24 - start) % 24) ((stop + 24 - start) % 24)
unfolding is_off_hours
is_off_hours-circular start stop h p q r = ground arith

pub hour_of-lt : (now : ℕ) → hour_of now < 24
unfolding hour_of
hour_of-lt now = omega arith
