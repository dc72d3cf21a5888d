-- ===== src/Failover/Breaker.antt =====
-- internal/relayfailover/policy.go. Times and durations are nanoseconds; `now.Sub(t) >= d` is
-- written `t + d ≤ now`, which is the same on the integers. The defer rate is a float64, whose
-- operations are a parameter.
use mxsentinel.Prelude.{ℕ, ◌+◌, Bool, true, false, ◌&&◌, leb, ◌==◌, if◌then◌else◌}
use mxsentinel.Prelude.Floats.{FloatOps}

-- The states `closed` (mail goes direct) and `open` (mail goes to the fallback relay).
pub data State : Type 0 where
  closed opened : State

pub record Policy (F : Type 0) : Type 0 where
  pub min_attempts : ℕ
  pub min_defers : ℕ
  pub trip_rate : F
  pub hold_for : ℕ
  pub max_domains : ℕ

pub record Sample : Type 0 where
  pub attempts : ℕ
  pub deferred_4xx : ℕ

abbrev pub no_sample : Sample
no_sample = record { attempts = 0; deferred_4xx = 0 }

pub record Breaker : Type 0 where
  pub state : State
  pub opened_at : ℕ
  pub tripped_by : Sample

unfoldable pub new_breaker : Breaker
new_breaker = record { state = closed; opened_at = 0; tripped_by = no_sample }

-- Why a call of `Evaluate` did what it did, without the numbers of the message.
pub data Reason : Type 0 where
  reverting held tripped healthy : Reason

pub record Transition : Type 0 where
  pub from : State
  pub to : State
  pub changed : Bool
  pub reason : Reason

module _ {F : Type 0} (fl : FloatOps F) where
  open fl use {of_nat, div, leb as leb_float}

  unfoldable pub defer_rate : Sample → F
  defer_rate s =
      if s.attempts == 0 then of_nat 0 else div (of_nat s.deferred_4xx) (of_nat s.attempts)

  -- The condition that trips a closed breaker.
  unfoldable pub is_storm : Sample → Policy F → Bool
  unfolding defer_rate
  is_storm s p =
      leb p.min_attempts s.attempts
      && (leb p.min_defers s.deferred_4xx && leb_float p.trip_rate (defer_rate s))

  -- The switch of `Evaluate` on the state; the last clause is `default`.
  unfoldable pub advance : State → Breaker → ℕ → Sample → Policy F → Breaker × Transition
  advance opened b now s p =
      if leb (b.opened_at + p.hold_for) now
      then (
        record b { state = closed; tripped_by = no_sample },
        record { from = b.state; to = closed; changed = true; reason = reverting },
      )
      else (b, record { from = b.state; to = opened; changed = false; reason = held })
  advance _ b now s p =
      if is_storm s p
      then (
        record b { state = opened; opened_at = now; tripped_by = s },
        record { from = b.state; to = opened; changed = true; reason = tripped },
      )
      else (b, record { from = b.state; to = closed; changed = false; reason = healthy })

  unfoldable pub evaluate : Breaker → ℕ → Sample → Policy F → Breaker × Transition
  unfolding advance
  evaluate b now s p = advance b.state b now s p
