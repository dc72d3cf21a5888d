-- ===== src/Anomaly/Sweeping.antt =====
-- What `Sweep` of internal/anomaly/detector.go leaves of the counters, and the keys.
use mxsentinel.Prelude.{
  ℕ, ◌+◌, ◌≤◌, ◌<◌, ◌≡◌, refl, inl, inr, false, Option, none, some, [], ◌∷◌, arith, Bool-cases, All,
}
use mxsentinel.Prelude.Text.{Bytes, bytes_eq, bytes_eq→eq}
use mxsentinel.Prelude.Floats.{FloatOps}
use mxsentinel.Prelude.Assoc.{lookup, bytes_key}
use mxsentinel.Anomaly.Detector.{
  Config, Counter, Counters, key, domain_of, first_nul, hour_start, sweep, sweep_counter,
  is_prunable, rollover,
}

hour_start_le : (now : ℕ) → (hour_start now ≤ now) × (now < hour_start now + 3600000000000)
unfolding hour_start
hour_start_le now = (omega arith, omega arith)

-- No NUL byte.
abbrev pub NoNul : Bytes → Type 0
NoNul bs = All (λ b. 0 < b) bs

first_nul-key : (tenant domain : Bytes) → NoNul tenant → first_nul (key tenant domain) ≡ some domain
unfolding key
first_nul-key [] domain h = refl
first_nul-key (b ∷ bs) domain h = ground (arith, first_nul-key bs domain)

-- The domain is read back from the key of a tenant without NUL.
pub domain_of-key : (tenant domain : Bytes) → NoNul tenant → domain_of (key tenant domain) ≡ domain
unfolding domain_of
domain_of-key tenant domain h = rw (first_nul-key tenant domain h) refl

module _ {F : Type 0} (fl : FloatOps F) (one : F) where
  -- A swept counter belongs to an hour that has begun less than an hour ago, or later.
  sweep_counter_hour :
      (cfg : Config F) (k : Bytes) (now : ℕ) (c : Counter F)
      → hour_start now ≤ (sweep_counter fl one cfg k now c).0.hour
  unfolding sweep_counter rollover
  sweep_counter_hour cfg k now c = ground arith

  never_prunable :
      (cfg : Config F) (now : ℕ) (c : Counter F)
      → hour_start now ≤ c.hour
      → is_prunable fl one cfg now c ≡ false
  unfolding is_prunable
  never_prunable cfg now c h = ground (arith, hour_start_le now)

  abbrev pub swept : Config F → Bytes → ℕ → Option (Counter F) → Option (Counter F)
  swept cfg k now none = none
  swept cfg k now (some c) = some (sweep_counter fl one cfg k now c).0

  -- After a sweep the counter of each key is its counter from before, rolled over where its hour
  -- was complete: no counter is removed.
  pub lookup-sweep :
      (cfg : Config F) (now : ℕ) (m : Counters F) (k : Bytes)
      → lookup k (sweep fl one cfg now m).0 ≡ swept cfg k now (lookup k m)
  unfolding sweep lookup
  lookup-sweep cfg now [] k = refl
  lookup-sweep cfg now ((j, c) ∷ m) k =
      rw
        (never_prunable cfg now (sweep_counter fl one cfg j now c).0
          (sweep_counter_hour cfg j now c))
        elim (Bool-cases (bytes_eq j k)) [
          | inl q ↦ ground (arith, bytes_eq→eq j k)
          | inr q ↦ ground (arith, lookup-sweep cfg now m k)
        ]
