-- ===== src/Failover/Runs.antt =====
-- The breaker over sequences of ticks: its invariant, how long it holds, and when it lets go.
use mxsentinel.Prelude.{ℕ, ◌+◌, ◌≤◌, ◌<◌, ◌≡◌, refl, ◌≢◌, true, false, List, [], ◌∷◌, arith, All}
use mxsentinel.Prelude.Floats.{FloatOps}
use mxsentinel.Failover.Breaker.{
  closed, opened, Policy, Sample, no_sample, Breaker, new_breaker, is_storm, evaluate,
}

-- One tick: its time, and the sample of that time.
pub record Tick : Type 0 where
  pub now : ℕ
  pub sample : Sample

module _ {F : Type 0} (fl : FloatOps F) (p : Policy F) where
  -- The state of the breaker after each of the ticks in turn.
  unfoldable pub run : Breaker → List Tick → Breaker
  run b [] = b
  run b (t ∷ ts) = run (evaluate fl b t.now t.sample p).0 ts

  -- A closed breaker remembers no sample; an open one remembers a sample that warranted the trip.
  pub record IsSound (b : Breaker) : Type 0 where
    pub closed_clear : b.state ≡ closed → b.tripped_by ≡ no_sample
    pub open_justified : b.state ≡ opened → is_storm fl b.tripped_by p ≡ true

  new_breaker-IsSound : IsSound new_breaker
  unfolding new_breaker
  new_breaker-IsSound = record { closed_clear = λ e. refl; open_justified = λ e. absurd (cc) }

  evaluate-IsSound :
      (b : Breaker) (t : Tick) → IsSound b → IsSound (evaluate fl b t.now t.sample p).0
  unfolding evaluate
  evaluate-IsSound b t h = ground arith

  run-IsSound : (b : Breaker) (ts : List Tick) → IsSound b → IsSound (run b ts)
  unfolding run
  run-IsSound b [] h = h
  run-IsSound b (t ∷ ts) h =
      run-IsSound (evaluate fl b t.now t.sample p).0 ts (evaluate-IsSound b t h)

  -- Whatever the ticks, a breaker that started closed and empty is open only on a remembered sample
  -- with enough attempts, enough deferrals and a defer rate at or above the trip rate, and remembers
  -- no sample while it is closed.
  pub run-IsSound_new : (ts : List Tick) → IsSound (run new_breaker ts)
  run-IsSound_new ts = run-IsSound new_breaker ts new_breaker-IsSound

  evaluate_held :
      (b : Breaker) (t : Tick)
      → b.state ≡ opened
      → t.now < b.opened_at + p.hold_for
      → (evaluate fl b t.now t.sample p).0 ≡ b
  unfolding evaluate
  evaluate_held b t o h = ground arith

  -- While the hold time since the trip has not passed, an open breaker is left as it was by every
  -- tick, whatever the samples say: no traffic pattern can close it early.
  pub run_holds :
      (b : Breaker) (ts : List Tick)
      → b.state ≡ opened
      → All (λ t. t.now < b.opened_at + p.hold_for) ts
      → run b ts ≡ b
  unfolding run
  run_holds b [] o h = refl
  run_holds b (t ∷ ts) o h = rw (evaluate_held b t o h.0) (run_holds b ts o h.1)

  -- The first tick at or after the end of the hold time closes the breaker, clears the remembered
  -- sample and reports the change, whatever the ticks before it (all within the hold time) and its
  -- own sample say.
  pub run_reverts :
      (b : Breaker) (ts : List Tick) (t : Tick)
      → b.state ≡ opened
      → All (λ u. u.now < b.opened_at + p.hold_for) ts
      → b.opened_at + p.hold_for ≤ t.now
      → let (b', tr) = evaluate fl (run b ts) t.now t.sample p in
        (b'.state ≡ closed) × (b'.tripped_by ≡ no_sample) × (tr.changed ≡ true) × (tr.to ≡ closed)
  unfolding evaluate
  run_reverts b ts t o h late = rw (run_holds b ts o h) (ground arith)

  -- A report of a change is exact: the breaker's state differs from before just when `changed` is
  -- set, `from` and `to` are the states before and after, and an unchanged breaker is left whole.
  pub evaluate_reports :
      (b : Breaker) (now : ℕ) (s : Sample)
      → let (b', tr) = evaluate fl b now s p in
        (tr.from ≡ b.state)
        × (tr.to ≡ b'.state)
        × (tr.changed ≡ true → b.state ≢ b'.state)
        × (tr.changed ≡ false → b' ≡ b)
  unfolding evaluate
  evaluate_reports b now s = ground arith
