-- ===== src/Correlate/Pruning.antt =====
-- Pruning the aggregator loses nothing that an evaluation reads (internal/correlate/aggregator.go).
use mxsentinel.Prelude.{
  ℕ, ◌+◌, ◌≤◌, ◌≡◌, refl, ap, ◌∙◌, inl, inr, true, none, [], ◌∷◌, arith, ltb, Bool-cases,
}
use mathlib.Core.Path.{ap₂}
use mxsentinel.Prelude.Floats.{FloatOps}
use mxsentinel.Correlate.Spike.{SpikeConfig, detect_spike}
use mxsentinel.Correlate.Aggregator.{
  Stream, Bucket, Minutes, Aggregator, unix_minute, Tally, no_tally, add_minute, tally, spike_of,
  evaluate, prune_minutes, prune, keep_stream, cons_some,
}

-- A bucket that is too old to keep lies in neither window.
add_minute_old :
    (now_min later_min recent_min baseline_min keep_min : ℕ) (t : Tally) (m : ℕ) (b : Bucket)
    → now_min ≤ later_min
    → recent_min + baseline_min ≤ keep_min
    → ltb (m + keep_min) now_min ≡ true
    → add_minute later_min recent_min baseline_min t m b ≡ t
unfolding add_minute
add_minute_old now_min later_min recent_min baseline_min keep_min t m b h k old = ground arith

tally-prune_minutes :
    (now_min later_min recent_min baseline_min keep_min : ℕ) (t : Tally) (mins : Minutes)
    → now_min ≤ later_min
    → recent_min + baseline_min ≤ keep_min
    → tally later_min recent_min baseline_min t (prune_minutes now_min keep_min mins)
      ≡ tally later_min recent_min baseline_min t mins
unfolding tally prune_minutes
tally-prune_minutes now_min later_min recent_min baseline_min keep_min t [] h k = refl
tally-prune_minutes now_min later_min recent_min baseline_min keep_min t ((m, b) ∷ mins) h k =
    elim (Bool-cases (ltb (m + keep_min) now_min)) [
      | inl old ↦
          rw (old, add_minute_old now_min later_min recent_min baseline_min keep_min t m b h k old)
            (tally-prune_minutes now_min later_min recent_min baseline_min keep_min t mins h k)
      | inr new ↦ rw new (
          tally-prune_minutes now_min later_min recent_min baseline_min keep_min
            (add_minute later_min recent_min baseline_min t m b) mins h k)
    ]

module _ {F : Type 0} (fl : FloatOps F) (one_percent : F) (c : SpikeConfig F) where
  -- A stream without buckets has no spike.
  no_spike :
      (now recent_min : ℕ) (k : Stream)
      → 1 ≤ c.min_rejections
      → spike_of fl one_percent c now recent_min k no_tally ≡ none
  unfolding spike_of detect_spike
  no_spike now recent_min k h = ground arith

  evaluate-keep_stream :
      (s : Stream) (kept : Minutes) (a : Aggregator) (later recent_min baseline_min : ℕ)
      → 1 ≤ c.min_rejections
      → evaluate fl one_percent (keep_stream s kept a) later recent_min baseline_min c
        ≡ cons_some
            (spike_of fl one_percent c later recent_min s
              (tally (unix_minute later) recent_min baseline_min no_tally kept))
            (evaluate fl one_percent a later recent_min baseline_min c)
  unfolding evaluate tally
  evaluate-keep_stream s [] a later recent_min baseline_min h = rw (no_spike later recent_min s h)
  evaluate-keep_stream s (x ∷ kept) a later recent_min baseline_min h = refl

  -- Pruning at one time changes no evaluation at that time or later, whatever the aggregator holds,
  -- if the kept minutes cover both windows and a spike needs at least one rejection: the same
  -- spikes are reported in the same order.
  pub evaluate-prune :
      (a : Aggregator) (now later recent_min baseline_min keep_min : ℕ)
      → now ≤ later
      → recent_min + baseline_min ≤ keep_min
      → 1 ≤ c.min_rejections
      → evaluate fl one_percent (prune a now keep_min) later recent_min baseline_min c
        ≡ evaluate fl one_percent a later recent_min baseline_min c
  unfolding evaluate prune
  evaluate-prune [] now later recent_min baseline_min keep_min h k n = refl
  evaluate-prune ((s, mins) ∷ a) now later recent_min baseline_min keep_min h k n =
      evaluate-keep_stream s (prune_minutes (unix_minute now) keep_min mins) (prune a now keep_min)
        later recent_min baseline_min n
      ∙ ap₂ cons_some
          (ap (spike_of fl one_percent c later recent_min s) (
            tally-prune_minutes (unix_minute now) (unix_minute later) recent_min baseline_min
              keep_min no_tally mins (unfold unix_minute in omega arith) k))
          (evaluate-prune a now later recent_min baseline_min keep_min h k n)
