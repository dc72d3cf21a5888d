-- ===== src/Correlate/Tests.antt =====
-- The correlation engine at concrete streams and changes, over thousandths for float64.
use mxsentinel.Prelude.{
  ℕ, zero, suc, ◌+◌, ◌-◌, ◌*◌, ◌/◌, ◌%◌, ◌≤◌, ◌<◌, ◌≡◌, refl, sym, ap, ◌∙◌, ◌≢◌, ◌↔◌, ◌⊎◌, inl, inr,
  Bool, true, false, not, ◌&&◌, ◌||◌, Option, none, some, List, [], ◌∷◌, ◌++◌, map, append_assoc,
  append-nil, arith, String, str_eq, eq_iff, eq_refl, ltb, leb, ◌==◌, if◌then◌else◌, ltb→lt, lt→ltb,
  leb→le, le→leb, ==→eq, ==_refl, Bool-cases, &&-left, &&-right, ||-cases, length, take, select,
  any, length-append, length-take_le, All, All-append, All-select, length-select, select-All,
  All-select_keep,
}
use mxsentinel.Prelude.Floats.{milli}
use mxsentinel.Correlate.Reason.{auth, reputation}
use mxsentinel.Correlate.Spike.{Window, SpikeConfig, detect_spike}
use mxsentinel.Correlate.Aggregator.{
  Stream, stream_eq, Aggregator, Spike, Counts, observe, evaluate, prune, tally, no_tally,
  is_recent, unix_minute, dominant_reason,
}
use mxsentinel.Correlate.Counting.{minutes_of, observe-recent}
use mxsentinel.Correlate.Pruning.{evaluate-prune}
use mxsentinel.Correlate.RootCause.{DnsChange, correlate}
use mxsentinel.Correlate.Latest.{IsLatest}
use mxsentinel.Correlate.Blame.{IsJustified, correlate-IsJustified}

abbrev one_rejection : SpikeConfig ℕ
one_rejection = record { min_rejections = 1; reject_rate = 300; baseline_multiplier = 3000 }

abbrev counts : ℕ → ℕ → Window
counts t r = record { total = t; rejections = r }

abbrev outlook : Stream
outlook = record { tenant_id = "t"; domain = "d.com"; provider = "microsoft" }

abbrev seen : Aggregator
seen = observe (observe [] outlook 60 true auth) outlook 6000 true auth

abbrev spikes : List Spike
spikes = evaluate milli 10 seen 6000 5 30 one_rejection

one_spike :
    spikes
    ≡ record {
      tenant_id = "t";
      domain = "d.com";
      provider = "microsoft";
      window_start = 5700;
      window_end = 6000;
      dominant_reason = auth;
      rejections = 1;
    }
      ∷ []
unfolding evaluate observe mxsentinel.Prelude.Assoc.insert mxsentinel.Correlate.Aggregator.spike_of
    detect_spike tally mxsentinel.Prelude.Assoc.lookup unix_minute
    mxsentinel.Correlate.Aggregator.add_minute dominant_reason
    mxsentinel.Correlate.Aggregator.merge_counts mxsentinel.Correlate.Aggregator.add_count
one_spike = refl

evaluate-prune_example :
    evaluate milli 10 (prune seen 6000 35) 6060 5 30 one_rejection
    ≡ evaluate milli 10 seen 6060 5 30 one_rejection
evaluate-prune_example =
    evaluate-prune milli 10 one_rejection seen 6000 6060 5 30 35 (omega arith) (omega arith)
      (omega arith)

observe-recent_example :
    let after =
      (tally 100 5 30 no_tally (minutes_of outlook (observe seen outlook 6000 true auth))).recent in
    let before = (tally 100 5 30 no_tally (minutes_of outlook seen)).recent in
    let here = stream_eq outlook outlook && is_recent 100 5 (unix_minute 6000) in
    (after.total ≡ before.total + (if here then 1 else 0))
    × (after.rejections ≡ before.rejections + (if here && true then 1 else 0))
observe-recent_example = observe-recent seen outlook outlook 6000 true auth 100 5 30

abbrev two_reasons : Counts
two_reasons = (auth, 2) ∷ (reputation, 3) ∷ []

abbrev dkim_removed : DnsChange
dkim_removed = record {
  snapshot_id = "s1";
  at = 5650;
  findings =
      record { category = "dkim"; severity = "critical"; code = "DKIM_MISSING_SELECTOR" } ∷ [];
}

abbrev auth_spike : Spike
auth_spike = record {
  tenant_id = "t";
  domain = "d.com";
  provider = "microsoft";
  window_start = 5700;
  window_end = 6000;
  dominant_reason = auth;
  rejections = 9;
}

correlate-IsJustified_example :
    let r = correlate auth_spike (dkim_removed ∷ []) 3600 in
    IsLatest 5700 3600 6000 (dkim_removed ∷ []) r.related_change × IsJustified auth_spike r
correlate-IsJustified_example = correlate-IsJustified auth_spike (dkim_removed ∷ []) 3600
