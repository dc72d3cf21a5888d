-- ===== src/Correlate/Spike.antt =====
-- internal/correlate/correlate.go: counts over a window and the spike test.
use mxsentinel.Prelude.{ℕ, ◌≤◌, ◌≡◌, ◌↔◌, ◌⊎◌, Bool, true, false, arith, ltb, ◌==◌, if◌then◌else◌}
use mxsentinel.Prelude.Floats.{FloatOps}

pub record Window : Type 0 where
  pub total : ℕ
  pub rejections : ℕ

pub record SpikeConfig (F : Type 0) : Type 0 where
  pub min_rejections : ℕ
  pub reject_rate : F
  pub baseline_multiplier : F

pub record SpikeResult (F : Type 0) : Type 0 where
  pub is_spike : Bool
  pub score : F

-- `one_percent` is the constant 0.01.
module _ {F : Type 0} (fl : FloatOps F) (one_percent : F) where
  open fl use {of_nat, div, leb as leb_float, ltb as ltb_float}

  unfoldable pub reject_rate_of : Window → F
  reject_rate_of w = if w.total == 0 then of_nat 0 else div (of_nat w.rejections) (of_nat w.total)

  unfoldable pub detect_spike : Window → Window → SpikeConfig F → SpikeResult F
  unfolding reject_rate_of
  detect_spike recent baseline c =
      let rr = reject_rate_of recent in
      let br = reject_rate_of baseline in
      let score = div rr br in
      if ltb recent.rejections c.min_rejections
      then record { is_spike = false; score = of_nat 0 }
      else if ltb_float rr c.reject_rate
      then record { is_spike = false; score = of_nat 0 }
      else if leb_float br (of_nat 0)
      then record { is_spike = true; score = div rr one_percent }
      else if leb_float c.baseline_multiplier score
      then record { is_spike = true; score = score }
      else record { is_spike = false; score = score }

  -- A spike has at least the floor of rejections, a recent rate not below the absolute threshold,
  -- and either no baseline failures or a rate of at least the multiple of the baseline's; and all
  -- of that together is a spike.
  pub detect_spike_iff :
      (recent baseline : Window) (c : SpikeConfig F)
      → ((detect_spike recent baseline c).is_spike ≡ true) ↔ (
          (c.min_rejections ≤ recent.rejections)
          × (ltb_float (reject_rate_of recent) c.reject_rate ≡ false)
          × ((leb_float (reject_rate_of baseline) (of_nat 0) ≡ true)
              ⊎ (leb_float c.baseline_multiplier
                    (div (reject_rate_of recent) (reject_rate_of baseline))
                  ≡ true)))
  unfolding detect_spike
  detect_spike_iff recent baseline c = (λ h. ground arith, λ h. ground arith)
