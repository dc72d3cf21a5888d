-- ===== src/HealthScore/Components.antt =====
-- internal/healthscore/score.go: the inputs and the score of each component. Only the texts of the
-- details are left out. The constants of float64 are fields of `Constants`.
use mxsentinel.Prelude.{◌^◌}
use mxsentinel.Prelude.{
  ℕ, ◌+◌, ◌-◌, ◌%◌, Bool, true, false, ◌&&◌, ◌||◌, Option, none, some, map, ltb, leb, ◌==◌,
  if◌then◌else◌,
}
use mxsentinel.Prelude.Text.{Bytes, codes, bytes_eq}
use mxsentinel.Prelude.Floats.{FloatOps}

pub data Component : Type 0 where
  dmarc complaints blocklist bounce anomaly postmaster : Component

pub record DmarcInput : Type 0 where
  pub total : ℕ
  pub dkim_aligned : ℕ
  pub spf_aligned : ℕ

pub record BlocklistInput : Type 0 where
  pub total_ips : ℕ
  pub listed_ips : ℕ

pub record BounceInput : Type 0 where
  pub total : ℕ
  pub bounced : ℕ
  pub rejected : ℕ
  pub deferred : ℕ

pub record AnomalyInput (F : Type 0) : Type 0 where
  pub active_spike : Bool
  pub ratio : F

pub record PostmasterInput (F : Type 0) : Type 0 where
  pub grade : Bytes
  pub spam_rate : Option F

-- A missing input is `none`.
pub record Inputs (F : Type 0) : Type 0 where
  pub dmarc_input : Option DmarcInput
  pub complaints_24h : Option ℕ
  pub blocklist_input : Option BlocklistInput
  pub bounce_input : Option BounceInput
  pub anomaly_input : Option (AnomalyInput F)
  pub postmaster_input : Option (PostmasterInput F)

-- The literals 0.02, 0.18 and 0.003, and math.Round.
pub record Constants (F : Type 0) : Type 0 where
  pub round : F → F
  pub free_rate : F
  pub rate_span : F
  pub spam_limit : F

-- Upper case, byte by byte.
unfoldable pub upper : Bytes → Bytes
upper s = map (λ c. if leb 97 c && leb c 122 then c - 32 else c) s

module _ {F : Type 0} (fl : FloatOps F) where
  open fl use {of_nat, add, sub, mul, div, ltb as ltb_float}

  unfoldable pub clamp100 : F → F
  clamp100 v =
      if ltb_float v (of_nat 0)
      then of_nat 0
      else if ltb_float (of_nat 100) v
      then of_nat 100
      else v

  -- math.Max of two rates that are not NaN.
  unfoldable pub max : F → F → F
  max a b = if ltb_float a b then b else a

  unfoldable pub dmarc_score : DmarcInput → F
  unfolding clamp100 max
  dmarc_score i =
      if i.total == 0
      then of_nat 100
      else clamp100 (
          mul
            (max (div (of_nat i.dkim_aligned) (of_nat i.total))
              (div (of_nat i.spf_aligned) (of_nat i.total)))
            (of_nat 100))

  unfoldable pub complaint_score : ℕ → F
  unfolding clamp100
  complaint_score n = clamp100 (sub (of_nat 100) (mul (of_nat n) (of_nat 6)))

  -- A score, and whether the component is present.
  unfoldable pub blocklist_score : BlocklistInput → F × Bool
  unfolding clamp100
  blocklist_score i =
      let frac = div (of_nat i.listed_ips) (of_nat i.total_ips) in
      let score = clamp100 (mul (of_nat 100) (sub (of_nat 1) frac)) in
      if i.total_ips == 0
      then (of_nat 0, false)
      else (if ltb 0 i.listed_ips && ltb_float (of_nat 50) score then of_nat 50 else score, true)

  unfoldable pub bounce_score : Constants F → BounceInput → F × Bool
  unfolding clamp100
  bounce_score k i =
      let rate = div (of_nat ((i.bounced + i.rejected) % 2 ^ 64)) (of_nat i.total) in
      if i.total == 0 then (of_nat 0, false) else (
        clamp100 (mul (of_nat 100) (sub (of_nat 1) (div (sub rate k.free_rate) k.rate_span))),
        true,
      )

  unfoldable pub anomaly_score : AnomalyInput F → F
  unfolding clamp100
  anomaly_score i =
      let ratio = if ltb_float i.ratio (of_nat 1) then of_nat 1 else i.ratio in
      if i.active_spike
      then clamp100 (sub (of_nat 100) (mul (sub ratio (of_nat 1)) (of_nat 25)))
      else of_nat 100

  unfoldable pub postmaster_grade_score : Bytes → Option F
  postmaster_grade_score g =
      if bytes_eq g (codes "HIGH") || bytes_eq g (codes "GOOD")
      then some (of_nat 100)
      else if bytes_eq g (codes "MEDIUM")
      then some (of_nat 60)
      else if bytes_eq g (codes "LOW")
      then some (of_nat 30)
      else if bytes_eq g (codes "BAD")
      then some (of_nat 0)
      else none

  -- The lower of the grade's score and the rate's; 100 stands for a missing grade.
  abbrev pub graded : Constants F → Option F → Option F → F × Bool
  graded k none none = (of_nat 0, false)
  graded k (some base) none = (base, true)
  graded k base (some rate) =
      let base' = or_full base in
      let rate_score = clamp100 (mul (of_nat 100) (sub (of_nat 1) (div rate k.spam_limit))) in
      (if ltb_float rate_score base' then rate_score else base', true)
    where
      or_full : Option F → F
      or_full none = of_nat 100
      or_full (some b) = b

  unfoldable pub postmaster_score : Constants F → PostmasterInput F → F × Bool
  unfolding postmaster_grade_score upper
  postmaster_score k i = graded k (postmaster_grade_score (upper i.grade)) i.spam_rate
