-- ===== src/AlertRules/Rules.antt =====
-- cmd/alertd/main.go: `checkRule` and the four checks, over what the stores answer. `none` is an
-- error of a query. Sums of uint64 wrap around.
use mxsentinel.Prelude.{◌^◌}
use mxsentinel.Prelude.{
  ℕ, ◌+◌, ◌%◌, Bool, true, false, ◌||◌, Option, none, some, List, [], ◌∷◌, String, str_eq, ltb,
  ◌==◌, if◌then◌else◌, length, select,
}
use mxsentinel.Prelude.Floats.{FloatOps}

-- The fields of a row that an evaluation reads; the condition is a JSON text, empty where there is none.
pub record AlertRule : Type 0 where
  pub id : String
  pub name : String
  pub signal : String
  pub condition : String
  pub channel_ids : List String
  pub enabled : Bool

-- The `cond` of `checkRule`; a `min_messages` below zero acts as 0.
pub record Condition (F : Type 0) : Type 0 where
  pub threshold : F
  pub min_messages : ℕ

pub record ProviderRow : Type 0 where
  pub delivered : ℕ
  pub rejected : ℕ
  pub total : ℕ

pub record PassRate (F : Type 0) : Type 0 where
  pub domain : String
  pub pass_rate : F
  pub total : ℕ

-- What the stores answer to the queries of one rule, and the JSON decoder.
pub record Answers (F : Type 0) : Type 0 where
  pub decode : String → Option (Condition F)
  pub provider_heatmap : Option (List ProviderRow)
  pub open_incident_kinds : Option (List String)
  pub bounce_rates : Option (List F)
  pub dmarc_pass_rates : ℕ → Option (List (PassRate F))

-- `triggered, triggeredValue, threshold`
pub record Verdict (F : Type 0) : Type 0 where
  pub triggered : Bool
  pub value : F
  pub threshold : F

unfoldable pub sum_u64 : (ProviderRow → ℕ) → ℕ → List ProviderRow → ℕ
sum_u64 field acc [] = acc
sum_u64 field acc (r ∷ rows) = sum_u64 field ((acc + field r) % 2 ^ 64) rows

unfoldable pub is_blacklist_kind : String → Bool
is_blacklist_kind k = str_eq k "blacklist_hit" || str_eq k "reputation_blacklist"

-- dmarcPassRateDefaultMinMessages
abbrev pub default_min_messages : ℕ
default_min_messages = 50

abbrev pub on_answer : {A B : Type 0} → Option A → (A → Option B) → Option B
on_answer none f = none
on_answer (some a) f = f a

module _ {F : Type 0} (fl : FloatOps F) where
  open fl use {of_nat, div, ltb as ltb_float}

  abbrev pub verdict : Bool → F → F → Option (Verdict F)
  verdict triggered value threshold =
      some (record { triggered = triggered; value = value; threshold = threshold })

  unfoldable pub rejection_verdict : F → List ProviderRow → Option (Verdict F)
  unfolding sum_u64
  rejection_verdict threshold rows =
      let total = sum_u64 (λ r. r.total) 0 rows in
      let rate = div (of_nat (sum_u64 (λ r. r.rejected) 0 rows)) (of_nat total) in
      if total == 0
      then verdict false (of_nat 0) threshold
      else verdict (ltb_float threshold rate) rate threshold

  unfoldable pub check_rejection_spike : Answers F → F → Option (Verdict F)
  unfolding rejection_verdict
  check_rejection_spike w threshold = on_answer w.provider_heatmap (rejection_verdict threshold)

  unfoldable pub blacklist_verdict : F → List String → Option (Verdict F)
  unfolding is_blacklist_kind
  blacklist_verdict threshold kinds =
      let count = length (select is_blacklist_kind kinds) in
      if ltb 0 count
      then verdict true (of_nat count) threshold
      else verdict false (of_nat 0) threshold

  unfoldable pub check_blacklist_hit : Answers F → F → Option (Verdict F)
  unfolding blacklist_verdict
  check_blacklist_hit w threshold = on_answer w.open_incident_kinds (blacklist_verdict threshold)

  unfoldable pub max_rate : F → List F → F
  max_rate best [] = best
  max_rate best (r ∷ rates) = max_rate (if ltb_float best r then r else best) rates

  unfoldable pub bounce_verdict : F → List F → Option (Verdict F)
  unfolding max_rate
  bounce_verdict threshold rates =
      let worst = max_rate (of_nat 0) rates in verdict (ltb_float threshold worst) worst threshold

  unfoldable pub check_bounce_rate : Answers F → F → Option (Verdict F)
  unfolding bounce_verdict
  check_bounce_rate w threshold = on_answer w.bounce_rates (bounce_verdict threshold)

  -- The rates come worst first; the first one below the threshold is reported.
  unfoldable pub pass_rate_verdict : F → List (PassRate F) → Option (Verdict F)
  pass_rate_verdict threshold [] = verdict false (of_nat 0) threshold
  pass_rate_verdict threshold (d ∷ ds) =
      if ltb_float d.pass_rate threshold
      then verdict true d.pass_rate threshold
      else pass_rate_verdict threshold ds

  unfoldable pub check_dmarc_pass_rate : Answers F → F → ℕ → Option (Verdict F)
  unfolding pass_rate_verdict
  check_dmarc_pass_rate w threshold min_messages =
      on_answer
        (w.dmarc_pass_rates (if min_messages == 0 then default_min_messages else min_messages))
        (pass_rate_verdict threshold)

  abbrev parsed : Answers F → String → Option (Condition F)
  parsed w raw =
      if str_eq raw ""
      then some (record { threshold = of_nat 0; min_messages = 0 })
      else w.decode raw

  unfoldable pub check_signal : Answers F → String → Condition F → Option (Verdict F)
  unfolding check_rejection_spike check_blacklist_hit check_bounce_rate check_dmarc_pass_rate
  check_signal w signal c =
      if str_eq signal "rejection_spike"
      then check_rejection_spike w c.threshold
      else if str_eq signal "blacklist_hit"
      then check_blacklist_hit w c.threshold
      else if str_eq signal "bounce_rate"
      then check_bounce_rate w c.threshold
      else if str_eq signal "dmarc_pass_rate"
      then check_dmarc_pass_rate w c.threshold c.min_messages
      else verdict false (of_nat 0) (of_nat 0)

  unfoldable pub check_rule : Answers F → AlertRule → Option (Verdict F)
  unfolding check_signal
  check_rule w rule = on_answer (parsed w rule.condition) (check_signal w rule.signal)
