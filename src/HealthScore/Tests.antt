-- ===== src/HealthScore/Tests.antt =====
-- The score of concrete inputs, over thousandths for float64. A difference below zero is 0 there,
-- which the clamp gives as well.
use mxsentinel.Prelude.{
  ℕ, zero, suc, ◌+◌, ◌-◌, ◌*◌, ◌/◌, ◌%◌, ◌≤◌, ◌<◌, ◌≡◌, refl, sym, ap, ◌∙◌, ◌≢◌, ◌↔◌, ◌⊎◌, inl, inr,
  Bool, true, false, not, ◌&&◌, ◌||◌, Option, none, some, List, [], ◌∷◌, ◌++◌, map, append_assoc,
  append-nil, arith, String, str_eq, eq_iff, eq_refl, ltb, leb, ◌==◌, if◌then◌else◌, ltb→lt, lt→ltb,
  leb→le, le→leb, ==→eq, ==_refl, Bool-cases, &&-left, &&-right, ||-cases, length, take, select,
  any, length-append, length-take_le, All, All-append, All-select, length-select, select-All,
  All-select_keep,
}
use mxsentinel.Prelude.Floats.{milli}
use mxsentinel.HealthScore.Components.{Inputs, Constants}
use mxsentinel.HealthScore.Compute.{
  Raw, Weights, ScoreResult, compute, raws, Grade, grade_f, grade_c, grade_a, grade_of, drags,
  result_of, present_weight,
}
use mxsentinel.HealthScore.Bounds.{IsOrdered, InRange, raws-InRange}
use mxsentinel.HealthScore.Neutral.{SameScore, present, compute-present}

abbrev constants : Constants ℕ
constants = record {
  round = λ v. (v + 500) / 1000 * 1000;
  free_rate = 20;
  rate_span = 180;
  spam_limit = 3;
}

abbrev weights : Weights ℕ
weights = record {
  dmarc_weight = 250;
  complaints_weight = 150;
  blocklist_weight = 200;
  bounce_weight = 200;
  anomaly_weight = 100;
  postmaster_weight = 100;
}

-- Nine of ten reported messages are aligned, and one of four addresses is listed.
abbrev inputs : Inputs ℕ
inputs = record {
  dmarc_input = some (record { total = 10; dkim_aligned = 9; spf_aligned = 4 });
  complaints_24h = none;
  blocklist_input = some (record { total_ips = 4; listed_ips = 1 });
  bounce_input = none;
  anomaly_input = none;
  postmaster_input = none;
}

-- (250 * 90 + 200 * 50) / 450, where a share of the weights is cut to thousandths.
partial_score : (compute milli constants inputs weights).score ≡ 72200
unfolding compute
partial_score = refl

partial_grade : (compute milli constants inputs weights).grade ≡ grade_c
unfolding compute
partial_grade = refl

two_drags : length (drags milli (compute milli constants inputs weights)) ≡ 2
unfolding compute drags mxsentinel.Prelude.Sort.sort select
two_drags = refl

milli-IsOrdered : IsOrdered milli
milli-IsOrdered = record {
  of_nat_mono = λ a b h. le→leb (a * 1000) (b * 1000) (omega arith);
  le_of_not_lt = λ a b h. ground (arith, le→leb (a + 1) b);
  le_of_lt = λ a b h. le→leb a b (omega (arith, leb→le (a + 1) b h));
  le_trans = λ a b c h k. le→leb a c (omega (arith, leb→le a b h, leb→le b c k));
}

raws-InRange_example : All (λ r. InRange milli r.score) (raws milli constants inputs)
raws-InRange_example = raws-InRange milli milli-IsOrdered constants inputs

-- The weights of the missing components are lost.
abbrev other_weights : Weights ℕ
other_weights = record weights { complaints_weight = 7; anomaly_weight = 9000 }

compute-present_example :
    let left = present milli (raws milli constants inputs) in
    SameScore milli
      (compute milli constants inputs weights)
      (result_of milli constants other_weights left (present_weight milli other_weights 0 left))
unfolding raws mxsentinel.HealthScore.Compute.for_component
compute-present_example =
    compute-present milli constants inputs weights other_weights
      (inr refl, (inl refl, (inr refl, (inr refl, (inl refl, (inr refl, tt))))))
