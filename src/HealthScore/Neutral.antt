-- ===== src/HealthScore/Neutral.antt =====
-- Missing components of internal/healthscore/score.go.
use mxsentinel.Prelude.{
  ◌≡◌, refl, ap, ◌⊎◌, inl, inr, false, List, [], ◌∷◌, if◌then◌else◌, Bool-cases, select, All,
}
use mathlib.Core.Path.{subst}
use mxsentinel.Prelude.Floats.{FloatOps}
use mxsentinel.HealthScore.Components.{Inputs, Constants}
use mxsentinel.HealthScore.Compute.{
  ScoreResult, Raw, Weights, for_component, present_weight, weighted_from, round1, grade_of,
  result_of, raws, compute, eq_float,
}

module _ {F : Type 0} (fl : FloatOps F) where
  open fl use {of_nat, add, mul, div, ltb as ltb_float}

  -- The weights give the present components the same weight.
  abbrev pub AgreeOn : Weights F → Weights F → List (Raw F) → Type 0
  AgreeOn w v rs =
      All (λ r. (r.present ≡ false) ⊎ (for_component w r.name ≡ for_component v r.name)) rs

  abbrev pub present : List (Raw F) → List (Raw F)
  present rs = select (λ r. r.present) rs

  present_weight-present :
      (w v : Weights F) (rs : List (Raw F)) (acc : F)
      → AgreeOn w v rs
      → present_weight fl w acc rs ≡ present_weight fl v acc (present rs)
  unfolding present_weight select
  present_weight-present w v [] acc h = refl
  present_weight-present w v (r ∷ rs) acc (inl p, h) = rw p (present_weight-present w v rs acc h)
  present_weight-present w v (r ∷ rs) acc (inr e, h) = elim (Bool-cases r.present) [
    | inl q ↦ rw q rw e (present_weight-present w v rs (add acc (for_component v r.name)) h)
    | inr q ↦ rw q (present_weight-present w v rs acc h)
  ]

  weighted_from-present :
      (w v : Weights F) (total : F) (rs : List (Raw F)) (acc : F)
      → AgreeOn w v rs
      → weighted_from fl w total acc rs ≡ weighted_from fl v total acc (present rs)
  unfolding weighted_from select
  weighted_from-present w v total [] acc h = refl
  weighted_from-present w v total (r ∷ rs) acc (inl p, h) =
      rw p (weighted_from-present w v total rs acc h)
  weighted_from-present w v total (r ∷ rs) acc (inr e, h) = elim (Bool-cases r.present) [
    | inl q ↦ rw q rw e (
        weighted_from-present w v total rs
          (if ltb_float (of_nat 0) total
            then add acc (mul (div (for_component v r.name) total) r.score)
            else acc)
          h)
    | inr q ↦ rw q (weighted_from-present w v total rs acc h)
  ]

  -- The parts of a result that the claim is about.
  abbrev pub SameScore : ScoreResult F → ScoreResult F → Type 0
  SameScore a b = (a.score ≡ b.score) × (a.grade ≡ b.grade) × (a.has_data ≡ b.has_data)

  same_result :
      (k : Constants F) (w v : Weights F) (rs ls : List (Raw F)) (total : F)
      → weighted_from fl w total (of_nat 0) rs ≡ weighted_from fl v total (of_nat 0) ls
      → SameScore (result_of fl k w rs total) (result_of fl k v ls total)
  unfolding result_of
  same_result k w v rs ls total e = elim (Bool-cases (eq_float fl total (of_nat 0))) [
    | inl q ↦ rw q (refl, refl, refl)
    | inr q ↦ rw q (ap (round1 fl k) e, ap (λ x. grade_of fl (round1 fl k x)) e, refl)
  ]

  -- The score, the grade and whether there is data come of the present components alone: leaving the
  -- missing ones out, and giving them any other weights, changes none of the three.
  pub compute-present :
      (k : Constants F) (i : Inputs F) (w v : Weights F)
      → AgreeOn w v (raws fl k i)
      → let left = present (raws fl k i) in
        SameScore (compute fl k i w) (result_of fl k v left (present_weight fl v (of_nat 0) left))
  unfolding compute
  compute-present k i w v h =
      subst
        (λ t.
          SameScore (result_of fl k w (raws fl k i) (present_weight fl w (of_nat 0) (raws fl k i)))
            (result_of fl k v (present (raws fl k i)) t))
        (present_weight-present w v (raws fl k i) (of_nat 0) h)
        (same_result k w v (raws fl k i) (present (raws fl k i))
          (present_weight fl w (of_nat 0) (raws fl k i))
          (weighted_from-present w v (present_weight fl w (of_nat 0) (raws fl k i)) (raws fl k i)
            (of_nat 0) h))
