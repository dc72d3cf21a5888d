-- ===== src/HealthScore/Compute.antt =====
-- internal/healthscore/score.go: `Compute`, `Grade` and `Drags`.
use mxsentinel.Prelude.{
  ℕ, Bool, true, false, not, ◌&&◌, Option, none, some, List, [], ◌∷◌, map, if◌then◌else◌, select,
}
use mxsentinel.Prelude.Floats.{FloatOps}
use mxsentinel.Prelude.Sort.{sort}
use mxsentinel.HealthScore.Components.{
  Component, dmarc, complaints, blocklist, bounce, anomaly, postmaster, DmarcInput, BlocklistInput,
  BounceInput, AnomalyInput, PostmasterInput, Inputs, Constants, dmarc_score, complaint_score,
  blocklist_score, bounce_score, anomaly_score, postmaster_score,
}

pub record Weights (F : Type 0) : Type 0 where
  pub dmarc_weight : F
  pub complaints_weight : F
  pub blocklist_weight : F
  pub bounce_weight : F
  pub anomaly_weight : F
  pub postmaster_weight : F

unfoldable pub for_component : {F : Type 0} → Weights F → Component → F
for_component w dmarc = w.dmarc_weight
for_component w complaints = w.complaints_weight
for_component w blocklist = w.blocklist_weight
for_component w bounce = w.bounce_weight
for_component w anomaly = w.anomaly_weight
for_component w postmaster = w.postmaster_weight

-- A component before the weights are known.
pub record Raw (F : Type 0) : Type 0 where
  pub name : Component
  pub present : Bool
  pub score : F

pub record ComponentScore (F : Type 0) : Type 0 where
  pub name : Component
  pub present : Bool
  pub score : F
  pub weight : F
  pub impact : F

pub data Grade : Type 0 where
  not_available grade_f grade_d grade_c grade_b grade_a : Grade

pub record ScoreResult (F : Type 0) : Type 0 where
  pub score : F
  pub grade : Grade
  pub has_data : Bool
  pub coverage : F
  pub components : List (ComponentScore F)

module _ {F : Type 0} (fl : FloatOps F) where
  open fl use {of_nat, add, sub, mul, div, leb as leb_float, ltb as ltb_float}

  unfoldable pub grade_of : F → Grade
  grade_of score =
      if leb_float (of_nat 90) score
      then grade_a
      else if leb_float (of_nat 80) score
      then grade_b
      else if leb_float (of_nat 70) score
      then grade_c
      else if leb_float (of_nat 60) score
      then grade_d
      else grade_f

  abbrev absent : Component → Raw F
  absent name = record { name = name; present = false; score = of_nat 0 }

  abbrev scored : Component → F → Raw F
  scored name score = record { name = name; present = true; score = score }

  abbrev found : Component → F × Bool → Raw F
  found name r = record { name = name; present = r.1; score = r.0 }

  abbrev pub dmarc_raw : Option DmarcInput → Raw F
  dmarc_raw none = absent dmarc
  dmarc_raw (some i) = scored dmarc (dmarc_score fl i)

  abbrev pub complaints_raw : Option ℕ → Raw F
  complaints_raw none = absent complaints
  complaints_raw (some n) = scored complaints (complaint_score fl n)

  abbrev pub blocklist_raw : Option BlocklistInput → Raw F
  blocklist_raw none = absent blocklist
  blocklist_raw (some i) = found blocklist (blocklist_score fl i)

  abbrev pub bounce_raw : Constants F → Option BounceInput → Raw F
  bounce_raw k none = absent bounce
  bounce_raw k (some i) = found bounce (bounce_score fl k i)

  abbrev pub anomaly_raw : Option (AnomalyInput F) → Raw F
  anomaly_raw none = absent anomaly
  anomaly_raw (some i) = scored anomaly (anomaly_score fl i)

  abbrev pub postmaster_raw : Constants F → Option (PostmasterInput F) → Raw F
  postmaster_raw k none = absent postmaster
  postmaster_raw k (some i) = found postmaster (postmaster_score fl k i)

  -- `raws`, in the order of the code.
  unfoldable pub raws : Constants F → Inputs F → List (Raw F)
  unfolding dmarc_score complaint_score blocklist_score bounce_score anomaly_score postmaster_score
  raws k i =
      dmarc_raw i.dmarc_input
      ∷ complaints_raw i.complaints_24h
      ∷ blocklist_raw i.blocklist_input
      ∷ bounce_raw k i.bounce_input
      ∷ anomaly_raw i.anomaly_input
      ∷ postmaster_raw k i.postmaster_input
      ∷ []

  unfoldable pub present_weight : Weights F → F → List (Raw F) → F
  unfolding for_component
  present_weight w acc [] = acc
  present_weight w acc (r ∷ rs) =
      present_weight w (if r.present then add acc (for_component w r.name) else acc) rs

  unfoldable pub total_weight : Weights F → F → List (Raw F) → F
  unfolding for_component
  total_weight w acc [] = acc
  total_weight w acc (r ∷ rs) = total_weight w (add acc (for_component w r.name)) rs

  unfoldable pub round1 : Constants F → F → F
  round1 k v = div (k.round (mul v (of_nat 10))) (of_nat 10)

  unfoldable pub round3 : Constants F → F → F
  round3 k v = div (k.round (mul v (of_nat 1000))) (of_nat 1000)

  -- `r.present && totalPresentWeight > 0`
  abbrev pub counts : F → Raw F → Bool
  counts total r = r.present && ltb_float (of_nat 0) total

  unfoldable pub component_score : Constants F → Weights F → F → Raw F → ComponentScore F
  unfolding round1 round3
  component_score k w total r =
      let nw = div (for_component w r.name) total in
      record {
        name = r.name;
        present = r.present;
        score = round1 k r.score;
        weight = if counts total r then round3 k nw else of_nat 0;
        impact = if counts total r then round1 k (mul nw (sub (of_nat 100) r.score)) else of_nat 0;
      }

  unfoldable pub weighted_from : Weights F → F → F → List (Raw F) → F
  weighted_from w total acc [] = acc
  weighted_from w total acc (r ∷ rs) =
      weighted_from w total
        (if counts total r then add acc (mul (div (for_component w r.name) total) r.score) else acc)
        rs

  -- `==` on float64.
  abbrev pub eq_float : F → F → Bool
  eq_float a b = leb_float a b && leb_float b a

  unfoldable pub result_of : Constants F → Weights F → List (Raw F) → F → ScoreResult F
  unfolding component_score weighted_from total_weight grade_of
  result_of k w rs total =
      let comps = map (component_score k w total) rs in
      let score = round1 k (weighted_from w total (of_nat 0) rs) in
      let all = total_weight w (of_nat 0) rs in
      if eq_float total (of_nat 0)
      then record {
        score = of_nat 0;
        grade = not_available;
        has_data = false;
        coverage = of_nat 0;
        components = comps;
      }
      else record {
        score = score;
        grade = grade_of score;
        has_data = true;
        coverage = if ltb_float (of_nat 0) all then round3 k (div total all) else of_nat 0;
        components = comps;
      }

  unfoldable pub compute : Constants F → Inputs F → Weights F → ScoreResult F
  unfolding raws present_weight result_of
  compute k i w = result_of k w (raws k i) (present_weight w (of_nat 0) (raws k i))

  -- The present components that take points away, the largest first.
  unfoldable pub drags : ScoreResult F → List (ComponentScore F)
  drags r =
      sort (λ a b. not (ltb_float a.impact b.impact))
        (select (λ c. c.present && ltb_float (of_nat 0) c.impact) r.components)
