-- ===== src/HealthScore/Bounds.antt =====
-- The range of the scores of internal/healthscore/score.go, and the order of the grades.
use mxsentinel.Prelude.{
  ℕ, ◌≤◌, ◌≡◌, inl, inr, Bool, true, false, ◌||◌, Option, none, some, arith, ◌==◌, if◌then◌else◌,
  Bool-cases, All,
}
use mxsentinel.Prelude.Text.{Bytes, codes, bytes_eq}
use mxsentinel.Prelude.Floats.{FloatOps}
use mxsentinel.HealthScore.Components.{
  DmarcInput, BlocklistInput, BounceInput, AnomalyInput, PostmasterInput, Inputs, Constants,
  clamp100, upper, dmarc_score, complaint_score, blocklist_score, bounce_score, anomaly_score,
  postmaster_score, postmaster_grade_score, graded,
}
use mxsentinel.HealthScore.Compute.{
  Grade, not_available, grade_f, grade_d, grade_c, grade_b, grade_a, grade_of, raws, dmarc_raw,
  complaints_raw, blocklist_raw, bounce_raw, anomaly_raw, postmaster_raw,
}

-- The comparisons of floats that are not NaN.
pub record IsOrdered {F : Type 0} (fl : FloatOps F) : Type 0 where
  pub of_nat_mono : (a b : ℕ) → a ≤ b → fl.leb (fl.of_nat a) (fl.of_nat b) ≡ true
  pub le_of_not_lt : (a b : F) → fl.ltb a b ≡ false → fl.leb b a ≡ true
  pub le_of_lt : (a b : F) → fl.ltb a b ≡ true → fl.leb a b ≡ true
  pub le_trans : (a b c : F) → fl.leb a b ≡ true → fl.leb b c ≡ true → fl.leb a c ≡ true

-- Between 0 and 100.
abbrev pub InRange : {F : Type 0} → FloatOps F → F → Type 0
InRange fl v = (fl.leb (fl.of_nat 0) v ≡ true) × (fl.leb v (fl.of_nat 100) ≡ true)

abbrev pub level : Grade → ℕ
level not_available = 0
level grade_f = 1
level grade_d = 2
level grade_c = 3
level grade_b = 4
level grade_a = 5

module _ {F : Type 0} (fl : FloatOps F) (laws : IsOrdered fl) where
  open fl use {of_nat, leb as leb_float, ltb as ltb_float}
  open laws use {of_nat_mono, le_of_not_lt, le_of_lt, le_trans}

  const-InRange : (n : ℕ) → n ≤ 100 → InRange fl (of_nat n)
  const-InRange n h = (of_nat_mono 0 n (omega arith), of_nat_mono n 100 h)

  clamp100-InRange : (v : F) → InRange fl (clamp100 fl v)
  unfolding clamp100
  clamp100-InRange v = elim (Bool-cases (ltb_float v (of_nat 0))) [
    | inl q ↦ rw q (const-InRange 0 (omega arith))
    | inr q ↦ rw q (elim (Bool-cases (ltb_float (of_nat 100) v)) [
      | inl p ↦ rw p (const-InRange 100 (omega arith))
      | inr p ↦ rw p (le_of_not_lt v (of_nat 0) q, le_of_not_lt (of_nat 100) v p)
    ])
  ]

  if-InRange : (b : Bool) (x y : F) → InRange fl x → InRange fl y → InRange fl (if b then x else y)
  if-InRange true x y hx hy = hx
  if-InRange false x y hx hy = hy

  blocklist-InRange : (i : BlocklistInput) → InRange fl (blocklist_score fl i).0
  unfolding blocklist_score
  blocklist-InRange i = elim (Bool-cases (i.total_ips == 0)) [
    | inl q ↦ rw q (const-InRange 0 (omega arith))
    | inr q ↦ rw q (if-InRange _ _ _ (const-InRange 50 (omega arith)) (clamp100-InRange _))
  ]

  bounce-InRange : (k : Constants F) (i : BounceInput) → InRange fl (bounce_score fl k i).0
  unfolding bounce_score
  bounce-InRange k i = elim (Bool-cases (i.total == 0)) [
    | inl q ↦ rw q (const-InRange 0 (omega arith))
    | inr q ↦ rw q (clamp100-InRange _)
  ]

  dmarc-InRange : (i : DmarcInput) → InRange fl (dmarc_score fl i)
  unfolding dmarc_score
  dmarc-InRange i =
      if-InRange (i.total == 0) _ _ (const-InRange 100 (omega arith)) (clamp100-InRange _)

  complaint-InRange : (n : ℕ) → InRange fl (complaint_score fl n)
  unfolding complaint_score
  complaint-InRange n = clamp100-InRange _

  anomaly-InRange : (i : AnomalyInput F) → InRange fl (anomaly_score fl i)
  unfolding anomaly_score
  anomaly-InRange i =
      if-InRange i.active_spike _ _ (clamp100-InRange _) (const-InRange 100 (omega arith))

  abbrev EachInRange : Option F → Type 0
  EachInRange none = Unit
  EachInRange (some b) = InRange fl b

  if-EachInRange :
      (b : Bool) (x y : Option F) → EachInRange x → EachInRange y → EachInRange (if b then x else y)
  if-EachInRange true x y hx hy = hx
  if-EachInRange false x y hx hy = hy

  grade_score-InRange : (g : Bytes) → EachInRange (postmaster_grade_score fl g)
  unfolding postmaster_grade_score
  grade_score-InRange g =
      elim (Bool-cases (bytes_eq g (codes "HIGH") || bytes_eq g (codes "GOOD"))) [
        | inl q ↦ rw q (const-InRange 100 (omega arith))
        | inr q ↦ rw q (elim (Bool-cases (bytes_eq g (codes "MEDIUM"))) [
          | inl m ↦ rw m (const-InRange 60 (omega arith))
          | inr m ↦ rw m (
              if-EachInRange (bytes_eq g (codes "LOW")) (some (of_nat 30))
                (if bytes_eq g (codes "BAD") then some (of_nat 0) else none)
                (const-InRange 30 (omega arith))
                (if-EachInRange (bytes_eq g (codes "BAD")) (some (of_nat 0)) none
                  (const-InRange 0 (omega arith)) tt))
        ])
      ]

  graded-InRange :
      (k : Constants F) (base rate : Option F)
      → EachInRange base
      → InRange fl (graded fl k base rate).0
  graded-InRange k none none h = const-InRange 0 (omega arith)
  graded-InRange k (some b) none h = h
  graded-InRange k none (some rate) h =
      if-InRange _ _ _ (clamp100-InRange _) (const-InRange 100 (omega arith))
  graded-InRange k (some b) (some rate) h = if-InRange _ _ _ (clamp100-InRange _) h

  postmaster-InRange :
      (k : Constants F) (i : PostmasterInput F) → InRange fl (postmaster_score fl k i).0
  unfolding postmaster_score
  postmaster-InRange k i =
      graded-InRange k (postmaster_grade_score fl (upper i.grade)) i.spam_rate
        (grade_score-InRange (upper i.grade))

  dmarc_raw-InRange : (o : Option DmarcInput) → InRange fl (dmarc_raw fl o).score
  dmarc_raw-InRange none = const-InRange 0 (omega arith)
  dmarc_raw-InRange (some i) = dmarc-InRange i

  complaints_raw-InRange : (o : Option ℕ) → InRange fl (complaints_raw fl o).score
  complaints_raw-InRange none = const-InRange 0 (omega arith)
  complaints_raw-InRange (some n) = complaint-InRange n

  blocklist_raw-InRange : (o : Option BlocklistInput) → InRange fl (blocklist_raw fl o).score
  blocklist_raw-InRange none = const-InRange 0 (omega arith)
  blocklist_raw-InRange (some i) = blocklist-InRange i

  bounce_raw-InRange :
      (k : Constants F) (o : Option BounceInput) → InRange fl (bounce_raw fl k o).score
  bounce_raw-InRange k none = const-InRange 0 (omega arith)
  bounce_raw-InRange k (some i) = bounce-InRange k i

  anomaly_raw-InRange : (o : Option (AnomalyInput F)) → InRange fl (anomaly_raw fl o).score
  anomaly_raw-InRange none = const-InRange 0 (omega arith)
  anomaly_raw-InRange (some i) = anomaly-InRange i

  postmaster_raw-InRange :
      (k : Constants F) (o : Option (PostmasterInput F)) → InRange fl (postmaster_raw fl k o).score
  postmaster_raw-InRange k none = const-InRange 0 (omega arith)
  postmaster_raw-InRange k (some i) = postmaster-InRange k i

  -- Without NaN, each of the six component scores lies between 0 and 100, whatever the inputs say.
  pub raws-InRange : (k : Constants F) (i : Inputs F) → All (λ r. InRange fl r.score) (raws fl k i)
  unfolding raws
  raws-InRange k i = (
    dmarc_raw-InRange i.dmarc_input,
    (
      complaints_raw-InRange i.complaints_24h,
      (
        blocklist_raw-InRange i.blocklist_input,
        (
          bounce_raw-InRange k i.bounce_input,
          (anomaly_raw-InRange i.anomaly_input, (postmaster_raw-InRange k i.postmaster_input, tt)),
        ),
      ),
    ),
  )

  -- A score that is not lower never has a lower grade.
  pub grade_of_mono :
      (a b : F) → leb_float a b ≡ true → level (grade_of fl a) ≤ level (grade_of fl b)
  unfolding grade_of
  grade_of_mono a b h = ground (
    arith,
    le_trans (of_nat 90) a b,
    le_trans (of_nat 80) a b,
    le_trans (of_nat 70) a b,
    le_trans (of_nat 60) a b,
  )
