-- ===== src/Correlate/Counting.antt =====
-- What an observation adds to the windows, and which reason dominates
-- (internal/correlate/aggregator.go).
use mxsentinel.Prelude.{
  ℕ, ◌+◌, ◌≤◌, ◌≡◌, refl, ap, ◌∙◌, ◌⊎◌, inl, inr, Bool, true, false, ◌&&◌, [], ◌∷◌, arith, ltb,
  ◌==◌, if◌then◌else◌, ltb→lt, ==→eq, Bool-cases, All,
}
use mathlib.Core.Path.{subst}
use mathlib.Core.List.{Memᴰ}
use mxsentinel.Prelude.Assoc.{lookup, insert, nat_key, lookup-insert_self, lookup-insert_ne}
use mxsentinel.Correlate.Reason.{Reason, unknown}
use mxsentinel.Correlate.Aggregator.{
  Stream, stream_key, stream_eq, stream_eq→eq, Bucket, new_bucket, Counts, Minutes, Aggregator,
  unix_minute, Tally, no_tally, add_minute, tally, record_outcome, observe, is_recent, is_base,
  dominant_from, dominant_reason, minutes_or_new, bucket_or_new,
}

-- A number of each bucket, summed over the minutes of a range.
unfoldable pub sum_in : (Bucket → ℕ) → (ℕ → Bool) → Minutes → ℕ
sum_in f p [] = 0
sum_in f p ((m, b) ∷ mins) = (if p m then f b else 0) + sum_in f p mins

-- The totals of the two windows are sums over the minutes of their ranges.
tally_sums :
    (now_min recent_min baseline_min : ℕ) (t : Tally) (mins : Minutes)
    → let r = tally now_min recent_min baseline_min t mins in
      (r.recent.total ≡ t.recent.total + sum_in (λ b. b.total) (is_recent now_min recent_min) mins)
      × (r.recent.rejections
          ≡ t.recent.rejections + sum_in (λ b. b.rejections) (is_recent now_min recent_min) mins)
      × (r.baseline.total
          ≡ t.baseline.total + sum_in (λ b. b.total) (is_base now_min recent_min baseline_min) mins)
      × (r.baseline.rejections
          ≡ t.baseline.rejections
            + sum_in (λ b. b.rejections) (is_base now_min recent_min baseline_min) mins)
unfolding tally sum_in
tally_sums now_min recent_min baseline_min t [] = omega arith
tally_sums now_min recent_min baseline_min t ((m, b) ∷ mins) = ground (
  arith,
  added now_min recent_min baseline_min t m b,
  tally_sums now_min recent_min baseline_min (add_minute now_min recent_min baseline_min t m b)
      mins,
)
  where
    added :
        (now_min recent_min baseline_min : ℕ) (t : Tally) (m : ℕ) (b : Bucket)
        → let r = add_minute now_min recent_min baseline_min t m b in
          (r.recent.total
            ≡ t.recent.total + (if is_recent now_min recent_min m then b.total else 0))
          × (r.recent.rejections
              ≡ t.recent.rejections + (if is_recent now_min recent_min m then b.rejections else 0))
          × (r.baseline.total
              ≡ t.baseline.total
                + (if is_base now_min recent_min baseline_min m then b.total else 0))
          × (r.baseline.rejections
              ≡ t.baseline.rejections
                + (if is_base now_min recent_min baseline_min m then b.rejections else 0))
    added now_min recent_min baseline_min t m b = unfold add_minute in ground arith

-- Writing one bucket replaces what its minute contributes to a sum.
sum_in-insert :
    (f : Bucket → ℕ) (p : ℕ → Bool) (m : ℕ) (b : Bucket) (mins : Minutes)
    → f new_bucket ≡ 0
    → sum_in f p (insert m b mins) + (if p m then f (bucket_or_new (lookup m mins)) else 0)
      ≡ sum_in f p mins + (if p m then f b else 0)
unfolding sum_in insert lookup
sum_in-insert f p m b [] z = ground (arith, z)
sum_in-insert f p m b ((i, v) ∷ mins) z = elim (Bool-cases (i == m)) [
  | inl e ↦ rw (e, ==→eq i m e) (omega arith)
  | inr e ↦ rw e (omega (arith, sum_in-insert f p m b mins z))
]

sum_in-record :
    (f : Bucket → ℕ) (p : ℕ → Bool) (m : ℕ) (rejected : Bool) (reason : Reason) (mins : Minutes)
    (d : ℕ)
    → f new_bucket ≡ 0
    → ((b : Bucket) → f (record_outcome b rejected reason) ≡ f b + d)
    → sum_in f p (insert m (record_outcome (bucket_or_new (lookup m mins)) rejected reason) mins)
      ≡ sum_in f p mins + (if p m then d else 0)
sum_in-record f p m rejected reason mins d z g = ground (
  arith,
  sum_in-insert f p m (record_outcome (bucket_or_new (lookup m mins)) rejected reason) mins z,
  g (bucket_or_new (lookup m mins)),
)

abbrev pub minutes_of : Stream → Aggregator → Minutes
minutes_of k a = minutes_or_new (lookup k a)

observed_sum :
    (f : Bucket → ℕ) (p : ℕ → Bool) (a : Aggregator) (k j : Stream) (t : ℕ) (rejected : Bool)
    (reason : Reason) (d : ℕ)
    → f new_bucket ≡ 0
    → ((b : Bucket) → f (record_outcome b rejected reason) ≡ f b + d)
    → sum_in f p (minutes_of j (observe a k t rejected reason))
      ≡ sum_in f p (minutes_of j a) + (if stream_eq k j && p (unix_minute t) then d else 0)
unfolding observe
observed_sum f p a k j t rejected reason d z g = elim (Bool-cases (stream_eq k j)) [
  | inl e ↦
      subst
        (λ i.
          sum_in f p (minutes_of i (observe a k t rejected reason))
          ≡ sum_in f p (minutes_of i a) + (if stream_eq k j && p (unix_minute t) then d else 0))
        (stream_eq→eq k j e)
        (rw (lookup-insert_self k _ a, e)
          (sum_in-record f p (unix_minute t) rejected reason (minutes_of k a) d z g))
  | inr e ↦ rw (lookup-insert_ne k j _ a e, e) (omega arith)
]

rejection_added :
    (rejected : Bool) (reason : Reason) (b : Bucket)
    → (record_outcome b rejected reason).rejections ≡ b.rejections + (if rejected then 1 else 0)
unfolding record_outcome
rejection_added true reason b = refl
rejection_added false reason b = omega arith

both : (a b : Bool) → ◌≡◌ {A = ℕ} (if a then (if b then 1 else 0) else 0) (if a && b then 1 else 0)
both true b = refl
both false b = refl

-- An observation adds one delivery to its stream at its minute, and one rejection if it was one: the
-- recent window of any stream, as an evaluation at any later time tallies it, grows by exactly that
-- when the stream is the same and the minute lies in the window, and otherwise stays.
pub observe-recent :
    (a : Aggregator) (k j : Stream) (t : ℕ) (rejected : Bool) (reason : Reason)
    (now_min recent_min baseline_min : ℕ)
    → let after =
        (tally now_min recent_min baseline_min no_tally
          (minutes_of j (observe a k t rejected reason))).recent in
      let before = (tally now_min recent_min baseline_min no_tally (minutes_of j a)).recent in
      let here = stream_eq k j && is_recent now_min recent_min (unix_minute t) in
      (after.total ≡ before.total + (if here then 1 else 0))
      × (after.rejections ≡ before.rejections + (if here && rejected then 1 else 0))
observe-recent a k j t rejected reason now_min recent_min baseline_min = (
  omega (
    arith,
    tally_sums now_min recent_min baseline_min no_tally
        (minutes_of j (observe a k t rejected reason)),
    tally_sums now_min recent_min baseline_min no_tally (minutes_of j a),
    observed_sum (λ b. b.total) (is_recent now_min recent_min) a k j t rejected reason 1 refl
        (λ b. unfold record_outcome in refl),
  ),
  omega (
    arith,
    tally_sums now_min recent_min baseline_min no_tally
        (minutes_of j (observe a k t rejected reason)),
    tally_sums now_min recent_min baseline_min no_tally (minutes_of j a),
    observed_sum (λ b. b.rejections) (is_recent now_min recent_min) a k j t rejected reason
          (if rejected then 1 else 0) refl (rejection_added rejected reason)
        ∙ ap (λ n. sum_in (λ b. b.rejections) (is_recent now_min recent_min) (minutes_of j a) + n)
            (both (stream_eq k j && is_recent now_min recent_min (unix_minute t)) rejected),
  ),
)

dominant_from_max :
    (best : Reason) (best_n : ℕ) (rs : Counts)
    → (n : ℕ) × (best_n ≤ n)
      × All (λ x. x.1 ≤ n) rs
      × (((dominant_from best best_n rs ≡ best) × (n ≡ best_n))
          ⊎ Memᴰ (dominant_from best best_n rs, n) rs)
unfolding dominant_from
dominant_from_max best best_n [] = (best_n, omega arith, tt, inl (refl, refl))
dominant_from_max best best_n ((r, n) ∷ rs) = elim (Bool-cases (ltb best_n n)) [
  | inl e ↦
      let (top, le, all, found) = dominant_from_max r n rs in
      rw e (
        top,
        omega (arith, ltb→lt best_n n e),
        (le, all),
        inr (elim found [ inl q ↦ Memᴰ.head (λ i. (q.0 i, q.1 i)) | inr q ↦ Memᴰ.tail q ]),
      )
  | inr e ↦
      let (top, le, all, found) = dominant_from_max best best_n rs in
      rw e (top, le, (ground arith, all), elim found [ inl q ↦ inl q | inr q ↦ inr (Memᴰ.tail q) ])
]

-- Whatever the order in which the map is ranged over, the dominant reason is one with the largest
-- count, and it is unknown only where unknown has that count or every count is zero.
pub dominant_reason-max :
    (reasons : Counts)
    → (n : ℕ) × All (λ x. x.1 ≤ n) reasons
      × (((dominant_reason reasons ≡ unknown) × (n ≡ 0))
          ⊎ Memᴰ (dominant_reason reasons, n) reasons)
unfolding dominant_reason
dominant_reason-max reasons =
    let (n, le, all, found) = dominant_from_max unknown 0 reasons in (n, all, found)
