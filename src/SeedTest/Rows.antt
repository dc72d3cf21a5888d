-- ===== src/SeedTest/Rows.antt =====
-- The rows of a summary of internal/seedtest/placement.go count what they say they count.
use mxsentinel.Prelude.{
  ℕ, ◌+◌, ◌≡◌, refl, sym, ap, ◌∙◌, inl, inr, Bool, true, false, List, [], ◌∷◌, arith, Bool-cases,
  length, select, All, select-All,
}
use mathlib.Core.Path.{subst}
use mxsentinel.Prelude.Text.{Bytes, bytes_eq, bytes_eq→eq}
use mxsentinel.Prelude.Assoc.{lookup, insert, bytes_key, lookup-insert_self, lookup-insert_ne}
use mxsentinel.SeedTest.Placement.{
  SeedResult, Tally, zero_tally, or_zero, add_result, add_results, by_provider, normalize_provider,
  unknown, inbox, spam, missing, is_inbox, is_spam, is_missing, is_pending,
}

-- The results of one provider.
abbrev pub results_of : Bytes → List SeedResult → List SeedResult
results_of p rs = select (λ r. bytes_eq (normalize_provider r.provider) p) rs

by_provider-own :
    (p : Bytes) (m : List (Bytes × Tally)) (rs : List SeedResult)
    → or_zero (lookup p (by_provider m rs)) ≡ add_results (or_zero (lookup p m)) (results_of p rs)
unfolding by_provider add_results select
by_provider-own p m [] = refl
by_provider-own p m (r ∷ rs) =
    let q = normalize_provider r.provider in
    let m' = insert q (add_result (or_zero (lookup q m)) r) m in
    elim (Bool-cases (bytes_eq q p)) [
      | inl e ↦ rw e (
          by_provider-own p m' rs
          ∙ ap (λ t. add_results t (results_of p rs))
              (subst (λ x. or_zero (lookup x m') ≡ add_result (or_zero (lookup x m)) r)
                (bytes_eq→eq q p e)
                (ap or_zero (lookup-insert_self q (add_result (or_zero (lookup q m)) r) m))))
      | inr e ↦ rw e (
          by_provider-own p m' rs
          ∙ ap (λ o. add_results (or_zero o) (results_of p rs))
              (lookup-insert_ne q p (add_result (or_zero (lookup q m)) r) m e))
    ]

-- The counters of a provider are those of a run that has its results alone: no result is counted
-- for a provider that it does not belong to, and none is lost.
pub by_provider-alone :
    (p : Bytes) (rs : List SeedResult)
    → or_zero (lookup p (by_provider [] rs)) ≡ add_results zero_tally (results_of p rs)
unfolding lookup
by_provider-alone p rs = by_provider-own p [] rs

-- The counters of a run against counts of its results.
abbrev pub CountsFor : Tally → List SeedResult → Type 0
CountsFor t rs =
    (t.total ≡ length rs)
    × (t.inboxes ≡ length (select (λ r. is_inbox r.placement) rs))
    × (t.spams ≡ length (select (λ r. is_spam r.placement) rs))
    × (t.missings ≡ length (select (λ r. is_missing r.placement) rs))
    × (t.pending ≡ length (select (λ r. is_pending r.placement) rs))
    × (t.inboxes + t.spams + t.missings + t.pending ≡ t.total)

abbrev one_if : Bool → ℕ
one_if true = 1
one_if false = 0

-- A counter that grows by one for each result that passes a test.
add_results-counts :
    (f : Tally → ℕ) (p : SeedResult → Bool)
    → ((t : Tally) (r : SeedResult) → f (add_result t r) ≡ f t + one_if (p r))
    → (t : Tally) (rs : List SeedResult) → f (add_results t rs) ≡ f t + length (select p rs)
unfolding add_results select
add_results-counts f p h t [] = omega arith
add_results-counts f p h t (r ∷ rs) = elim (Bool-cases (p r)) [
  | inl e ↦ rw e (
      omega (
        arith,
        add_results-counts f p h (add_result t r) rs,
        subst (λ b. f (add_result t r) ≡ f t + one_if b) e (h t r),
      ))
  | inr e ↦ rw e (
      omega (
        arith,
        add_results-counts f p h (add_result t r) rs,
        subst (λ b. f (add_result t r) ≡ f t + one_if b) e (h t r),
      ))
]

one_result :
    (p : _)
    → 1 ≡ one_if (is_inbox p) + one_if (is_spam p) + one_if (is_missing p) + one_if (is_pending p)
unfolding is_inbox is_spam is_missing is_pending
one_result unknown = refl
one_result inbox = refl
one_result spam = refl
one_result missing = refl

abbrev placed : Tally → ℕ
placed t = t.inboxes + t.spams + t.missings + t.pending

add_result-placed : (t : Tally) (r : SeedResult) → placed (add_result t r) ≡ placed t + one_if true
unfolding add_result
add_result-placed t r = omega (arith, one_result r.placement)

counts_in_run :
    (f : Tally → ℕ) (p : SeedResult → Bool)
    → ((t : Tally) (r : SeedResult) → f (add_result t r) ≡ f t + one_if (p r))
    → f zero_tally ≡ 0
    → (rs : List SeedResult) → f (add_results zero_tally rs) ≡ length (select p rs)
counts_in_run f p h z rs = omega (arith, add_results-counts f p h zero_tally rs)

total_is_length : (rs : List SeedResult) → (add_results zero_tally rs).total ≡ length rs
unfolding add_result
total_is_length rs =
    counts_in_run (λ t. t.total) (λ r. true) (λ t r. refl) refl rs
    ∙ ap length (select-All (λ r. true) rs (every rs))
  where
    every : (rs : List SeedResult) → All (λ r. true ≡ true) rs
    every [] = tt
    every (r ∷ rs) = (refl, every rs)

placed_is_total :
    (rs : List SeedResult) → placed (add_results zero_tally rs) ≡ (add_results zero_tally rs).total
unfolding add_result
placed_is_total rs =
    counts_in_run placed (λ r. true) add_result-placed refl rs
    ∙ sym (counts_in_run (λ t. t.total) (λ r. true) (λ t r. refl) refl rs)

-- The total of a run is the number of its results, each counter of placements is the number of the
-- results with that placement, and the four of them add up to the total.
pub add_results-CountsFor : (rs : List SeedResult) → CountsFor (add_results zero_tally rs) rs
unfolding add_result
add_results-CountsFor rs = (
  total_is_length rs,
  counts_in_run (λ t. t.inboxes) (λ r. is_inbox r.placement) (λ t r. refl) refl rs,
  counts_in_run (λ t. t.spams) (λ r. is_spam r.placement) (λ t r. refl) refl rs,
  counts_in_run (λ t. t.missings) (λ r. is_missing r.placement) (λ t r. refl) refl rs,
  counts_in_run (λ t. t.pending) (λ r. is_pending r.placement) (λ t r. refl) refl rs,
  placed_is_total rs,
)
