-- ===== src/SeedTest/Ordering.antt =====
-- The order of the providers in a summary: sortProviderSummaries and less of
-- internal/seedtest/placement.go.
use mxsentinel.Prelude.{◌&&◌}
use mxsentinel.Prelude.{◌==◌}
use mxsentinel.Prelude.{◌||◌}
use mxsentinel.Prelude.{ltb}
use mxsentinel.Prelude.{◌≡◌, refl, ◌⊎◌, Bool, true, List, [], ◌∷◌, ◌++◌, arith}
use mathlib.Core.List.{Permᴰ}
use mathlib.Core.List.Permᴰ as PermD
use mxsentinel.Prelude.Sort.{
  bytes_le, place, place-perm, place-IsSorted, reverse-IsSorted, IsSorted, bytes_le_total,
  bytes_le_trans,
}
use mxsentinel.SeedTest.Placement.{ProviderSummary, sink, sink_all, sort_provider_summaries}

module _ {F : Type 0} where
  -- A row may stand before another: it counts more results, or as many and its name is not the
  -- larger one.
  abbrev pub is_ahead : ProviderSummary F → ProviderSummary F → Bool
  is_ahead a b =
      ltb b.tally.total a.tally.total
      || (a.tally.total == b.tally.total && bytes_le a.provider b.provider)

  abbrev is_behind : ProviderSummary F → ProviderSummary F → Bool
  is_behind a b = is_ahead b a

  is_behind_total : (a b : ProviderSummary F) → (is_behind a b ≡ true) ⊎ (is_behind b a ≡ true)
  is_behind_total a b = ground (arith, bytes_le_total a.provider b.provider)

  is_behind_trans :
      (a b c : ProviderSummary F)
      → is_behind a b ≡ true
      → is_behind b c ≡ true
      → is_behind a c ≡ true
  is_behind_trans a b c h k = ground (arith, bytes_le_trans c.provider b.provider a.provider)

  sink-place :
      (x : ProviderSummary F) (ys : List (ProviderSummary F)) → sink x ys ≡ place is_behind x ys
  unfolding sink place
  sink-place x [] = refl
  sink-place x (y ∷ ys) = ground (arith, sink-place x ys)

  sink_all-IsSorted :
      (before xs : List (ProviderSummary F))
      → IsSorted is_behind before
      → IsSorted is_behind (sink_all before xs)
  unfolding sink_all
  sink_all-IsSorted before [] s = s
  sink_all-IsSorted before (x ∷ xs) s = rw (sink-place x before) (
      sink_all-IsSorted (place is_behind x before) xs
        (place-IsSorted is_behind is_behind_total is_behind_trans x before s))

  sink_all-perm : (before xs : List (ProviderSummary F)) → Permᴰ (xs ++ before) (sink_all before xs)
  unfolding sink_all
  sink_all-perm before [] = PermD.refl before
  sink_all-perm before (x ∷ xs) = rw (sink-place x before) (
      Permᴰ.trans
        (Permᴰ.trans (PermD.symm (PermD.middle x xs before))
          (PermD.append_left xs (place-perm is_behind x before)))
        (sink_all-perm (place is_behind x before) xs))

  -- The sort gives the same rows, each as often, with more results first and equal numbers by name.
  pub sort_provider_summaries-IsSorted :
      (ps : List (ProviderSummary F))
      → Permᴰ ps (sort_provider_summaries ps) × IsSorted is_ahead (sort_provider_summaries ps)
  unfolding sort_provider_summaries
  sort_provider_summaries-IsSorted ps = (
    Permᴰ.trans (PermD.symm (PermD.append-nil ps))
        (Permᴰ.trans (sink_all-perm [] ps) (PermD.symm (PermD.reverse (sink_all [] ps)))),
    reverse-IsSorted is_behind (sink_all [] ps) (sink_all-IsSorted [] ps tt),
  )
