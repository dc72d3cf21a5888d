-- ===== src/SeedTest/Tests.antt =====
-- Concrete runs of the placement summary, over thousandths for float64.
use mxsentinel.Prelude.{
  ℕ, zero, suc, ◌+◌, ◌-◌, ◌*◌, ◌/◌, ◌%◌, ◌≤◌, ◌<◌, ◌≡◌, refl, sym, ap, ◌∙◌, ◌≢◌, ◌↔◌, ◌⊎◌, inl, inr,
  Bool, true, false, not, ◌&&◌, ◌||◌, Option, none, some, List, [], ◌∷◌, ◌++◌, map, append_assoc,
  append-nil, arith, String, str_eq, eq_iff, eq_refl, ltb, leb, ◌==◌, if◌then◌else◌, ltb→lt, lt→ltb,
  leb→le, le→leb, ==→eq, ==_refl, Bool-cases, &&-left, &&-right, ||-cases, length, take, select,
  any, length-append, length-take_le, All, All-append, All-select, length-select, select-All,
  All-select_keep,
}
use mathlib.Core.List.{Permᴰ}
use mxsentinel.Prelude.Text.{Bytes, codes}
use mxsentinel.Prelude.Floats.{milli}
use mxsentinel.Prelude.Assoc.{lookup, bytes_key}
use mxsentinel.Prelude.Sort.{IsSorted}
use mxsentinel.SeedTest.Placement.{
  SeedResult, ProviderSummary, zero_tally, or_zero, add_results, by_provider, normalize_provider,
  provider_for_address, finalize, sort_provider_summaries, summarize, unknown, inbox, spam,
}
use mxsentinel.SeedTest.Rows.{results_of, by_provider-alone}
use mxsentinel.SeedTest.Ordering.{is_ahead, sort_provider_summaries-IsSorted}

abbrev results : List SeedResult
results =
    record {
      provider = codes "Yahoo";
      placement = spam;
      spf_pass = some true;
      dkim_pass = none;
      dmarc_pass = some false;
    }
    ∷ record {
      provider = codes "Google";
      placement = inbox;
      spf_pass = some true;
      dkim_pass = none;
      dmarc_pass = none;
    }
    ∷ record {
      provider = codes "gmail";
      placement = unknown;
      spf_pass = none;
      dkim_pass = none;
      dmarc_pass = none;
    }
    ∷ []

abbrev rows : List (ProviderSummary ℕ)
rows =
    finalize milli (codes "yahoo") (add_results zero_tally (take 1 results))
    ∷ finalize milli (codes "gmail") (add_results zero_tally results)
    ∷ finalize milli (codes "aol") (add_results zero_tally (take 1 results))
    ∷ []

-- The address of a Google Apps domain has no label of a known provider.
own_domain : provider_for_address (codes "probe@example.org") ≡ codes "other"
unfolding provider_for_address mxsentinel.Prelude.Text.is_empty normalize_provider
    mxsentinel.Prelude.Text.to_lower mxsentinel.Prelude.Text.trim_space
    mxsentinel.Prelude.Text.bytes_eq mxsentinel.Prelude.Text.contains
own_domain = refl

last_at_counts : provider_for_address (codes "a@gmail.com@hotmail.com") ≡ codes "outlook"
unfolding provider_for_address mxsentinel.Prelude.Text.is_empty normalize_provider
    mxsentinel.Prelude.Text.to_lower mxsentinel.Prelude.Text.trim_space
    mxsentinel.Prelude.Text.bytes_eq mxsentinel.Prelude.Text.contains
last_at_counts = refl

-- A pending result is in no rate: one of one resolved is in the inbox.
pending_not_resolved : (summarize milli results).overall.inbox_rate ≡ 500
unfolding summarize
pending_not_resolved = refl

gmail_first :
    map (λ p. p.provider) (summarize milli results).providers ≡ codes "gmail" ∷ codes "yahoo" ∷ []
unfolding summarize mxsentinel.Prelude.Assoc.insert mxsentinel.Prelude.Text.bytes_eq
    normalize_provider mxsentinel.Prelude.Text.is_empty mxsentinel.Prelude.Text.to_lower
    mxsentinel.Prelude.Text.trim_space mxsentinel.Prelude.Text.contains lookup
gmail_first = refl

by_provider-alone_example :
    or_zero (lookup (codes "gmail") (by_provider [] results))
    ≡ add_results zero_tally (results_of (codes "gmail") results)
by_provider-alone_example = by_provider-alone (codes "gmail") results

sort_provider_summaries-IsSorted_example :
    Permᴰ rows (sort_provider_summaries rows) × IsSorted is_ahead (sort_provider_summaries rows)
sort_provider_summaries-IsSorted_example = sort_provider_summaries-IsSorted rows
