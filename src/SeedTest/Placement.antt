-- ===== src/SeedTest/Placement.antt =====
-- internal/seedtest/placement.go: `Summarize`, `NormalizeProvider`, `ProviderForAddress` and
-- `ClassifyMailbox`. A placement that is none of the three is pending, also the empty one. The map of
-- the providers and the order of their first results are one association list.
use mxsentinel.Prelude.{
  ℕ, ◌+◌, Bool, true, false, not, ◌||◌, Option, none, some, List, [], ◌∷◌, map, ltb, ◌==◌,
  if◌then◌else◌,
}
use mathlib.Core.List.{reverse}
use mxsentinel.Prelude.Text.{
  after_last_at, Bytes, codes, bytes_eq, is_empty, to_lower, trim_space, contains,
}
use mxsentinel.Prelude.Floats.{FloatOps}
use mxsentinel.Prelude.Assoc.{lookup, insert, bytes_key}
use mxsentinel.Prelude.Sort.{bytes_le}

pub data Placement : Type 0 where
  unknown inbox spam missing : Placement

-- The fields of `Result` that `Summarize` reads.
pub record SeedResult : Type 0 where
  pub provider : Bytes
  pub placement : Placement
  pub spf_pass : Option Bool
  pub dkim_pass : Option Bool
  pub dmarc_pass : Option Bool

-- The counters of `ProviderSummary` and of `authAcc`.
pub record Tally : Type 0 where
  pub total : ℕ
  pub inboxes : ℕ
  pub spams : ℕ
  pub missings : ℕ
  pub pending : ℕ
  pub spf_known : ℕ
  pub spf_passed : ℕ
  pub dkim_known : ℕ
  pub dkim_passed : ℕ
  pub dmarc_known : ℕ
  pub dmarc_passed : ℕ

pub record ProviderSummary (F : Type 0) : Type 0 where
  pub provider : Bytes
  pub tally : Tally
  pub inbox_rate : F
  pub spam_rate : F
  pub missing_rate : F
  pub spf_pass_rate : F
  pub dkim_pass_rate : F
  pub dmarc_pass_rate : F

pub record Summary (F : Type 0) : Type 0 where
  pub overall : ProviderSummary F
  pub providers : List (ProviderSummary F)

unfoldable pub normalize_provider : Bytes → Bytes
normalize_provider label =
    let s = to_lower (trim_space label) in
    if is_empty s
    then codes "other"
    else if bytes_eq s (codes "gmail")
        || (bytes_eq s (codes "outlook")
            || (bytes_eq s (codes "yahoo") || bytes_eq s (codes "other")))
    then s
    else if contains s (codes "gmail")
        || (contains s (codes "google") || contains s (codes "googlemail"))
    then codes "gmail"
    else if contains s (codes "outlook")
        || (contains s (codes "hotmail")
            || (contains s (codes "live.")
                || (contains s (codes "office365") || contains s (codes "microsoft"))))
    then codes "outlook"
    else if contains s (codes "yahoo") || (contains s (codes "ymail") || contains s (codes "aol"))
    then codes "yahoo"
    else codes "other"

abbrev provider_of_domain : Option Bytes → Bytes
provider_of_domain none = codes "other"
provider_of_domain (some d) = if is_empty d then codes "other" else normalize_provider d

unfoldable pub provider_for_address : Bytes → Bytes
unfolding after_last_at
provider_for_address address = provider_of_domain (after_last_at address)

unfoldable pub classify_mailbox : Bytes → Placement
classify_mailbox mailbox =
    let m = to_lower mailbox in
    if contains m (codes "spam") || (contains m (codes "junk") || contains m (codes "bulk"))
    then spam
    else inbox

abbrev pub zero_tally : Tally
zero_tally = record {
  total = 0;
  inboxes = 0;
  spams = 0;
  missings = 0;
  pending = 0;
  spf_known = 0;
  spf_passed = 0;
  dkim_known = 0;
  dkim_passed = 0;
  dmarc_known = 0;
  dmarc_passed = 0;
}

abbrev known : Option Bool → ℕ
known none = 0
known (some b) = 1

abbrev passed : Option Bool → ℕ
passed (some true) = 1
passed _ = 0

abbrev one_if : Bool → ℕ
one_if true = 1
one_if false = 0

unfoldable pub is_inbox : Placement → Bool
is_inbox inbox = true
is_inbox _ = false

unfoldable pub is_spam : Placement → Bool
is_spam spam = true
is_spam _ = false

unfoldable pub is_missing : Placement → Bool
is_missing missing = true
is_missing _ = false

unfoldable pub is_pending : Placement → Bool
is_pending unknown = true
is_pending _ = false

-- The body of the loop, on the counters of a provider or of the whole run.
unfoldable pub add_result : Tally → SeedResult → Tally
unfolding is_inbox is_spam is_missing is_pending
add_result t r = record {
  total = t.total + 1;
  inboxes = t.inboxes + one_if (is_inbox r.placement);
  spams = t.spams + one_if (is_spam r.placement);
  missings = t.missings + one_if (is_missing r.placement);
  pending = t.pending + one_if (is_pending r.placement);
  spf_known = t.spf_known + known r.spf_pass;
  spf_passed = t.spf_passed + passed r.spf_pass;
  dkim_known = t.dkim_known + known r.dkim_pass;
  dkim_passed = t.dkim_passed + passed r.dkim_pass;
  dmarc_known = t.dmarc_known + known r.dmarc_pass;
  dmarc_passed = t.dmarc_passed + passed r.dmarc_pass;
}

abbrev pub or_zero : Option Tally → Tally
or_zero none = zero_tally
or_zero (some t) = t

-- The loop over the results: the counters of each provider.
unfoldable pub by_provider : List (Bytes × Tally) → List SeedResult → List (Bytes × Tally)
unfolding add_result
by_provider m [] = m
by_provider m (r ∷ rs) =
    let p = normalize_provider r.provider in
    by_provider (insert p (add_result (or_zero (lookup p m)) r) m) rs

-- The same loop on `overall`.
unfoldable pub add_results : Tally → List SeedResult → Tally
unfolding add_result
add_results t [] = t
add_results t (r ∷ rs) = add_results (add_result t r) rs

module _ {F : Type 0} (fl : FloatOps F) where
  open fl use {of_nat, div}

  unfoldable pub ratio : ℕ → ℕ → F
  ratio n d = if d == 0 then of_nat 0 else div (of_nat n) (of_nat d)

  unfoldable pub finalize : Bytes → Tally → ProviderSummary F
  unfolding ratio
  finalize p t =
      let resolved = t.inboxes + t.spams + t.missings in
      record {
        provider = p;
        tally = t;
        inbox_rate = ratio t.inboxes resolved;
        spam_rate = ratio t.spams resolved;
        missing_rate = ratio t.missings resolved;
        spf_pass_rate = ratio t.spf_passed t.spf_known;
        dkim_pass_rate = ratio t.dkim_passed t.dkim_known;
        dmarc_pass_rate = ratio t.dmarc_passed t.dmarc_known;
      }

module _ {F : Type 0} where
  -- More results come first, and at equal numbers the smaller name.
  unfoldable pub less : ProviderSummary F → ProviderSummary F → Bool
  less a b =
      if a.tally.total == b.tally.total
      then not (bytes_le b.provider a.provider)
      else ltb b.tally.total a.tally.total

  -- The inner loop of `sortProviderSummaries`: a row goes down the rows before it, the nearest first.
  unfoldable pub sink : ProviderSummary F → List (ProviderSummary F) → List (ProviderSummary F)
  unfolding less
  sink x [] = x ∷ []
  sink x (y ∷ ys) = let rest = sink x ys in if less x y then y ∷ rest else x ∷ y ∷ ys

  -- The outer loop; the rows before `i` stand in reverse.
  unfoldable pub sink_all :
      List (ProviderSummary F) → List (ProviderSummary F) → List (ProviderSummary F)
  unfolding sink
  sink_all before [] = before
  sink_all before (x ∷ xs) = sink_all (sink x before) xs

  unfoldable pub sort_provider_summaries : List (ProviderSummary F) → List (ProviderSummary F)
  unfolding sink_all
  sort_provider_summaries ps = reverse (sink_all [] ps)

module _ {F : Type 0} (fl : FloatOps F) where
  unfoldable pub summarize : List SeedResult → Summary F
  unfolding by_provider add_results finalize sort_provider_summaries
  summarize rs = record {
    overall = finalize fl (codes "overall") (add_results zero_tally rs);
    providers = sort_provider_summaries (map (λ row. finalize fl row.0 row.1) (by_provider [] rs));
  }
