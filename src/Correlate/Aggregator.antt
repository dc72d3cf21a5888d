-- ===== src/Correlate/Aggregator.antt =====
-- internal/correlate/aggregator.go. A time is its Unix seconds, and no earlier than the windows are
-- long, so that minutes and floors are natural numbers; `m > now - n` is written `now < m + n`.
-- A map is an association list in the order of its `range`, which may be any.
use mxsentinel.Prelude.{
  ℕ, ◌+◌, ◌-◌, ◌*◌, ◌/◌, ◌≡◌, Bool, true, false, not, ◌&&◌, Option, none, some, List, [], ◌∷◌,
  arith, String, str_eq, eq_iff, eq_refl, ltb, leb, ◌==◌, if◌then◌else◌, ==→eq, ==_refl, &&-left,
  &&-right,
}
use mxsentinel.Prelude.Floats.{FloatOps}
use mxsentinel.Prelude.Assoc.{Key, lookup, insert, nat_key, string_key}
use mxsentinel.Correlate.Reason.{
  Reason, reputation, blocklist, auth, spam_content, rate_limit, greylist, policy, user_unknown,
  mailbox_full, connection, tls, unknown, unset,
}
use mxsentinel.Correlate.Spike.{Window, SpikeConfig, detect_spike}

-- `Key`: a deliverability stream.
pub record Stream : Type 0 where
  pub tenant_id : String
  pub domain : String
  pub provider : String

abbrev pub stream_eq : Stream → Stream → Bool
stream_eq a b =
    str_eq a.tenant_id b.tenant_id && (str_eq a.domain b.domain && str_eq a.provider b.provider)

pub stream_eq→eq : (a b : Stream) → stream_eq a b ≡ true → a ≡ b
stream_eq→eq a b h =
    let t : a.tenant_id ≡ b.tenant_id = (eq_iff _ _).0 (
      &&-left (str_eq a.tenant_id b.tenant_id)
        (str_eq a.domain b.domain && str_eq a.provider b.provider) h) in
    let rest =
      &&-right (str_eq a.tenant_id b.tenant_id)
        (str_eq a.domain b.domain && str_eq a.provider b.provider) h in
    let d : a.domain ≡ b.domain =
      (eq_iff _ _).0 (&&-left (str_eq a.domain b.domain) (str_eq a.provider b.provider) rest) in
    let p : a.provider ≡ b.provider =
      (eq_iff _ _).0 (&&-right (str_eq a.domain b.domain) (str_eq a.provider b.provider) rest) in
    λ i. record { tenant_id = t i; domain = d i; provider = p i }

pub stream_eq_refl : (a : Stream) → stream_eq a a ≡ true
stream_eq_refl a = ground (arith, eq_refl a.tenant_id, eq_refl a.domain, eq_refl a.provider)

instance abbrev pub stream_key : Key Stream
stream_key = record { beq = stream_eq; beq→eq = stream_eq→eq; beq_refl = stream_eq_refl }

-- The place of a reason in the list of constants, by which reasons are compared.
abbrev pub rank_of : Reason → ℕ
rank_of reputation = 0
rank_of blocklist = 1
rank_of auth = 2
rank_of spam_content = 3
rank_of rate_limit = 4
rank_of greylist = 5
rank_of policy = 6
rank_of user_unknown = 7
rank_of mailbox_full = 8
rank_of connection = 9
rank_of tls = 10
rank_of unknown = 11
rank_of unset = 12

pub rank_of_injective : (a b : Reason) → rank_of a ≡ rank_of b → a ≡ b
rank_of_injective a b h = ground arith

instance abbrev pub reason_key : Key Reason
reason_key = record {
  beq = λ a b. rank_of a == rank_of b;
  beq→eq = λ a b h. rank_of_injective a b (==→eq (rank_of a) (rank_of b) h);
  beq_refl = λ a. ==_refl (rank_of a);
}

abbrev pub Counts : Type 0
Counts = List (Reason × ℕ)

pub record Bucket : Type 0 where
  pub total : ℕ
  pub rejections : ℕ
  pub reasons : Counts

-- unix-minute -> bucket
abbrev pub Minutes : Type 0
Minutes = List (ℕ × Bucket)

abbrev pub Aggregator : Type 0
Aggregator = List (Stream × Minutes)

unfoldable pub unix_minute : ℕ → ℕ
unix_minute t = t / 60

abbrev count_or_zero : Option ℕ → ℕ
count_or_zero none = 0
count_or_zero (some n) = n

-- `m[r] += n`
unfoldable pub add_count : Reason → ℕ → Counts → Counts
add_count r n m = insert r (count_or_zero (lookup r m) + n) m

abbrev pub new_bucket : Bucket
new_bucket = record { total = 0; rejections = 0; reasons = [] }

abbrev pub bucket_or_new : Option Bucket → Bucket
bucket_or_new none = new_bucket
bucket_or_new (some b) = b

abbrev pub minutes_or_new : Option Minutes → Minutes
minutes_or_new none = []
minutes_or_new (some m) = m

abbrev is_unset : Reason → Bool
is_unset unset = true
is_unset _ = false

-- What one outcome adds to its bucket.
unfoldable pub record_outcome : Bucket → Bool → Reason → Bucket
record_outcome b rejected reason = record {
  total = b.total + 1;
  rejections = if rejected then b.rejections + 1 else b.rejections;
  reasons = if rejected && not (is_unset reason) then add_count reason 1 b.reasons else b.reasons;
}

unfoldable pub observe : Aggregator → Stream → ℕ → Bool → Reason → Aggregator
unfolding record_outcome
observe a k t rejected reason =
    let mins = minutes_or_new (lookup k a) in
    let m = unix_minute t in
    insert k (insert m (record_outcome (bucket_or_new (lookup m mins)) rejected reason) mins) a

-- The two windows of an evaluation and the reasons of the recent one.
pub record Tally : Type 0 where
  pub recent : Window
  pub baseline : Window
  pub reasons : Counts

abbrev pub no_tally : Tally
no_tally = record {
  recent = record { total = 0; rejections = 0 };
  baseline = record { total = 0; rejections = 0 };
  reasons = [];
}

unfoldable pub merge_counts : Counts → Counts → Counts
merge_counts into [] = into
merge_counts into ((r, n) ∷ rs) = merge_counts (add_count r n into) rs

abbrev pub add_window : Window → Bucket → Window
add_window w b = record { total = w.total + b.total; rejections = w.rejections + b.rejections }

-- Minute `m` lies in the recent window, or in the baseline window before it.
abbrev pub is_recent : ℕ → ℕ → ℕ → Bool
is_recent now_min recent_min m = ltb now_min (m + recent_min) && leb m now_min

abbrev pub is_base : ℕ → ℕ → ℕ → ℕ → Bool
is_base now_min recent_min baseline_min m =
    ltb now_min (m + (recent_min + baseline_min)) && leb (m + recent_min) now_min

-- The switch inside the inner loop of `Evaluate`.
unfoldable pub add_minute : ℕ → ℕ → ℕ → Tally → ℕ → Bucket → Tally
add_minute now_min recent_min baseline_min t m b =
    if is_recent now_min recent_min m
    then record t { recent = add_window t.recent b; reasons = merge_counts t.reasons b.reasons }
    else if is_base now_min recent_min baseline_min m
    then record t { baseline = add_window t.baseline b }
    else t

unfoldable pub tally : ℕ → ℕ → ℕ → Tally → Minutes → Tally
tally now_min recent_min baseline_min t [] = t
tally now_min recent_min baseline_min t ((m, b) ∷ mins) =
    tally now_min recent_min baseline_min (add_minute now_min recent_min baseline_min t m b) mins

pub record Spike : Type 0 where
  pub tenant_id : String
  pub domain : String
  pub provider : String
  pub window_start : ℕ
  pub window_end : ℕ
  pub dominant_reason : Reason
  pub rejections : ℕ

-- The loop of `dominantReason`: the first reason with the most, over none.
unfoldable pub dominant_from : Reason → ℕ → Counts → Reason
dominant_from best best_n [] = best
dominant_from best best_n ((r, n) ∷ rs) =
    dominant_from (if ltb best_n n then r else best) (if ltb best_n n then n else best_n) rs

unfoldable pub dominant_reason : Counts → Reason
unfolding dominant_from
dominant_reason reasons = dominant_from unknown 0 reasons

abbrev pub cons_some : Option Spike → List Spike → List Spike
cons_some none ss = ss
cons_some (some s) ss = s ∷ ss

module _ {F : Type 0} (fl : FloatOps F) (one_percent : F) where
  unfoldable pub spike_of : SpikeConfig F → ℕ → ℕ → Stream → Tally → Option Spike
  spike_of c now recent_min k t =
      if (detect_spike fl one_percent t.recent t.baseline c).is_spike
      then some (record {
        tenant_id = k.tenant_id;
        domain = k.domain;
        provider = k.provider;
        window_start = (unix_minute now - recent_min) * 60;
        window_end = now;
        dominant_reason = dominant_reason t.reasons;
        rejections = t.recent.rejections;
      })
      else none

  unfoldable pub evaluate : Aggregator → ℕ → ℕ → ℕ → SpikeConfig F → List Spike
  evaluate [] now recent_min baseline_min c = []
  evaluate ((k, mins) ∷ a) now recent_min baseline_min c =
      cons_some
        (spike_of c now recent_min k
          (tally (unix_minute now) recent_min baseline_min no_tally mins))
        (evaluate a now recent_min baseline_min c)

-- `m < floor` deletes the bucket.
unfoldable pub prune_minutes : ℕ → ℕ → Minutes → Minutes
prune_minutes now_min keep_min [] = []
prune_minutes now_min keep_min ((m, b) ∷ mins) =
    let rest = prune_minutes now_min keep_min mins in
    if ltb (m + keep_min) now_min then rest else (m, b) ∷ rest

abbrev pub keep_stream : Stream → Minutes → Aggregator → Aggregator
keep_stream k [] a = a
keep_stream k (x ∷ mins) a = (k, x ∷ mins) ∷ a

unfoldable pub prune : Aggregator → ℕ → ℕ → Aggregator
unfolding prune_minutes
prune [] now keep_min = []
prune ((k, mins) ∷ a) now keep_min =
    keep_stream k (prune_minutes (unix_minute now) keep_min mins) (prune a now keep_min)
