-- ===== src/Rbl/Status.antt =====
-- internal/rbl/store.go and internal/rbl/status.go, over the rows of ip_blocklist_status; `none` is an
-- error of the database.
use mxsentinel.Prelude.{
  ℕ, ◌+◌, Bool, true, false, not, ◌&&◌, ◌||◌, Option, none, some, List, [], ◌∷◌, ◌++◌, ltb,
  if◌then◌else◌, select, any,
}
use mxsentinel.Prelude.Text.{Bytes, bytes_eq}
use mxsentinel.Prelude.Sort.{sort, bytes_le}

pub record Row : Type 0 where
  pub ip : Bytes
  pub zone : Bytes
  pub listed : Bool
  pub reason : Bytes
  pub checked_at : ℕ
  pub listed_since : Option ℕ

-- The result of a check; the raw answers that it also carries are not stored.
pub record Listing : Type 0 where
  pub ip : Bytes
  pub zone : Bytes
  pub listed : Bool
  pub reason : Bytes

abbrev pub is_row_of : Bytes → Bytes → Row → Bool
is_row_of ip zone r = bytes_eq r.ip ip && bytes_eq r.zone zone

unfoldable pub previous_listed : List Row → Bytes → Bytes → Option Bool
previous_listed [] ip zone = none
previous_listed (r ∷ rs) ip zone =
    let rest = previous_listed rs ip zone in if is_row_of ip zone r then some r.listed else rest

-- The row of a pair that has none, and the update of one that has.
abbrev pub first_row : Listing → ℕ → Row
first_row l now = record {
  ip = l.ip;
  zone = l.zone;
  listed = l.listed;
  reason = l.reason;
  checked_at = now;
  listed_since = if l.listed then some now else none;
}

abbrev pub next_row : Listing → ℕ → Row → Row
next_row l now r = record r {
  listed = l.listed;
  reason = if l.listed then l.reason else [];
  checked_at = now;
  listed_since =
      if l.listed && not r.listed
      then some now
      else if l.listed && r.listed
      then r.listed_since
      else none;
}

unfoldable pub store_row : Listing → ℕ → List Row → List Row
store_row l now [] = first_row l now ∷ []
store_row l now (r ∷ rs) =
    let rest = store_row l now rs in
    if is_row_of l.ip l.zone r then next_row l now r ∷ rs else r ∷ rest

abbrev pub is_transition : Option Bool → Bool → Bool
is_transition none listed = listed
is_transition (some true) listed = not listed
is_transition (some false) listed = listed

-- `Upsert`: the rows, whether the state has changed, and the state.
unfoldable pub upsert : Bool → Listing → ℕ → List Row → Option (List Row × Bool × Bool)
unfolding previous_listed store_row
upsert fails l now rows =
    if fails
    then none
    else some
        (store_row l now rows, is_transition (previous_listed rows l.ip l.zone) l.listed, l.listed)

abbrev none_given : List Bytes → Bool
none_given [] = true
none_given (x ∷ xs) = false

unfoldable pub prune_stale : List Bytes → List Bytes → List Row → List Row
prune_stale ips zones rows =
    if none_given ips || none_given zones
    then rows
    else select (λ r. any (bytes_eq r.ip) ips && any (bytes_eq r.zone) zones) rows

-- The keys of a map that is set for each row: each once.
unfoldable pub ips_of : List Row → List Bytes
ips_of [] = []
ips_of (r ∷ rs) = let rest = ips_of rs in if any (bytes_eq r.ip) rest then rest else r.ip ∷ rest

unfoldable pub healthy_ips : List Bytes → List Row → List Bytes
unfolding ips_of
healthy_ips configured rows =
    let own = select (λ r. any (bytes_eq r.ip) configured) rows in
    let listed = ips_of (select (λ r. r.listed) own) in
    sort bytes_le (select (λ ip. not (any (bytes_eq ip) listed)) (ips_of own))

pub record IpStatus : Type 0 where
  pub ip : Bytes
  pub healthy : Bool
  pub checked : Bool
  pub listings : List Row

pub record BlocklistSummary : Type 0 where
  pub total_ips : ℕ
  pub healthy_count : ℕ
  pub listed_count : ℕ

pub record BlocklistStatus : Type 0 where
  pub checked_at : Option ℕ
  pub summary : BlocklistSummary
  pub ips : List IpStatus

abbrev pub has_rows : List Row → Bool
has_rows [] = false
has_rows (r ∷ rs) = true

unfoldable pub ip_status : List Row → Bytes → IpStatus
ip_status rows ip =
    let own = select (λ r. bytes_eq r.ip ip) rows in
    record {
      ip = ip;
      healthy = has_rows own && not (any (λ r. r.listed) own);
      checked = has_rows own;
      listings = own;
    }

abbrev newest : Option ℕ → ℕ → Option ℕ
newest none t = some t
newest (some u) t = if ltb u t then some t else some u

unfoldable pub latest : Option ℕ → List Row → Option ℕ
latest t [] = t
latest t (r ∷ rs) = latest (newest t r.checked_at) rs

abbrev one_if : Bool → ℕ
one_if true = 1
one_if false = 0

abbrev add_status : IpStatus → BlocklistStatus → BlocklistStatus
add_status s b =
    let listed_any = any (λ r. r.listed) s.listings in
    record {
      checked_at = latest b.checked_at s.listings;
      summary = record {
        total_ips = b.summary.total_ips + 1;
        healthy_count = b.summary.healthy_count + one_if (not listed_any && s.healthy);
        listed_count = b.summary.listed_count + one_if listed_any;
      };
      ips = b.ips ++ (s ∷ []);
    }

unfoldable pub add_statuses : List Row → List Bytes → BlocklistStatus → BlocklistStatus
unfolding ip_status latest
add_statuses rows [] b = b
add_statuses rows (ip ∷ ips) b = add_statuses rows ips (add_status (ip_status rows ip) b)

unfoldable pub build_status : List Bytes → List Row → BlocklistStatus
unfolding add_statuses
build_status configured rows = add_statuses rows configured (record {
  checked_at = none;
  summary = record { total_ips = 0; healthy_count = 0; listed_count = 0 };
  ips = [];
})
