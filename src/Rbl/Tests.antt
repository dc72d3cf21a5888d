-- ===== src/Rbl/Tests.antt =====
-- Two addresses, one of them listed in one zone.
use mxsentinel.Prelude.{
  ℕ, zero, suc, ◌+◌, ◌-◌, ◌*◌, ◌/◌, ◌%◌, ◌≤◌, ◌<◌, ◌≡◌, refl, sym, ap, ◌∙◌, ◌≢◌, ◌↔◌, ◌⊎◌, inl, inr,
  Bool, true, false, not, ◌&&◌, ◌||◌, Option, none, some, List, [], ◌∷◌, ◌++◌, map, append_assoc,
  append-nil, arith, String, str_eq, eq_iff, eq_refl, ltb, leb, ◌==◌, if◌then◌else◌, ltb→lt, lt→ltb,
  leb→le, le→leb, ==→eq, ==_refl, Bool-cases, &&-left, &&-right, ||-cases, length, take, select,
  any, length-append, length-take_le, All, All-append, All-select, length-select, select-All,
  select-append, All-select_keep,
}
use mxsentinel.Prelude.Text.{Bytes, codes, bytes_eq}
use mxsentinel.Rbl.Status.{Row, Listing, upsert, healthy_ips, ip_status, build_status}
use mxsentinel.Rbl.Agree.{healthy_ips-ip_status}

abbrev listing : Bytes → Bytes → Bool → Listing
listing ip zone listed = record { ip = ip; zone = zone; listed = listed; reason = [] }

abbrev state : Bytes → Bytes → Bool → Row
state ip zone listed = record {
  ip = ip;
  zone = zone;
  listed = listed;
  reason = [];
  checked_at = 5;
  listed_since = none;
}

abbrev rows : List Row
rows =
    state (codes "1.1.1.1") (codes "a") false
    ∷ state (codes "1.1.1.1") (codes "b") true
    ∷ state (codes "2.2.2.2") (codes "a") false
    ∷ []

abbrev addresses : List Bytes
addresses = codes "2.2.2.2" ∷ codes "1.1.1.1" ∷ codes "3.3.3.3" ∷ []

one_healthy : healthy_ips addresses rows ≡ codes "2.2.2.2" ∷ []
unfolding healthy_ips mxsentinel.Prelude.Sort.sort select any bytes_eq
one_healthy = refl

unchecked_in_no_count :
    (build_status addresses rows).summary
    ≡ record { total_ips = 3; healthy_count = 1; listed_count = 1 }
unfolding build_status any select bytes_eq
unchecked_in_no_count = refl

abbrev has_changed : Option (List Row × Bool × Bool) → Bool
has_changed none = false
has_changed (some (rs, changed, listed)) = changed

-- A pair without a row that is listed is a change of state.
new_and_listed :
    has_changed (upsert false (listing (codes "3.3.3.3") (codes "a") true) 9 rows) ≡ true
unfolding upsert bytes_eq
new_and_listed = refl

healthy_ips-ip_status_example :
    any (bytes_eq (codes "2.2.2.2")) (healthy_ips addresses rows)
    ≡ (ip_status rows (codes "2.2.2.2")).healthy
unfolding any bytes_eq
healthy_ips-ip_status_example = healthy_ips-ip_status addresses rows (codes "2.2.2.2") refl
