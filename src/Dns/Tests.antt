-- ===== src/Dns/Tests.antt =====
-- The walk over concrete SPF records.
use mxsentinel.Prelude.{
  ℕ, zero, suc, ◌+◌, ◌-◌, ◌*◌, ◌/◌, ◌%◌, ◌≤◌, ◌<◌, ◌≡◌, refl, sym, ap, ◌∙◌, ◌≢◌, ◌↔◌, ◌⊎◌, inl, inr,
  Bool, true, false, not, ◌&&◌, ◌||◌, Option, none, some, List, [], ◌∷◌, ◌++◌, map, append_assoc,
  append-nil, arith, String, str_eq, eq_iff, eq_refl, ltb, leb, ◌==◌, if◌then◌else◌, ltb→lt, lt→ltb,
  leb→le, le→leb, ==→eq, ==_refl, Bool-cases, &&-left, &&-right, ||-cases, length, take, select,
  any, length-append, length-take_le, All, All-append, All-select, length-select, select-All,
  All-select_keep,
}
use mxsentinel.Prelude.Text.{Bytes, codes, bytes_eq, is_empty, to_lower}
use mxsentinel.Dns.Spf.{
  Resolver, Lookups, Term, querying, skipped, target, term_of, fields, spf_lookups,
}
use mxsentinel.Dns.Visits.{Distinct, spf_lookups-Distinct}
use mxsentinel.Dns.Tags.{evaluate_dmarc}
use mxsentinel.Dns.Inspect.{Lookup, inspect, normal_domain}
use mxsentinel.Dns.Health.{mx_ok, spf_ok, dmarc_ok, selectors_ok, inspect-healthy}
use mxsentinel.Dns.Lookups.{queries, spf_lookups_self}

-- One domain publishes a record that includes itself.
abbrev self_record : Bytes
self_record = codes "v=spf1 a mx include:X.com. -all"

abbrev zone : Resolver
zone name = if bytes_eq (to_lower name) (codes "x.com") then some (self_record ∷ []) else none

abbrev local_record : Bytes
local_record = codes "v=spf1 a:h.com ~mx ip4:192.0.2.1 exists:%{i}.h.com -all"

local_count : (spf_lookups zone 12 (codes "x.com") local_record []).count ≡ 3
unfolding spf_lookups any select mxsentinel.Prelude.Text.is_space mxsentinel.Prelude.Text.grow
    is_empty bytes_eq to_lower mxsentinel.Prelude.Text.has_prefix
local_count = refl

spf_lookups_self_example : (spf_lookups zone 12 (codes "x.com") self_record []).cycle ≡ true
unfolding term_of fields select mxsentinel.Prelude.Text.is_space mxsentinel.Prelude.Text.grow
    is_empty bytes_eq to_lower mxsentinel.Prelude.Text.has_prefix queries
    mxsentinel.Prelude.Text.trim_dot mxsentinel.Dns.Spf.first_spf mxsentinel.Prelude.Text.trim_space
spf_lookups_self_example =
    spf_lookups_self zone 12 (codes "x.com") self_record (codes "X.com.") []
      (skipped ∷ querying ∷ querying ∷ []) (skipped ∷ []) (self_record ∷ []) self_record refl
      (tt, (tt, (tt, tt))) (omega arith) refl refl refl refl

-- Two included domains that share a third: there is no loop, but one is reported.
abbrev diamond : Resolver
diamond name =
    if bytes_eq name (codes "x.com")
    then some (codes "v=spf1 include:a.com include:b.com -all" ∷ [])
    else if bytes_eq name (codes "a.com") || bytes_eq name (codes "b.com")
    then some (codes "v=spf1 include:c.com -all" ∷ [])
    else if bytes_eq name (codes "c.com")
    then some (codes "v=spf1 ip4:192.0.2.1 -all" ∷ [])
    else if bytes_eq name (codes "_dmarc.x.com")
    then some (codes "v=DMARC1; p=reject; rua=mailto:r@x.com" ∷ [])
    else some []

diamond_reported :
    (spf_lookups diamond 12
      (codes "x.com")
      (codes "v=spf1 include:a.com include:b.com -all")
      []).cycle
    ≡ true
unfolding spf_lookups any select mxsentinel.Prelude.Text.is_space mxsentinel.Prelude.Text.grow
    is_empty bytes_eq to_lower mxsentinel.Prelude.Text.has_prefix mxsentinel.Prelude.Text.trim_space
diamond_reported = refl

abbrev dns : Lookup
dns = record { txt = diamond; mx_hosts = λ d. some (codes "MX.x.com." ∷ []) }

abbrev no_key : Bytes → Option ℕ
no_key p = none

policy_enforced : (evaluate_dmarc diamond (codes "x.com")).1 ≡ []
unfolding evaluate_dmarc bytes_eq mxsentinel.Prelude.Text.has_prefix to_lower
    mxsentinel.Prelude.Text.trim_space mxsentinel.Prelude.Assoc.lookup mxsentinel.Prelude.Text.split
    mxsentinel.Prelude.Assoc.insert
policy_enforced = refl

diamond_unhealthy : (inspect dns no_key [] (codes " X.com")).healthy ≡ false
unfolding inspect bytes_eq to_lower mxsentinel.Prelude.Text.trim_space select
    mxsentinel.Prelude.Text.has_prefix any mxsentinel.Prelude.Text.grow
    mxsentinel.Prelude.Assoc.lookup mxsentinel.Prelude.Text.split mxsentinel.Prelude.Assoc.insert
diamond_unhealthy = refl

inspect-healthy_example : (inspect dns no_key (codes "s1" ∷ []) (codes "X.com.")).healthy ≡ (
    let d = normal_domain (codes "X.com.") in
    mx_ok (dns.mx_hosts d)
    && (spf_ok dns.txt d (dns.txt d)
        && (dmarc_ok (dns.txt (codes "_dmarc." ++ d))
            && selectors_ok dns.txt no_key d (codes "s1" ∷ []))))
inspect-healthy_example = inspect-healthy dns no_key (codes "s1" ∷ []) (codes "X.com.")

spf_lookups-Distinct_example :
    Distinct
      (spf_lookups diamond 12
        (codes "x.com")
        (codes "v=spf1 include:a.com include:b.com -all")
        []).visited
spf_lookups-Distinct_example =
    spf_lookups-Distinct diamond 12 (codes "x.com")
      (codes "v=spf1 include:a.com include:b.com -all") [] tt
