-- ===== src/MtaSts/InspectTests.antt =====
-- Inspections of a domain with one host.
use mxsentinel.Prelude.{
  ℕ, zero, suc, ◌+◌, ◌-◌, ◌*◌, ◌/◌, ◌%◌, ◌≤◌, ◌<◌, ◌≡◌, refl, sym, ap, ◌∙◌, ◌≢◌, ◌↔◌, ◌⊎◌, inl, inr,
  Bool, true, false, not, ◌&&◌, ◌||◌, Option, none, some, List, [], ◌∷◌, ◌++◌, map, append_assoc,
  append-nil, arith, String, str_eq, eq_iff, eq_refl, ltb, leb, ◌==◌, if◌then◌else◌, ltb→lt, lt→ltb,
  leb→le, le→leb, ==→eq, ==_refl, Bool-cases, &&-left, &&-right, ||-cases, length, take, select,
  any, length-append, length-take_le, All, All-append, All-select, length-select, select-All,
  select-append, All-select_keep,
}
use mxsentinel.Prelude.Text.{Bytes, codes}
use mxsentinel.Dns.Inspect.{normal_domain}
use mxsentinel.MtaSts.Inspect.{Deps, inspect_sts, has_alertable}
use mxsentinel.MtaSts.Health.{body_ok, inspect_sts-healthy}

abbrev body : Bytes
body = codes "version: STSv1\nmode: testing\nmx: a.org\nmx: *.b.org\nmax_age: 86400\n"

-- The certificate ends one nanosecond before the inspection.
abbrev expired : Deps
expired = record {
  resolver = λ n. some [];
  fetch = λ d. some body;
  check = λ h. record { not_after = 99; valid = true; err = [] };
  now = 100;
}

expired_unhealthy : (inspect_sts expired 0 (codes "a.org")).healthy ≡ false
unfolding inspect_sts mxsentinel.Prelude.Text.is_empty mxsentinel.Dns.Inspect.first_txt
    mxsentinel.MtaSts.Policy.parse_policy mxsentinel.Prelude.Text.split
    mxsentinel.MtaSts.Policy.replace_crlf mxsentinel.Prelude.Text.trim_space
    mxsentinel.Prelude.Text.bytes_eq mxsentinel.Prelude.Text.to_lower mxsentinel.MtaSts.Policy.atoi
    mxsentinel.Prelude.Text.has_prefix
expired_unhealthy = refl

wildcard_not_checked : length (inspect_sts expired 0 (codes "a.org")).state.certs ≡ 1
unfolding inspect_sts mxsentinel.MtaSts.Policy.parse_policy mxsentinel.Prelude.Text.split
    mxsentinel.MtaSts.Policy.replace_crlf mxsentinel.Prelude.Text.is_empty
    mxsentinel.Prelude.Text.trim_space mxsentinel.Prelude.Text.bytes_eq
    mxsentinel.Prelude.Text.to_lower mxsentinel.MtaSts.Policy.atoi
    mxsentinel.Prelude.Text.has_prefix
wildcard_not_checked = refl

nothing_served :
    (inspect_sts (record expired { fetch = λ d. none }) 0 (codes "a.org")).healthy ≡ true
unfolding inspect_sts mxsentinel.Prelude.Text.is_empty mxsentinel.Dns.Inspect.first_txt
nothing_served = refl

alerted_all_the_same :
    has_alertable (inspect_sts (record expired { fetch = λ d. none }) 0 (codes "a.org")).findings
    ≡ true
unfolding inspect_sts has_alertable any mxsentinel.Prelude.Text.is_empty
    mxsentinel.Dns.Inspect.first_txt
alerted_all_the_same = refl

inspect_sts-healthy_example :
    (inspect_sts expired 0 (codes "a.org")).healthy
    ≡ body_ok expired (expired.fetch (normal_domain (codes "a.org")))
inspect_sts-healthy_example = inspect_sts-healthy expired 0 (codes "a.org")
