-- ===== src/Dns/Health.antt =====
-- When internal/dns/inspect.go calls a domain healthy, in terms of its records. The walk over an SPF
-- record sets its flag of a loop also where it comes again to a domain that it has left.
use mxsentinel.Dns.Findings.{dkim_testing}
use mxsentinel.Prelude.{
  ℕ, zero, suc, ◌+◌, ◌-◌, ◌*◌, ◌/◌, ◌%◌, ◌≤◌, ◌<◌, ◌≡◌, refl, sym, ap, ◌∙◌, ◌≢◌, ◌↔◌, ◌⊎◌, inl, inr,
  Bool, true, false, not, ◌&&◌, ◌||◌, Option, none, some, List, [], ◌∷◌, ◌++◌, map, append_assoc,
  append-nil, arith, String, str_eq, eq_iff, eq_refl, ltb, leb, ◌==◌, if◌then◌else◌, ltb→lt, lt→ltb,
  leb→le, le→leb, ==→eq, ==_refl, Bool-cases, &&-left, &&-right, ||-cases, length, take, select,
  any, length-append, length-take_le, All, All-append, All-select, length-select, select-All,
  select-append, All-select_keep,
}
use mxsentinel.Prelude.Text.{Bytes, codes, to_lower, trim_space, is_empty, bytes_eq, contains}
use mxsentinel.Prelude.Assoc.{lookup, bytes_key}
use mxsentinel.Prelude.Sort.{bytes_le, bytes_le_total, bytes_le_trans, length-sort}
use mxsentinel.Dns.Spf.{Resolver, Lookups, is_spf, spf_lookups}
use mxsentinel.Dns.Findings.{
  mx, mx_missing, spf, dkim, spf_multiple, info, critical, finding, when, worst_severity,
  is_critical, spf_answer, chosen_spf, walk_findings, all_findings, all_qualifier, has_redirect,
  evaluate_spf,
}
use mxsentinel.Dns.Tags.{
  add_record, key_part, Tags, tag, first_dmarc, policy_findings, pct_findings, dmarc_findings,
  parse_tag_list, chosen_dmarc, dmarc_answer, evaluate_dmarc, pick_dkim, key_findings,
  dkim_tag_findings, chosen_dkim, dkim_answer, dkim_name, evaluate_dkim,
}
use mxsentinel.Dns.Inspect.{Lookup, mx_answer, normal_domain, inspect}
use mxsentinel.Dns.Calm.{calm, calm-append, calm-when, worst_of-calm}

-- The faults that count, in terms of what the resolver answers; a failed lookup is none.
abbrev pub mx_ok : Option (List Bytes) → Bool
mx_ok none = true
mx_ok (some hosts) = not (length hosts == 0)

abbrev all_ok : Option ℕ → Bool
all_ok none = true
all_ok (some q) = not (q == 43)

abbrev spf_record_ok : Resolver → Bytes → List Bytes → Bool
spf_record_ok r domain [] = true
spf_record_ok r domain (t ∷ ts) =
    let l = spf_lookups r 12 domain t [] in
    not (ltb 1 (length (t ∷ ts)))
    && ((not l.cycle && not (ltb 10 l.count)) && all_ok (all_qualifier t))

abbrev pub spf_ok : Resolver → Bytes → Option (List Bytes) → Bool
spf_ok r domain none = true
spf_ok r domain (some txts) = spf_record_ok r domain (select is_spf txts)

abbrev is_some : Option Bytes → Bool
is_some none = false
is_some (some t) = true

abbrev pub dmarc_ok : Option (List Bytes) → Bool
dmarc_ok none = true
dmarc_ok (some txts) = is_some (first_dmarc txts)

abbrev bits_ok : Option ℕ → Bool
bits_ok none = true
bits_ok (some bits) = not (ltb bits 1024)

abbrev key_ok : (Bytes → Option ℕ) → Option Bytes → Bool
key_ok rsa_bits none = false
key_ok rsa_bits (some t) =
    let tags = parse_tag_list t in
    not (is_empty (trim_space (tag "p" tags))) && bits_ok (rsa_bits (tag "p" tags))

abbrev selector_ok : (Bytes → Option ℕ) → Option (List Bytes) → Bool
selector_ok rsa_bits none = true
selector_ok rsa_bits (some txts) = key_ok rsa_bits (pick_dkim txts)

unfoldable pub selectors_ok : Resolver → (Bytes → Option ℕ) → Bytes → List Bytes → Bool
selectors_ok r rsa_bits domain [] = true
selectors_ok r rsa_bits domain (s ∷ ss) =
    selector_ok rsa_bits (r (dkim_name s domain)) && selectors_ok r rsa_bits domain ss

length-map : (f : Bytes → Bytes) (xs : List Bytes) → length (map f xs) ≡ length xs
length-map f [] = refl
length-map f (x ∷ xs) = ap suc (length-map f xs)

calm-mx : (o : Option (List Bytes)) → calm (mx_answer o).1 ≡ mx_ok o
unfolding calm is_critical
calm-mx none = refl
calm-mx (some hosts) =
    let names = map (λ h. mxsentinel.Prelude.Text.trim_dot (to_lower h)) hosts in
    let same = length-sort bytes_le bytes_le_total bytes_le_trans names ∙ length-map _ hosts in
    rw same (calm-when (length hosts == 0) (finding mx critical mx_missing) ∙ ground (arith))

calm-all : (o : Option ℕ) (redirects : Bool) → calm (all_findings o redirects) ≡ all_ok o
unfolding calm is_critical
calm-all none redirects = ground arith
calm-all (some q) redirects = ground arith

calm-walk : (l : Lookups) → calm (walk_findings l) ≡ not l.cycle && not (ltb 10 l.count)
unfolding calm is_critical
calm-walk l = ground arith

calm-chosen_spf :
    (r : Resolver) (domain : Bytes) (ts : List Bytes)
    → calm (chosen_spf r domain ts).1 ≡ spf_record_ok r domain ts
unfolding calm is_critical
calm-chosen_spf r domain [] = refl
calm-chosen_spf r domain (t ∷ ts) =
    let l = spf_lookups r 12 domain t [] in
    let multiple = finding spf critical spf_multiple in
    calm-append (when (ltb 1 (length (t ∷ ts))) multiple)
      (walk_findings l ++ all_findings (all_qualifier t) (has_redirect t))
    ∙ ap (λ b. calm (when (ltb 1 (length (t ∷ ts))) multiple) && b)
        (calm-append (walk_findings l) (all_findings (all_qualifier t) (has_redirect t)))
    ∙ ap
        (λ b.
          calm (when (ltb 1 (length (t ∷ ts))) multiple)
          && (b && calm (all_findings (all_qualifier t) (has_redirect t))))
        (calm-walk l)
    ∙ ap
        (λ b.
          calm (when (ltb 1 (length (t ∷ ts))) multiple)
          && ((not l.cycle && not (ltb 10 l.count)) && b))
        (calm-all (all_qualifier t) (has_redirect t))
    ∙ ground arith

calm-spf :
    (r : Resolver) (domain : Bytes) (o : Option (List Bytes))
    → calm (spf_answer r domain o).1 ≡ spf_ok r domain o
unfolding calm is_critical
calm-spf r domain none = refl
calm-spf r domain (some txts) = calm-chosen_spf r domain (select is_spf txts)

calm-pct : (o : Option Bytes) → calm (pct_findings o) ≡ true
unfolding calm is_critical
calm-pct none = refl
calm-pct (some pct) = ground arith

calm-policy : (p : Bytes) → calm (policy_findings p) ≡ true
unfolding calm is_critical policy_findings
calm-policy p = ground arith

calm-dmarc_tags : (tags : Tags) → calm (dmarc_findings tags) ≡ true
unfolding calm is_critical dmarc_findings
calm-dmarc_tags tags =
    rw (calm-append (policy_findings (to_lower (tag "p" tags))) _) rw
      (calm-policy (to_lower (tag "p" tags))) rw
      (calm-append (when (is_empty (trim_space (tag "rua" tags))) _)
        (pct_findings (lookup (codes "pct") tags)))
      rw (calm-pct (lookup (codes "pct") tags)) (ground arith)

calm-key : (k : Bytes) (o : Option ℕ) → calm (key_findings k o) ≡ bits_ok o
unfolding calm is_critical
calm-key k none = ground arith
calm-key k (some bits) = ground arith

calm-key_part :
    (rsa_bits : Bytes → Option ℕ) (tags : Tags)
    → calm (key_part rsa_bits tags)
      ≡ not (is_empty (trim_space (tag "p" tags))) && bits_ok (rsa_bits (tag "p" tags))
unfolding calm is_critical
calm-key_part rsa_bits tags = elim (Bool-cases (is_empty (trim_space (tag "p" tags)))) [
  | inl e ↦ rw e refl
  | inr e ↦ rw e (calm-key (tag "k" tags) (rsa_bits (tag "p" tags)))
]

calm-dkim_tags :
    (rsa_bits : Bytes → Option ℕ) (tags : Tags)
    → calm (dkim_tag_findings rsa_bits tags)
      ≡ not (is_empty (trim_space (tag "p" tags))) && bits_ok (rsa_bits (tag "p" tags))
unfolding dkim_tag_findings is_critical
calm-dkim_tags rsa_bits tags =
    let testing = contains (tag "t" tags) (codes "y") in
    calm-append (when testing (finding dkim info dkim_testing)) (key_part rsa_bits tags)
    ∙ ap (λ b. b && calm (key_part rsa_bits tags))
        (calm-when testing (finding dkim info dkim_testing) ∙ not_critical testing)
    ∙ calm-key_part rsa_bits tags
  where
    not_critical : (b : Bool) → not (b && false) ≡ true
    not_critical true = refl
    not_critical false = refl

calm-dkim :
    (rsa_bits : Bytes → Option ℕ) (o : Option (List Bytes))
    → calm (dkim_answer rsa_bits o).1 ≡ selector_ok rsa_bits o
unfolding calm is_critical
calm-dkim rsa_bits none = refl
calm-dkim rsa_bits (some txts) = calm-picked (pick_dkim txts)
  where
    calm-picked : (o : Option Bytes) → calm (chosen_dkim rsa_bits o).1 ≡ key_ok rsa_bits o
    calm-picked none = refl
    calm-picked (some t) = calm-dkim_tags rsa_bits (parse_tag_list t)

calm-selectors :
    (r : Resolver) (rsa_bits : Bytes → Option ℕ) (domain : Bytes) (ss : List Bytes) (records : Tags)
    → calm (evaluate_dkim r rsa_bits domain ss records).1 ≡ selectors_ok r rsa_bits domain ss
unfolding calm evaluate_dkim selectors_ok
calm-selectors r rsa_bits domain [] records = refl
calm-selectors r rsa_bits domain (s ∷ ss) records =
    let o = r (dkim_name s domain) in
    let later = add_record s (dkim_answer rsa_bits o).0 records in
    let rest = (evaluate_dkim r rsa_bits domain ss later).1 in
    calm-append (dkim_answer rsa_bits o).1 rest
    ∙ ap (λ b. b && calm rest) (calm-dkim rsa_bits o)
    ∙ ap (λ b. selector_ok rsa_bits o && b) (calm-selectors r rsa_bits domain ss later)

calm-dmarc : (o : Option (List Bytes)) → calm (dmarc_answer o).1 ≡ dmarc_ok o
unfolding calm is_critical
calm-dmarc none = refl
calm-dmarc (some txts) = calm-chosen (first_dmarc txts)
  where
    calm-chosen : (o : Option Bytes) → calm (chosen_dmarc o).1 ≡ is_some o
    calm-chosen none = refl
    calm-chosen (some t) = calm-dmarc_tags (parse_tag_list t)

-- A domain is called healthy exactly when its MX answer has a host, its TXT answer has at most one SPF
-- record, the walk over that record's includes and redirects counts at most ten lookups and does not
-- set its flag of a loop, the record's first `all`, if any, has not the qualifier `+`, the DMARC
-- answer has a DMARC record, and each selector's answer has a DKIM record with a key that is no RSA
-- key below 1024 bits; a failed answer counts against nothing.
pub inspect-healthy :
    (l : Lookup) (rsa_bits : Bytes → Option ℕ) (selectors : List Bytes) (domain : Bytes)
    → (inspect l rsa_bits selectors domain).healthy ≡ (
        let d = normal_domain domain in
        mx_ok (l.mx_hosts d)
        && (spf_ok l.txt d (l.txt d)
            && (dmarc_ok (l.txt (codes "_dmarc." ++ d))
                && selectors_ok l.txt rsa_bits d selectors)))
unfolding inspect evaluate_spf evaluate_dmarc worst_severity is_critical
inspect-healthy l rsa_bits selectors domain =
    let d = normal_domain domain in
    let hosts = (mx_answer (l.mx_hosts d)).1 in
    let senders = (spf_answer l.txt d (l.txt d)).1 in
    let policy = (dmarc_answer (l.txt (codes "_dmarc." ++ d))).1 in
    let keys = (evaluate_dkim l.txt rsa_bits d selectors []).1 in
    worst_of-calm none (hosts ++ (senders ++ (policy ++ keys)))
    ∙ calm-append hosts (senders ++ (policy ++ keys))
    ∙ ap (λ b. calm hosts && b)
        (calm-append senders (policy ++ keys)
          ∙ ap (λ b. calm senders && b) (calm-append policy keys))
    ∙ rw (calm-mx (l.mx_hosts d)) rw (calm-spf l.txt d (l.txt d)) rw
        (calm-dmarc (l.txt (codes "_dmarc." ++ d))) rw
        (calm-selectors l.txt rsa_bits d selectors []) refl
