-- ===== src/Dns/Tags.antt =====
-- Records of tags: internal/dns/dmarc.go and internal/dns/dkim.go. The size of an RSA key is read by Go's
-- crypto packages and a parameter: `none` for what they refuse.
use mxsentinel.Prelude.{
  ℕ, not, ◌&&◌, ◌||◌, Option, none, some, List, [], ◌∷◌, ◌++◌, String, ltb, ◌==◌, if◌then◌else◌,
}
use mxsentinel.Prelude.Text.{
  Bytes, codes, bytes_eq, is_empty, to_lower, has_prefix, contains, trim_space, split,
}
use mxsentinel.Prelude.Assoc.{lookup, insert, bytes_key}
use mxsentinel.Dns.Spf.{Resolver}
use mxsentinel.Dns.Findings.{
  RecordFinding, finding, when, info, warning, critical, dkim, dmarc, dkim_missing_selector,
  dkim_revoked, dkim_weak_key, dkim_testing, dkim_invalid, dmarc_missing, dmarc_policy_none,
  dmarc_missing_rua, dmarc_pct_partial, dmarc_invalid,
}

abbrev pub Tags : Type 0
Tags = List (Bytes × Bytes)

-- The parts before and behind the first equals sign.
unfoldable pub cut_at_equals : Bytes → Option (Bytes × Bytes)
cut_at_equals [] = none
cut_at_equals (c ∷ s) = if c == 61 then some ([], s) else longer c (cut_at_equals s)
  where
    longer : ℕ → Option (Bytes × Bytes) → Option (Bytes × Bytes)
    longer c none = none
    longer c (some (k, v)) = some (c ∷ k, v)

abbrev add_tag : Option (Bytes × Bytes) → Tags → Tags
add_tag none tags = tags
add_tag (some (k, v)) tags = insert (trim_space k) (trim_space v) tags

unfoldable pub add_parts : List Bytes → Tags → Tags
unfolding cut_at_equals
add_parts [] tags = tags
add_parts (p ∷ ps) tags =
    let part = trim_space p in
    add_parts ps (if is_empty part then tags else add_tag (cut_at_equals part) tags)

unfoldable pub parse_tag_list : Bytes → Tags
unfolding add_parts
parse_tag_list txt = add_parts (split 59 txt) []

abbrev or_blank : Option Bytes → Bytes
or_blank none = []
or_blank (some s) = s

abbrev pub tag : String → Tags → Bytes
tag k tags = or_blank (lookup (codes k) tags)

unfoldable pub first_dmarc : List Bytes → Option Bytes
first_dmarc [] = none
first_dmarc (t ∷ ts) =
    let rest = first_dmarc ts in
    if has_prefix (codes "v=dmarc1") (to_lower (trim_space t)) then some t else rest

unfoldable pub policy_findings : Bytes → List RecordFinding
policy_findings p =
    if is_empty p
    then finding dmarc warning dmarc_invalid ∷ []
    else if bytes_eq p (codes "none")
    then finding dmarc warning dmarc_policy_none ∷ []
    else if bytes_eq p (codes "quarantine") || bytes_eq p (codes "reject")
    then []
    else finding dmarc warning dmarc_invalid ∷ []

abbrev pub pct_findings : Option Bytes → List RecordFinding
pct_findings none = []
pct_findings (some pct) =
    when (not (bytes_eq (trim_space pct) (codes "100")) && not (is_empty (trim_space pct)))
      (finding dmarc warning dmarc_pct_partial)

unfoldable pub dmarc_findings : Tags → List RecordFinding
unfolding policy_findings
dmarc_findings tags =
    policy_findings (to_lower (tag "p" tags))
    ++ (when (is_empty (trim_space (tag "rua" tags))) (finding dmarc warning dmarc_missing_rua)
        ++ pct_findings (lookup (codes "pct") tags))

abbrev pub chosen_dmarc : Option Bytes → Bytes × List RecordFinding
chosen_dmarc none = ([], finding dmarc critical dmarc_missing ∷ [])
chosen_dmarc (some t) = (t, dmarc_findings (parse_tag_list t))

abbrev pub dmarc_answer : Option (List Bytes) → Bytes × List RecordFinding
dmarc_answer none = ([], finding dmarc warning dmarc_invalid ∷ [])
dmarc_answer (some txts) = chosen_dmarc (first_dmarc txts)

unfoldable pub evaluate_dmarc : Resolver → Bytes → Bytes × List RecordFinding
unfolding first_dmarc dmarc_findings parse_tag_list
evaluate_dmarc r domain = dmarc_answer (r (codes "_dmarc." ++ domain))

unfoldable pub pick_dkim : List Bytes → Option Bytes
pick_dkim [] = none
pick_dkim (t ∷ ts) =
    let rest = pick_dkim ts in
    let lt = to_lower t in
    if has_prefix (codes "v=dkim1") (trim_space lt) || contains lt (codes "p=")
    then some t
    else rest

-- Keys that are not RSA do not parse, which is a finding where the record claims RSA.
abbrev pub key_findings : Bytes → Option ℕ → List RecordFinding
key_findings k none =
    when (is_empty k || bytes_eq (to_lower k) (codes "rsa")) (finding dkim warning dkim_invalid)
key_findings k (some bits) =
    if ltb bits 1024
    then finding dkim critical dkim_weak_key ∷ []
    else when (ltb bits 2048) (finding dkim warning dkim_weak_key)

abbrev pub key_part : (Bytes → Option ℕ) → Tags → List RecordFinding
key_part rsa_bits tags =
    if is_empty (trim_space (tag "p" tags))
    then finding dkim critical dkim_revoked ∷ []
    else key_findings (tag "k" tags) (rsa_bits (tag "p" tags))

unfoldable pub dkim_tag_findings : (Bytes → Option ℕ) → Tags → List RecordFinding
dkim_tag_findings rsa_bits tags =
    when (contains (tag "t" tags) (codes "y")) (finding dkim info dkim_testing)
    ++ key_part rsa_bits tags

-- What one selector adds to the records, and its findings.
abbrev pub chosen_dkim : (Bytes → Option ℕ) → Option Bytes → Option Bytes × List RecordFinding
chosen_dkim rsa_bits none = (none, finding dkim critical dkim_missing_selector ∷ [])
chosen_dkim rsa_bits (some t) = (some t, dkim_tag_findings rsa_bits (parse_tag_list t))

abbrev pub dkim_answer :
    (Bytes → Option ℕ) → Option (List Bytes) → Option Bytes × List RecordFinding
dkim_answer rsa_bits none = (none, finding dkim warning dkim_invalid ∷ [])
dkim_answer rsa_bits (some txts) = chosen_dkim rsa_bits (pick_dkim txts)

abbrev pub add_record : Bytes → Option Bytes → Tags → Tags
add_record selector none records = records
add_record selector (some t) records = insert selector t records

abbrev pub dkim_name : Bytes → Bytes → Bytes
dkim_name selector domain = selector ++ (codes "._domainkey." ++ domain)

-- The loop over the selectors, on the records found so far.
unfoldable pub evaluate_dkim :
    Resolver → (Bytes → Option ℕ) → Bytes → List Bytes → Tags → Tags × List RecordFinding
unfolding pick_dkim dkim_tag_findings parse_tag_list
evaluate_dkim r rsa_bits domain [] records = (records, [])
evaluate_dkim r rsa_bits domain (s ∷ ss) records =
    let one = dkim_answer rsa_bits (r (dkim_name s domain)) in
    let rest = evaluate_dkim r rsa_bits domain ss (add_record s one.0 records) in
    (rest.0, one.1 ++ rest.1)
