-- ===== src/MtaSts/Tests.antt =====
-- The parsers on concrete texts.
use mxsentinel.Prelude.{
  ℕ, zero, suc, ◌+◌, ◌-◌, ◌*◌, ◌/◌, ◌%◌, ◌≤◌, ◌<◌, ◌≡◌, refl, sym, ap, ◌∙◌, ◌≢◌, ◌↔◌, ◌⊎◌, inl, inr,
  Bool, true, false, not, ◌&&◌, ◌||◌, Option, none, some, List, [], ◌∷◌, ◌++◌, map, append_assoc,
  append-nil, arith, String, str_eq, eq_iff, eq_refl, ltb, leb, ◌==◌, if◌then◌else◌, ltb→lt, lt→ltb,
  leb→le, le→leb, ==→eq, ==_refl, Bool-cases, &&-left, &&-right, ||-cases, length, take, select,
  any, length-append, length-take_le, All, All-append, All-select, length-select, select-All,
  All-select_keep,
}
use mxsentinel.Prelude.Text.{Bytes, codes, bytes_eq, is_empty, trim_space}
use mxsentinel.MtaSts.Policy.{
  Policy, PolicyError, StsRecord, TxtError, ℤ, pos, negsuc, cut, key_of, lines_of, parse_policy,
  parse_txt, atoi,
}
use mxsentinel.MtaSts.Parsed.{IsUsable, hosts, parse_policy-IsUsable}
use mxsentinel.MtaSts.Ignored.{IsIgnored}
use mxsentinel.MtaSts.Record.{parse_txt-written}

-- The lines of a policy file end in CR LF.
abbrev policy_file : Bytes
policy_file =
    codes
      "version: STSv1\r\nmode: Enforce\r\nmx: A.example\r\nmx: *.b.example\r\nmax_age: 86400\r\n"

abbrev extended_file : Bytes
extended_file =
    codes
      "version: STSv1\r\nmode: Enforce\r\nmx: A.example\r\nnew_key: 7\r\nmx: *.b.example\r\nmax_age: 86400\r\n"

abbrev parsed : Policy
parsed = record {
  version = codes "STSv1";
  mode = codes "enforce";
  mx = codes "a.example" ∷ codes "*.b.example" ∷ [];
  max_age = pos 86400;
}

reads_policy : parse_policy policy_file ≡ inr parsed
unfolding parse_policy mxsentinel.Prelude.Text.split mxsentinel.MtaSts.Policy.replace_crlf is_empty
    trim_space bytes_eq mxsentinel.Prelude.Text.to_lower atoi
reads_policy = refl

parse_policy-IsUsable_example : IsUsable parsed × (parsed.mx ≡ hosts (lines_of policy_file))
parse_policy-IsUsable_example = parse_policy-IsUsable policy_file parsed reads_policy

-- A negative age is accepted.
negative_age : atoi (codes "-5") ≡ some (negsuc 4)
unfolding atoi
negative_age = refl

new_key-IsIgnored : IsIgnored (codes "new_key: 7")
unfolding trim_space cut bytes_eq is_empty mxsentinel.Prelude.Text.to_lower
new_key-IsIgnored = inr ((codes "new_key", codes " 7"), refl, refl, refl, refl, refl, refl)

parse_txt-written_example :
    parse_txt (codes "v=STSv1; id=" ++ codes "2024A")
    ≡ inr (record { version = codes "STSv1"; id = codes "2024A" })
unfolding is_empty mxsentinel.Prelude.Text.is_space
parse_txt-written_example =
    parse_txt-written (codes "2024A")
      ((refl, refl), ((refl, refl), ((refl, refl), ((refl, refl), ((refl, refl), tt))))) refl
