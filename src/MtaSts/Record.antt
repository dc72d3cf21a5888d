-- ===== src/MtaSts/Record.antt =====
-- The TXT record of internal/mtasts/policy.go: what is written is read back.
use mxsentinel.Prelude.{◌≡◌, refl, inr, false, [], ◌∷◌, ◌++◌, arith, ◌==◌, All}
use mxsentinel.Prelude.Text.{
  Bytes, codes, bytes_eq, is_empty, to_lower, trim_space, trim_left, trim_right, split, is_space,
}
use mxsentinel.MtaSts.Policy.{cut, parse_txt, parse_tags}

-- Letters, digits and other bytes that separate nothing.
abbrev pub IsPlain : Bytes → Type 0
IsPlain s = All (λ c. (is_space c ≡ false) × (c == 59 ≡ false)) s

split_plain : (s : Bytes) → IsPlain s → split 59 s ≡ s ∷ []
unfolding split
split_plain [] h = refl
split_plain (c ∷ s) h = ground (arith, split_plain s h.1)

trim_right_plain : (s : Bytes) → IsPlain s → trim_right s ≡ s
unfolding trim_right
trim_right_plain [] h = refl
trim_right_plain (c ∷ s) h = ground (arith, trim_right_plain s h.1)

trim_left_plain : (s : Bytes) → IsPlain s → trim_left s ≡ s
unfolding trim_left
trim_left_plain [] h = refl
trim_left_plain (c ∷ s) h = ground arith

-- The text `v=STSv1; id=` with an id after it that is not empty and holds no white space and no
-- semicolon is read as a record of this version and this id.
pub parse_txt-written :
    (id : Bytes)
    → IsPlain id
    → is_empty id ≡ false
    → parse_txt (codes "v=STSv1; id=" ++ id) ≡ inr (record { version = codes "STSv1"; id = id })
unfolding parse_txt split trim_space trim_left trim_right cut parse_tags is_empty to_lower bytes_eq
    is_space
parse_txt-written id h e =
    rw (split_plain id h) rw (trim_right_plain id h) rw (trim_left_plain id h) rw
      (trim_right_plain id h) rw e refl
