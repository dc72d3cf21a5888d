-- ===== src/MtaSts/Policy.antt =====
-- internal/mtasts/policy.go: the parsers of a policy file and of the TXT record, with
-- strings.ReplaceAll, strings.Cut, strings.EqualFold and strconv.Atoi as they are used.
use mxsentinel.Prelude.{◌^◌}
use mxsentinel.Prelude.{
  ℕ, zero, suc, ◌+◌, ◌-◌, ◌*◌, ◌⊎◌, inl, inr, Bool, true, false, not, ◌&&◌, ◌||◌, Option, none,
  some, List, [], ◌∷◌, ◌++◌, ltb, leb, ◌==◌, if◌then◌else◌,
}
use mxsentinel.Prelude.Text.{Bytes, codes, bytes_eq, is_empty, to_lower, trim_space, split}

-- An int of 64 bits: a natural number, or the negative of its successor.
pub data ℤ : Type 0 where
  pos negsuc : ℕ → ℤ

pub record Policy : Type 0 where
  pub version : Bytes
  pub mode : Bytes
  pub mx : List Bytes
  pub max_age : ℤ

pub record StsRecord : Type 0 where
  pub version : Bytes
  pub id : Bytes

-- The errors, with the text that each quotes.
pub data PolicyError : Type 0 where
  malformed_line invalid_max_age bad_version invalid_mode no_mx_hosts : Bytes → PolicyError

pub data TxtError : Type 0 where
  missing_version : Bytes → TxtError
  missing_id : TxtError

unfoldable pub valid_mode : Bytes → Bool
valid_mode m =
    bytes_eq m (codes "none") || (bytes_eq m (codes "testing") || bytes_eq m (codes "enforce"))

-- strings.ReplaceAll(s, "\r\n", "\n")
unfoldable pub replace_crlf : Bytes → Bytes
replace_crlf [] = []
replace_crlf (c ∷ []) = c ∷ []
replace_crlf (c ∷ d ∷ s) =
    let rest = replace_crlf (d ∷ s) in if c == 13 && d == 10 then rest else c ∷ rest

abbrev cons_before : ℕ → Option (Bytes × Bytes) → Option (Bytes × Bytes)
cons_before c none = none
cons_before c (some (before, after)) = some (c ∷ before, after)

-- strings.Cut at a one-byte separator.
unfoldable pub cut : ℕ → Bytes → Option (Bytes × Bytes)
cut sep [] = none
cut sep (c ∷ s) = let rest = cut sep s in if c == sep then some ([], s) else cons_before c rest

abbrev pub equal_fold : Bytes → Bytes → Bool
equal_fold s t = bytes_eq (to_lower s) (to_lower t)

-- The value of a nonempty text of digits, read onto what stands before it.
unfoldable pub digits : Bytes → ℕ → Option ℕ
digits [] n = some n
digits (c ∷ s) n =
    let rest = digits s (n * 10 + (c - 48)) in if leb 48 c && leb c 57 then rest else none

abbrev in_range : Option ℕ → Option ℤ
in_range none = none
in_range (some n) = if ltb n (2 ^ 63) then some (pos n) else none

abbrev negative_of : ℕ → Option ℤ
negative_of zero = some (pos 0)
negative_of (suc n) = if ltb n (2 ^ 63) then some (negsuc n) else none

abbrev negated : Option ℕ → Option ℤ
negated none = none
negated (some n) = negative_of n

-- strconv.Atoi: a sign, and at least one digit.
unfoldable pub atoi : Bytes → Option ℤ
unfolding digits
atoi [] = none
atoi (c ∷ []) = if leb 48 c && leb c 57 then some (pos (c - 48)) else none
atoi (c ∷ d ∷ s) =
    if c == 45
    then negated (digits (d ∷ s) 0)
    else if c == 43
    then in_range (digits (d ∷ s) 0)
    else in_range (digits (c ∷ d ∷ s) 0)

-- The variables of the loop of `ParsePolicy`.
pub record Draft : Type 0 where
  pub policy : Policy
  pub seen_version : Bool

abbrev pub empty_draft : Draft
empty_draft = record {
  policy = record { version = []; mode = []; mx = []; max_age = pos 0 };
  seen_version = false;
}

abbrev pub set_max_age : Draft → Bytes → Option ℤ → PolicyError ⊎ Draft
set_max_age d val none = inl (invalid_max_age val)
set_max_age d val (some n) = inr (record d { policy = record d.policy { max_age = n } })

-- The `switch key` of `ParsePolicy`.
unfoldable pub set_key : Draft → Bytes → Bytes → PolicyError ⊎ Draft
set_key d key val =
    if bytes_eq key (codes "version")
    then inr (record d { policy = record d.policy { version = val }; seen_version = true })
    else if bytes_eq key (codes "mode")
    then inr (record d { policy = record d.policy { mode = to_lower val } })
    else if bytes_eq key (codes "mx")
    then (if is_empty val
        then inr d
        else inr
            (record d { policy = record d.policy { mx = d.policy.mx ++ (to_lower val ∷ []) } }))
    else if bytes_eq key (codes "max_age")
    then set_max_age d val (atoi val)
    else inr d

abbrev pub key_of : Bytes → Bytes
key_of raw = to_lower (trim_space raw)

abbrev pub cut_line : Draft → Bytes → Option (Bytes × Bytes) → PolicyError ⊎ Draft
cut_line d line none = inl (malformed_line line)
cut_line d line (some (key, val)) = set_key d (key_of key) (trim_space val)

unfoldable pub parse_line : Draft → Bytes → PolicyError ⊎ Draft
unfolding set_key cut
parse_line d raw =
    let line = trim_space raw in if is_empty line then inr d else cut_line d line (cut 58 line)

-- An error ends the loop.
unfoldable pub and_then : {A B : Type 0} → PolicyError ⊎ A → (A → PolicyError ⊎ B) → PolicyError ⊎ B
and_then (inl e) f = inl e
and_then (inr a) f = f a

-- The loop of `ParsePolicy`.
unfoldable pub parse_lines : Draft → List Bytes → PolicyError ⊎ Draft
unfolding parse_line and_then
parse_lines d [] = inr d
parse_lines d (raw ∷ raws) = and_then (parse_line d raw) (λ e. parse_lines e raws)

abbrev pub no_host : List Bytes → Bool
no_host [] = true
no_host (h ∷ hs) = false

-- The checks after the loop.
unfoldable pub validate : PolicyError ⊎ Draft → PolicyError ⊎ Policy
unfolding valid_mode
validate (inl e) = inl e
validate (inr d) =
    if not d.seen_version || not (equal_fold d.policy.version (codes "STSv1"))
    then inl (bad_version d.policy.version)
    else if not (valid_mode d.policy.mode)
    then inl (invalid_mode d.policy.mode)
    else if not (bytes_eq d.policy.mode (codes "none")) && no_host d.policy.mx
    then inl (no_mx_hosts d.policy.mode)
    else inr d.policy

abbrev pub lines_of : Bytes → List Bytes
lines_of body = split 10 (replace_crlf body)

unfoldable pub parse_policy : Bytes → PolicyError ⊎ Policy
unfolding parse_lines validate
parse_policy body = validate (parse_lines empty_draft (lines_of body))

abbrev pub set_tag : StsRecord → Option (Bytes × Bytes) → StsRecord
set_tag r none = r
set_tag r (some (key, val)) =
    if bytes_eq (key_of key) (codes "v")
    then record r { version = trim_space val }
    else if bytes_eq (key_of key) (codes "id")
    then record r { id = trim_space val }
    else r

-- The loop of `ParseTXT`.
unfoldable pub parse_tags : StsRecord → List Bytes → StsRecord
unfolding cut
parse_tags r [] = r
parse_tags r (part ∷ parts) =
    let trimmed = trim_space part in
    parse_tags (if is_empty trimmed then r else set_tag r (cut 61 trimmed)) parts

abbrev pub check_txt : StsRecord → TxtError ⊎ StsRecord
check_txt r =
    if equal_fold r.version (codes "STSv1")
    then (if is_empty r.id then inl missing_id else inr r)
    else inl (missing_version r.version)

unfoldable pub parse_txt : Bytes → TxtError ⊎ StsRecord
unfolding parse_tags
parse_txt txt = check_txt (parse_tags (record { version = []; id = [] }) (split 59 txt))
