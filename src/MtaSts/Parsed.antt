-- ===== src/MtaSts/Parsed.antt =====
-- What the parsers of internal/mtasts/policy.go accept and return.
use mxsentinel.Prelude.{
  ◌≡◌, refl, sym, ap, ◌∙◌, ◌⊎◌, inl, inr, true, false, not, ◌&&◌, Option, none, some, List, [], ◌∷◌,
  ◌++◌, append_assoc, append-nil, arith, if◌then◌else◌, Bool-cases,
}
use mxsentinel.Prelude.Text.{Bytes, codes, bytes_eq, bytes_eq→eq, is_empty, to_lower, trim_space}
use mathlib.Core.Path.{subst}
use mxsentinel.MtaSts.Policy.{
  Policy, PolicyError, Draft, ℤ, valid_mode, cut, cut_line, key_of, set_key, parse_line,
  parse_lines, and_then, set_max_age, no_host, empty_draft, atoi, validate, lines_of, parse_policy,
  equal_fold,
}

-- The host of an `mx` line, and nothing for any other line.
abbrev host_in : Option (Bytes × Bytes) → List Bytes
host_in none = []
host_in (some (key, val)) =
    if bytes_eq (key_of key) (codes "mx") && not (is_empty (trim_space val))
    then to_lower (trim_space val) ∷ []
    else []

-- The hosts that the `mx` lines list, in their order.
unfoldable pub hosts : List Bytes → List Bytes
hosts [] = []
hosts (raw ∷ raws) =
    (if is_empty (trim_space raw) then [] else host_in (cut 58 (trim_space raw))) ++ hosts raws

and_then-inr :
    {A B : Type 0} (r : PolicyError ⊎ A) (f : A → PolicyError ⊎ B) (b : B)
    → and_then r f ≡ inr b
    → (a : A) × (r ≡ inr a) × (f a ≡ inr b)
unfolding and_then
and_then-inr (inl x) f b h = absurd (cc)
and_then-inr (inr a) f b h = (a, refl, h)

set_max_age-mx :
    (d e : Draft) (val : Bytes) (n : Option ℤ)
    → set_max_age d val n ≡ inr e
    → e.policy.mx ≡ d.policy.mx
set_max_age-mx d e val none h = absurd (cc)
set_max_age-mx d e val (some n) h = cc

mx_key :
    (d e : Draft) (val : Bytes)
    → set_key d (codes "mx") val ≡ inr e
    → e.policy.mx ≡ d.policy.mx ++ (if not (is_empty val) then to_lower val ∷ [] else [])
unfolding set_key bytes_eq
mx_key d e val h = ground (arith, append-nil d.policy.mx)

other_key :
    (d e : Draft) (key val : Bytes)
    → bytes_eq key (codes "mx") ≡ false
    → set_key d key val ≡ inr e
    → e.policy.mx ≡ d.policy.mx
unfolding set_key
other_key d e key val q h = ground (arith, set_max_age-mx d e val (atoi val))

set_key-mx :
    (d e : Draft) (key val : Bytes)
    → set_key d key val ≡ inr e
    → e.policy.mx
      ≡ d.policy.mx
        ++ (if bytes_eq key (codes "mx") && not (is_empty val) then to_lower val ∷ [] else [])
set_key-mx d e key val h = elim (Bool-cases (bytes_eq key (codes "mx"))) [
  | inl q ↦
      rw q
        (mx_key d e val (subst (λ j. set_key d j val ≡ inr e) (bytes_eq→eq key (codes "mx") q) h))
  | inr q ↦ rw q (other_key d e key val q h ∙ sym (append-nil d.policy.mx))
]

cut_line-mx :
    (d e : Draft) (line : Bytes) (o : Option (Bytes × Bytes))
    → cut_line d line o ≡ inr e
    → e.policy.mx ≡ d.policy.mx ++ host_in o
cut_line-mx d e line none h = absurd (cc)
cut_line-mx d e line (some (key, val)) h = set_key-mx d e (key_of key) (trim_space val) h

parse_line-mx :
    (d e : Draft) (raw : Bytes)
    → parse_line d raw ≡ inr e
    → e.policy.mx
      ≡ d.policy.mx ++ (if is_empty (trim_space raw) then [] else host_in (cut 58 (trim_space raw)))
unfolding parse_line
parse_line-mx d e raw h = elim (Bool-cases (is_empty (trim_space raw))) [
  | inl q ↦ ground (arith, append-nil d.policy.mx)
  | inr q ↦ ground (arith, cut_line-mx d e (trim_space raw) (cut 58 (trim_space raw)))
]

parse_lines-mx :
    (d e : Draft) (raws : List Bytes)
    → parse_lines d raws ≡ inr e
    → e.policy.mx ≡ d.policy.mx ++ hosts raws
unfolding parse_lines hosts
parse_lines-mx d e [] h = ground (arith, append-nil d.policy.mx)
parse_lines-mx d e (raw ∷ raws) h =
    let (d', p, q) = and_then-inr (parse_line d raw) (λ x. parse_lines x raws) e h in
    parse_lines-mx d' e raws q
    ∙ ap (λ l. l ++ hosts raws) (parse_line-mx d d' raw p)
    ∙ append_assoc d.policy.mx _ (hosts raws)

-- What a consumer of a policy relies on.
abbrev pub IsUsable : Policy → Type 0
IsUsable p =
    (equal_fold p.version (codes "STSv1") ≡ true)
    × (valid_mode p.mode ≡ true)
    × ((bytes_eq p.mode (codes "none") ≡ true) ⊎ (no_host p.mx ≡ false))

validate_policy : (d : Draft) (p : Policy) → validate (inr d) ≡ inr p → p ≡ d.policy
unfolding validate
validate_policy d p h = ground arith

IsUsable-draft : (d : Draft) (p : Policy) → validate (inr d) ≡ inr p → IsUsable d.policy
unfolding validate valid_mode
IsUsable-draft d p h = ground arith

validate-IsUsable :
    (d : Draft) (p : Policy) → validate (inr d) ≡ inr p → IsUsable p × (p ≡ d.policy)
validate-IsUsable d p h =
    (subst IsUsable (sym (validate_policy d p h)) (IsUsable-draft d p h), validate_policy d p h)

validate-inr :
    (r : PolicyError ⊎ Draft) (p : Policy)
    → validate r ≡ inr p
    → (d : Draft) × (r ≡ inr d) × (validate (inr d) ≡ inr p)
unfolding validate
validate-inr (inl e) p h = absurd (cc)
validate-inr (inr d) p h = (d, refl, h)

-- A body that is accepted gives a usable policy: the version is STSv1 in any case of letters, the mode
-- is a known one, and there is a host unless the mode is `none`; the hosts are the lower-cased values
-- of the `mx` lines that have a value, all of them, in order.
pub parse_policy-IsUsable :
    (body : Bytes) (p : Policy)
    → parse_policy body ≡ inr p
    → IsUsable p × (p.mx ≡ hosts (lines_of body))
unfolding parse_policy
parse_policy-IsUsable body p h =
    let (d, e, v) = validate-inr (parse_lines empty_draft (lines_of body)) p h in
    let (u, s) = validate-IsUsable d p v in
    (u, ap (λ x. x.mx) s ∙ parse_lines-mx empty_draft d (lines_of body) e)
