-- ===== src/MtaSts/Ignored.antt =====
-- The extensibility rule of internal/mtasts/policy.go: lines with unknown keys.
use mxsentinel.Prelude.{
  ◌≡◌, refl, sym, ap, ◌∙◌, ◌⊎◌, inl, inr, true, false, some, List, [], ◌∷◌, ◌++◌,
}
use mxsentinel.Prelude.Text.{Bytes, codes, bytes_eq, is_empty, trim_space}
use mxsentinel.MtaSts.Policy.{
  PolicyError, Draft, cut, key_of, set_key, parse_line, parse_lines, and_then, empty_draft,
  validate, lines_of, parse_policy,
}

-- A blank line, or one whose key is none of the four.
abbrev pub IsIgnored : Bytes → Type 0
IsIgnored raw =
    (is_empty (trim_space raw) ≡ true)
    ⊎ ((kv : Bytes × Bytes) × (is_empty (trim_space raw) ≡ false)
        × (cut 58 (trim_space raw) ≡ some kv)
        × (bytes_eq (key_of kv.0) (codes "version") ≡ false)
        × (bytes_eq (key_of kv.0) (codes "mode") ≡ false)
        × (bytes_eq (key_of kv.0) (codes "mx") ≡ false)
        × (bytes_eq (key_of kv.0) (codes "max_age") ≡ false))

parse_line_ignored : (d : Draft) (raw : Bytes) → IsIgnored raw → parse_line d raw ≡ inr d
unfolding parse_line set_key
parse_line_ignored d raw (inl q) = rw q refl
parse_line_ignored d raw (inr ((key, val), e, c, v, m, x, a)) = rw e rw c rw v rw m rw x rw a refl

and_then_same :
    {A B : Type 0} (r : PolicyError ⊎ A) (f g : A → PolicyError ⊎ B)
    → ((a : A) → f a ≡ g a)
    → and_then r f ≡ and_then r g
unfolding and_then
and_then_same (inl e) f g h = refl
and_then_same (inr a) f g h = h a

parse_lines_ignored :
    (d : Draft) (before after : List Bytes) (raw : Bytes)
    → IsIgnored raw
    → parse_lines d (before ++ (raw ∷ after)) ≡ parse_lines d (before ++ after)
unfolding parse_lines and_then
parse_lines_ignored d [] after raw h = rw (parse_line_ignored d raw h) refl
parse_lines_ignored d (b ∷ bs) after raw h =
    and_then_same (parse_line d b) _ _ (λ e. parse_lines_ignored e bs after raw h)

-- A policy file with one more line, which is blank or has an unknown key, parses to the same policy,
-- or fails with the same error.
pub parse_policy_ignored :
    (body body' : Bytes) (before after : List Bytes) (raw : Bytes)
    → lines_of body ≡ before ++ after
    → lines_of body' ≡ before ++ (raw ∷ after)
    → IsIgnored raw
    → parse_policy body' ≡ parse_policy body
unfolding parse_policy
parse_policy_ignored body body' before after raw e e' h =
    ap (λ l. validate (parse_lines empty_draft l)) e'
    ∙ ap validate (parse_lines_ignored empty_draft before after raw h)
    ∙ sym (ap (λ l. validate (parse_lines empty_draft l)) e)
