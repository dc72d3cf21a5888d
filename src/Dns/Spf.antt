-- ===== src/Dns/Spf.antt =====
-- internal/dns/spf.go: the count of DNS lookups over the include and redirect chain of a record, the
-- `all` qualifier, and the findings of `evaluateSPF`. The resolver is a parameter: `none` is an error.
use mxsentinel.Prelude.{
  ℕ, zero, suc, ◌+◌, Bool, true, false, not, ◌||◌, Option, none, some, List, [], ◌∷◌, map, ltb,
  ◌==◌, if◌then◌else◌, select, any,
}
use mxsentinel.Prelude.Text.{
  trim_dot, Bytes, codes, bytes_eq, is_empty, to_lower, trim_space, has_prefix, is_space, grow,
}

abbrev pub Resolver : Type 0
Resolver = Bytes → Option (List Bytes)

-- `count, cycle, failed` and the map `visited`, of which only the keys matter.
pub record Lookups : Type 0 where
  pub count : ℕ
  pub cycle : Bool
  pub failed : Bool
  pub visited : List Bytes

unfoldable pub is_spf : Bytes → Bool
is_spf txt = has_prefix (codes "v=spf1") (to_lower (trim_space txt))

abbrev drop_empty : List Bytes → List Bytes
drop_empty ps = select (λ p. not (is_empty p)) ps

-- The pieces between white space, empty ones included.
unfoldable pub pieces : Bytes → List Bytes
pieces [] = [] ∷ []
pieces (c ∷ s) = let r = pieces s in if is_space c then [] ∷ r else grow c r

-- strings.Fields
unfoldable pub fields : Bytes → List Bytes
unfolding pieces
fields s = drop_empty (pieces s)

abbrev pub is_qualifier : ℕ → Bool
is_qualifier c = c == 43 || (c == 45 || (c == 126 || c == 63))

unfoldable pub strip_qualifier : Bytes → Bytes
strip_qualifier [] = []
strip_qualifier (c ∷ t) = if is_qualifier c then t else c ∷ t

-- What follows the first byte `sep`; the whole text where there is none, as after the index -1.
unfoldable pub after : ℕ → Bytes → Bytes
after sep s = find s
  where
    find : Bytes → Bytes
    find [] = s
    find (c ∷ t) = let r = find t in if c == sep then t else r

pub data Term : Type 0 where
  querying skipped : Term
  target : Bytes → Term

-- The `switch` of `spfLookups`, on a raw term.
unfoldable pub term_of : Bytes → Term
unfolding after strip_qualifier
term_of raw =
    let term = to_lower (strip_qualifier raw) in
    if bytes_eq term (codes "a") || (has_prefix (codes "a:") term || has_prefix (codes "a/") term)
    then querying
    else if bytes_eq term (codes "mx")
        || (has_prefix (codes "mx:") term || has_prefix (codes "mx/") term)
    then querying
    else if bytes_eq term (codes "ptr") || has_prefix (codes "ptr:") term
    then querying
    else if has_prefix (codes "exists:") term
    then querying
    else if has_prefix (codes "include:") term
    then target (after 58 raw)
    else if has_prefix (codes "redirect=") term
    then target (after 61 raw)
    else skipped

unfoldable pub first_spf : List Bytes → Option Bytes
unfolding is_spf
first_spf [] = none
first_spf (t ∷ ts) = if is_spf t then some t else first_spf ts

abbrev pub found : ℕ → Bool → Bool → List Bytes → Lookups
found n cycle failed visited = record {
  count = n;
  cycle = cycle;
  failed = failed;
  visited = visited;
}

abbrev pub of_record : (Bytes → List Bytes → Lookups) → Option Bytes → List Bytes → Lookups
of_record walk none visited = found 0 false false visited
of_record walk (some t) visited = walk t visited

abbrev pub of_answer : (Bytes → List Bytes → Lookups) → Option (List Bytes) → List Bytes → Lookups
of_answer walk none visited = found 0 false true visited
of_answer walk (some txts) visited = of_record walk (first_spf txts) visited

-- `resolveSPFTarget`; `walk` is `spfLookups` one level deeper, for a domain and its record.
unfoldable pub resolve_target :
    Resolver → (Bytes → Bytes → List Bytes → Lookups) → Bytes → List Bytes → Lookups
unfolding first_spf trim_dot
resolve_target r walk name visited =
    let name' = trim_dot name in
    if is_empty name' then found 0 false false visited else of_answer (walk name') (r name') visited

-- One term of the loop; `resolve` follows a target.
unfoldable pub add_term : (Bytes → List Bytes → Lookups) → Lookups → Term → Lookups
add_term resolve acc querying = record acc { count = acc.count + 1 }
add_term resolve acc skipped = acc
add_term resolve acc (target name) =
    let sub = resolve name acc.visited in
    found (acc.count + 1 + sub.count) (acc.cycle || sub.cycle) (acc.failed || sub.failed)
      sub.visited

-- The loop, which ends early once the count is above 100.
unfoldable pub add_terms : (Bytes → List Bytes → Lookups) → Lookups → List Term → Lookups
unfolding add_term
add_terms resolve acc [] = acc
add_terms resolve acc (t ∷ ts) =
    let acc' = add_term resolve acc t in
    let rest = add_terms resolve acc' ts in if ltb 100 acc'.count then acc' else rest

-- `left` is 12 less the depth: at depth 12, above the limit of 10 and one more, the walk ends.
unfoldable pub spf_lookups : Resolver → ℕ → Bytes → Bytes → List Bytes → Lookups
unfolding add_terms resolve_target term_of fields
spf_lookups r zero domain txt visited = found 0 true false visited
spf_lookups r (suc left) domain txt visited =
    if any (bytes_eq (to_lower domain)) visited
    then found 0 true false visited
    else add_terms (resolve_target r (spf_lookups r left))
        (found 0 false false (to_lower domain ∷ visited)) (map term_of (fields txt))
