-- ===== src/Dns/Lookups.antt =====
-- What the lookup count of internal/dns/spf.go says of a record.
use mxsentinel.Prelude.{
  ℕ, zero, suc, ◌+◌, ◌≤◌, ◌<◌, ◌≡◌, refl, ap, ◌∙◌, inl, inr, true, false, some, List, [], ◌∷◌, ◌++◌,
  map, arith, ltb, leb, if◌then◌else◌, Bool-cases, any, All,
}
use mxsentinel.Prelude.Text.{trim_dot, Bytes, bytes_eq, bytes_eq_refl, is_empty, to_lower}
use mxsentinel.Dns.Spf.{
  Resolver, Lookups, Term, querying, skipped, target, found, first_spf, term_of, fields,
  resolve_target, add_term, add_terms, spf_lookups,
}

-- Terms that follow no other record.
abbrev pub IsLocal : Term → Type 0
IsLocal querying = Unit
IsLocal skipped = Unit
IsLocal (target name) = ⊥

unfoldable pub queries : List Term → ℕ
queries [] = 0
queries (querying ∷ ts) = suc (queries ts)
queries (skipped ∷ ts) = queries ts
queries (target name ∷ ts) = queries ts

abbrev cap : ℕ → ℕ
cap n = if leb n 101 then n else 101

-- The walk over terms that follow no other record: a sum, cut off at 101.
add_terms-queries :
    (resolve : Bytes → List Bytes → Lookups) (acc : Lookups) (ts : List Term)
    → All IsLocal ts
    → acc.count ≤ 100
    → ((add_terms resolve acc ts).count ≡ cap (acc.count + queries ts))
      × ((add_terms resolve acc ts).cycle ≡ acc.cycle)
      × ((add_terms resolve acc ts).failed ≡ acc.failed)
unfolding add_terms add_term queries
add_terms-queries resolve acc [] h p = ground arith
add_terms-queries resolve acc (querying ∷ ts) h p = elim (Bool-cases (ltb 100 (acc.count + 1))) [
  | inl q ↦ ground arith
  | inr q ↦ ground (arith, add_terms-queries resolve (record acc { count = acc.count + 1 }) ts h.1)
]
add_terms-queries resolve acc (skipped ∷ ts) h p =
    ground (arith, add_terms-queries resolve acc ts h.1 p)
add_terms-queries resolve acc (target name ∷ ts) h p = absurd h.0

spf_lookups_fresh :
    (r : Resolver) (left : ℕ) (domain txt : Bytes) (visited : List Bytes)
    → any (bytes_eq (to_lower domain)) visited ≡ false
    → spf_lookups r (suc left) domain txt visited
      ≡ add_terms
          (resolve_target r (spf_lookups r left))
          (found 0 false false (to_lower domain ∷ visited))
          (map term_of (fields txt))
unfolding spf_lookups
spf_lookups_fresh r left domain txt visited v = rw v refl

-- A record that includes and redirects to no other, of a domain that the walk has not seen, above
-- the end of the depth: its lookups are its querying terms, exactly up to 101, with no loop and no
-- failure.
pub spf_lookups-queries :
    (r : Resolver) (left : ℕ) (domain txt : Bytes) (visited : List Bytes)
    → 0 < left
    → any (bytes_eq (to_lower domain)) visited ≡ false
    → All IsLocal (map term_of (fields txt))
    → ((spf_lookups r left domain txt visited).count ≡ cap (queries (map term_of (fields txt))))
      × ((spf_lookups r left domain txt visited).cycle ≡ false)
      × ((spf_lookups r left domain txt visited).failed ≡ false)
spf_lookups-queries r zero domain txt visited p v h = absurd (ground arith)
spf_lookups-queries r (suc left) domain txt visited p v h = ground (
  arith,
  spf_lookups_fresh r left domain txt visited v,
  add_terms-queries (resolve_target r (spf_lookups r left))
      (found 0 false false (to_lower domain ∷ visited)) (map term_of (fields txt)) h (omega arith),
)

-- Once found, a loop stays found.
add_terms-cycle :
    (resolve : Bytes → List Bytes → Lookups) (acc : Lookups) (ts : List Term)
    → acc.cycle ≡ true
    → (add_terms resolve acc ts).cycle ≡ true
unfolding add_terms add_term
add_terms-cycle resolve acc [] h = h
add_terms-cycle resolve acc (querying ∷ ts) h =
    ground (arith, add_terms-cycle resolve (record acc { count = acc.count + 1 }) ts h)
add_terms-cycle resolve acc (skipped ∷ ts) h = ground (arith, add_terms-cycle resolve acc ts h)
add_terms-cycle resolve acc (target name ∷ ts) h =
    ground (arith, add_terms-cycle resolve (add_term resolve acc (target name)) ts)

-- A target that leads back is found after local terms.
add_terms-target :
    (resolve : Bytes → List Bytes → Lookups) (acc : Lookups) (before after : List Term)
    (name : Bytes)
    → All IsLocal before
    → acc.count + queries before ≤ 100
    → (resolve name acc.visited).cycle ≡ true
    → (add_terms resolve acc (before ++ (target name ∷ after))).cycle ≡ true
unfolding add_terms add_term queries
add_terms-target resolve acc [] after name h p c =
    ground (arith, add_terms-cycle resolve (add_term resolve acc (target name)) after)
add_terms-target resolve acc (querying ∷ before) after name h p c =
    ground
      (arith, add_terms-target resolve (record acc { count = acc.count + 1 }) before after name h.1)
add_terms-target resolve acc (skipped ∷ before) after name h p c =
    ground (arith, add_terms-target resolve acc before after name h.1)
add_terms-target resolve acc (target n ∷ before) after name h p c = absurd h.0

back_to :
    (r : Resolver) (left : ℕ) (name txt : Bytes) (visited : List Bytes)
    → any (bytes_eq (to_lower name)) visited ≡ true
    → (spf_lookups r left name txt visited).cycle ≡ true
unfolding spf_lookups
back_to r zero name txt visited h = refl
back_to r (suc left) name txt visited h = rw h refl

back_at_end :
    (r : Resolver) (domain txt : Bytes) (visited : List Bytes)
    → (spf_lookups r 0 domain txt visited).cycle ≡ true
unfolding spf_lookups
back_at_end r domain txt visited = refl

seen_first :
    (domain : Bytes) (visited : List Bytes) (name : Bytes)
    → to_lower name ≡ to_lower domain
    → any (bytes_eq (to_lower name)) (to_lower domain ∷ visited) ≡ true
unfolding any
seen_first domain visited name d = rw d rw (bytes_eq_refl (to_lower domain)) refl

resolve_back :
    (r : Resolver) (walk : Bytes → Bytes → List Bytes → Lookups) (name domain : Bytes)
    (visited : List Bytes) (txts : List Bytes) (t : Bytes)
    → is_empty (trim_dot name) ≡ false
    → r (trim_dot name) ≡ some txts
    → first_spf txts ≡ some t
    → (walk (trim_dot name) t (to_lower domain ∷ visited)).cycle ≡ true
    → (resolve_target r walk name (to_lower domain ∷ visited)).cycle ≡ true
unfolding resolve_target
resolve_back r walk name domain visited txts t n a f h = rw n rw a rw f h

-- A record that includes or redirects to its own domain (in any case of letters, with or without the
-- dot at the end), where the domain resolves to an SPF record and at most a hundred querying terms
-- and no other target come before, is reported as a loop, at every depth.
pub spf_lookups_self :
    (r : Resolver) (left : ℕ) (domain txt name : Bytes) (visited : List Bytes)
    (before after : List Term) (txts : List Bytes) (t : Bytes)
    → map term_of (fields txt) ≡ before ++ (target name ∷ after)
    → All IsLocal before
    → queries before ≤ 100
    → is_empty (trim_dot name) ≡ false
    → to_lower (trim_dot name) ≡ to_lower domain
    → r (trim_dot name) ≡ some txts
    → first_spf txts ≡ some t
    → (spf_lookups r left domain txt visited).cycle ≡ true
spf_lookups_self r zero domain txt name visited before after txts t e l q n d a f =
    back_at_end r domain txt visited
spf_lookups_self r (suc left) domain txt name visited before after txts t e l q n d a f =
    elim (Bool-cases (any (bytes_eq (to_lower domain)) visited)) [
      | inl v ↦ back_to r (suc left) domain txt visited v
      | inr v ↦
          ap (λ w. w.cycle) (spf_lookups_fresh r left domain txt visited v)
          ∙ ap
              (λ ts.
                (add_terms (resolve_target r (spf_lookups r left))
                  (found 0 false false (to_lower domain ∷ visited)) ts).cycle)
              e
          ∙ add_terms-target (resolve_target r (spf_lookups r left))
              (found 0 false false (to_lower domain ∷ visited)) before after name l (omega arith)
              (resolve_back r (spf_lookups r left) name domain visited txts t n a f (
                back_to r left (trim_dot name) t (to_lower domain ∷ visited)
                  (seen_first domain visited (trim_dot name) d)))
    ]
