-- ===== src/Dns/Visits.antt =====
-- Why the walk over SPF records of internal/dns/spf.go ends: it enters no domain twice.
use mxsentinel.Prelude.{
  ℕ, zero, suc, ◌≡◌, inl, inr, false, Option, none, some, List, [], ◌∷◌, map, ltb, Bool-cases, any,
}
use mxsentinel.Prelude.Text.{Bytes, bytes_eq, is_empty, to_lower, trim_dot}
use mxsentinel.Dns.Spf.{
  Resolver, Lookups, Term, querying, skipped, target, found, first_spf, of_record, of_answer,
  term_of, fields, resolve_target, add_term, add_terms, spf_lookups,
}

-- The domains are all different.
abbrev pub Distinct : List Bytes → Type 0
Distinct [] = Unit
Distinct (d ∷ ds) = (any (bytes_eq d) ds ≡ false) × Distinct ds

-- A walk keeps them so.
abbrev IsSafe : (Bytes → List Bytes → Lookups) → Type 0
IsSafe walk =
    (d : Bytes) (visited : List Bytes) → Distinct visited → Distinct (walk d visited).visited

of_record-Distinct :
    (walk : Bytes → List Bytes → Lookups)
    → IsSafe walk
    → (o : Option Bytes) (visited : List Bytes) → Distinct visited
    → Distinct (of_record walk o visited).visited
of_record-Distinct walk w none visited h = h
of_record-Distinct walk w (some t) visited h = w t visited h

of_answer-Distinct :
    (walk : Bytes → List Bytes → Lookups)
    → IsSafe walk
    → (o : Option (List Bytes)) (visited : List Bytes) → Distinct visited
    → Distinct (of_answer walk o visited).visited
of_answer-Distinct walk w none visited h = h
of_answer-Distinct walk w (some txts) visited h =
    of_record-Distinct walk w (first_spf txts) visited h

resolve_target-IsSafe :
    (r : Resolver) (walk : Bytes → Bytes → List Bytes → Lookups)
    → ((d : Bytes) → IsSafe (walk d))
    → IsSafe (resolve_target r walk)
unfolding resolve_target
resolve_target-IsSafe r walk w name visited h = elim (Bool-cases (is_empty (trim_dot name))) [
  | inl e ↦ rw e h
  | inr e ↦
      rw e (
        of_answer-Distinct (walk (trim_dot name)) (w (trim_dot name)) (r (trim_dot name)) visited h)
]

add_term-Distinct :
    (resolve : Bytes → List Bytes → Lookups)
    → IsSafe resolve
    → (acc : Lookups) (t : Term) → Distinct acc.visited
    → Distinct (add_term resolve acc t).visited
unfolding add_term
add_term-Distinct resolve w acc querying h = h
add_term-Distinct resolve w acc skipped h = h
add_term-Distinct resolve w acc (target name) h = w name acc.visited h

add_terms-Distinct :
    (resolve : Bytes → List Bytes → Lookups)
    → IsSafe resolve
    → (acc : Lookups) (ts : List Term) → Distinct acc.visited
    → Distinct (add_terms resolve acc ts).visited
unfolding add_terms
add_terms-Distinct resolve w acc [] h = h
add_terms-Distinct resolve w acc (t ∷ ts) h =
    let acc' = add_term resolve acc t in
    let h' = add_term-Distinct resolve w acc t h in
    elim (Bool-cases (ltb 100 acc'.count)) [
      | inl e ↦ rw e h'
      | inr e ↦ rw e (add_terms-Distinct resolve w acc' ts h')
    ]

-- The walk enters a domain once at most, however the records include each other: the domains that it
-- has entered, letters in lower case, are different at its end when they were at its start.
pub spf_lookups-Distinct :
    (r : Resolver) (left : ℕ) (domain txt : Bytes) (visited : List Bytes)
    → Distinct visited
    → Distinct (spf_lookups r left domain txt visited).visited
unfolding spf_lookups
spf_lookups-Distinct r zero domain txt visited h = h
spf_lookups-Distinct r (suc left) domain txt visited h =
    elim (Bool-cases (any (bytes_eq (to_lower domain)) visited)) [
      | inl e ↦ rw e h
      | inr e ↦ rw e (
          add_terms-Distinct (resolve_target r (spf_lookups r left))
            (resolve_target-IsSafe r (spf_lookups r left)
              (λ d t v k. spf_lookups-Distinct r left d t v k))
            (found 0 false false (to_lower domain ∷ visited)) (map term_of (fields txt)) (e, h))
    ]
