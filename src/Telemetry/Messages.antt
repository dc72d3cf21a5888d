-- ===== src/Telemetry/Messages.antt =====
-- internal/telemetry/postfix.go on a log in which queue ids are used again: a message of an id is its
-- lines up to the line `removed`.
use mxsentinel.Prelude.{
  ℕ, ◌≡◌, refl, sym, ap, ◌∙◌, inl, inr, Bool, true, false, Option, none, some, List, [], ◌∷◌, ◌++◌,
  append_assoc, append-nil, if◌then◌else◌, Bool-cases, select, All, All-select,
}
use mxsentinel.Prelude.Text.{Bytes, codes, bytes_eq, bytes_eq→eq, contains}
use mxsentinel.Prelude.Assoc.{lookup, bytes_key, lookup-erase_self}
use mathlib.Core.Path.{subst}
use mxsentinel.Telemetry.Parser.{
  Matchers, Event, States, parse_kv, parse_tagged, tagged, parse, parse_all,
}
use mxsentinel.Telemetry.Apart.{is_about, is_tagged, own_lines, tagged_step, parse_all-alone}

abbrev is_removal : Option (Bytes × Bytes) → Bool
is_removal none = false
is_removal (some (qid, kv)) = bytes_eq kv (codes "removed")

-- A line before the first group of lines.
abbrev put_first {ℓ} : {A : Type ℓ} → A → List (List A) → List (List A)
put_first x [] = (x ∷ []) ∷ []
put_first x (g ∷ groups) = (x ∷ g) ∷ groups

module _ (m : Matchers) (relay_ip : Bytes) where
  -- The lines of one queue id, cut after each line `removed`.
  unfoldable pub messages : List Bytes → List (List Bytes)
  messages [] = []
  messages (l ∷ ls) =
      let rest = messages ls in
      if is_removal (tagged m l) then (l ∷ []) ∷ rest else put_first l rest

  -- The events of the messages, each parsed as if it stood alone.
  unfoldable pub each_alone : List (List Bytes) → List Event
  each_alone [] = []
  each_alone (g ∷ groups) = parse_all m relay_ip g [] ++ each_alone groups

  -- The first of the messages has begun.
  abbrev each_from : States → List (List Bytes) → List Event
  each_from states [] = []
  each_from states (g ∷ groups) = parse_all m relay_ip g states ++ each_alone groups

  each_from-nil : (groups : List (List Bytes)) → each_from [] groups ≡ each_alone groups
  unfolding each_alone
  each_from-nil [] = refl
  each_from-nil (g ∷ groups) = refl

  each_from-put_first :
      (l : Bytes) (groups : List (List Bytes)) (states : States)
      → let one = parse m relay_ip l states in
        each_from states (put_first l groups) ≡ one.1 ++ each_from one.0 groups
  unfolding parse_all each_alone
  each_from-put_first l [] states = append-nil _
  each_from-put_first l (g ∷ groups) states = append_assoc (parse m relay_ip l states).1 _ _

  removed_forgets :
      (qid : Bytes) (time : ℕ) (states : States)
      → lookup qid (parse_kv m relay_ip qid (codes "removed") time states).0 ≡ none
  unfolding parse_kv contains bytes_eq
  removed_forgets qid time states = lookup-erase_self qid states

  -- After `removed` nothing is known of the id.
  removal_forgets :
      (qid : Bytes) (t : Option (Bytes × Bytes)) (time : ℕ) (states : States)
      → is_tagged qid t ≡ true
      → is_removal t ≡ true
      → lookup qid (parse_tagged m relay_ip t time states).0 ≡ none
  removal_forgets qid none time states h r = absurd (cc)
  removal_forgets qid (some (j, kv)) time states h r =
      subst (λ i. lookup qid (parse_kv m relay_ip i kv time states).0 ≡ none)
        (sym (bytes_eq→eq j qid h))
        (subst (λ k. lookup qid (parse_kv m relay_ip qid k time states).0 ≡ none)
          (sym (bytes_eq→eq kv (codes "removed") r)) (removed_forgets qid time states))

  by_message :
      (qid : Bytes) (lines : List Bytes) (states states' : States)
      → All (λ l. is_tagged qid (tagged m l) ≡ true) lines
      → lookup qid states ≡ lookup qid states'
      → parse_all m relay_ip lines states ≡ each_from states' (messages lines)
  unfolding parse_all parse messages lookup
  by_message qid [] states states' own h = refl
  by_message qid (l ∷ lines) states states' own h =
      let t = tagged m l in
      let one = parse_tagged m relay_ip t (m.time l) states in
      let one' = parse_tagged m relay_ip t (m.time l) states' in
      elim (tagged_step m relay_ip qid t (m.time l) states states' h) [
        | inr s ↦ absurd (cc (s.0, own.0))
        | inl s ↦
            ap (λ es. es ++ parse_all m relay_ip lines one.0) s.1.1
            ∙ (elim (Bool-cases (is_removal t)) [
              | inl r ↦ rw r (
                  ap (λ es. one'.1 ++ es)
                    (by_message qid lines one.0 [] own.1
                        (removal_forgets qid t (m.time l) states own.0 r)
                      ∙ each_from-nil (messages lines))
                  ∙ ap (λ es. es ++ each_alone (messages lines)) (sym (append-nil one'.1)))
              | inr r ↦ rw r (
                  ap (λ es. one'.1 ++ es) (by_message qid lines one.0 one'.0 own.1 s.1.0)
                  ∙ sym (each_from-put_first l (messages lines) states'))
            ])
      ]

  -- The events about a queue id, in a log with any other lines between, are those of its messages,
  -- each parsed as if it stood alone, where a message is the lines of the id up to a line `removed`.
  -- So what is known of a message reaches no other id, and no later message of the id after that line.
  pub parse_all-messages :
      (qid : Bytes) (lines : List Bytes)
      → select (is_about qid) (parse_all m relay_ip lines [])
        ≡ each_alone (messages (own_lines m relay_ip qid lines))
  parse_all-messages qid lines =
      parse_all-alone m relay_ip qid lines
      ∙ (by_message qid (own_lines m relay_ip qid lines) [] [] (All-select _ lines) refl
          ∙ each_from-nil _)
