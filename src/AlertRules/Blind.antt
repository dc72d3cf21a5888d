-- ===== src/AlertRules/Blind.antt =====
-- cmd/alertd/main.go on the incidents that cmd/incidentd/main.go stores: the kinds that the rule on
-- blacklists looks for are not among the kinds that an incident can have.
use mxsentinel.Prelude.{
  ℕ, zero, suc, ◌≡◌, refl, sym, inl, inr, Bool, true, false, Option, none, some, List, [], ◌∷◌, map,
  arith, String, str_eq, eq_iff, ||-cases, length, take, select, All, All-select_keep,
}
use mathlib.Core.Path.{subst}
use mxsentinel.Prelude.Floats.{FloatOps}
use mxsentinel.Incidents.Mapping.{Envelope, IncidentInput, from_envelope}
use mxsentinel.Incidents.Storing.{is_kind, insert_incident, store, on_event}
use mxsentinel.Incidents.Once.{deliver}
use mxsentinel.AlertRules.Rules.{
  Answers, Verdict, is_blacklist_kind, on_answer, blacklist_verdict, check_blacklist_hit,
}

is_literal :
    (k l : String) → is_blacklist_kind l ≡ false → str_eq k l ≡ true → is_blacklist_kind k ≡ false
is_literal k l h q = subst (λ j. is_blacklist_kind j ≡ false) (sym ((eq_iff k l).0 q)) h

other_kind : (k : String) → is_kind k ≡ true → is_blacklist_kind k ≡ false
unfolding is_kind is_blacklist_kind
other_kind k h = elim (||-cases _ _ h) [
  | inl q ↦ is_literal k "rejection_spike" refl q
  | inr h' ↦ elim (||-cases _ _ h') [
    | inl q ↦ is_literal k "blacklist" refl q
    | inr h'' ↦ elim (||-cases _ _ h'') [
      | inl q ↦ is_literal k "dns_validation" refl q
      | inr q ↦ is_literal k "other" refl q
    ]
  ]
]

module _ {F : Type 0} where
  abbrev HaveKinds : List (IncidentInput F) → Type 0
  HaveKinds rows = All (λ i. is_kind i.kind ≡ true) rows

  store-HaveKinds :
      (db_fails : Bool) (rows : List (IncidentInput F)) (o : Option (IncidentInput F))
      → HaveKinds rows
      → HaveKinds (store db_fails rows o).0
  unfolding insert_incident
  store-HaveKinds db_fails rows none h = h
  store-HaveKinds db_fails rows (some i) h = ground arith

  deliver-HaveKinds :
      (ds : List (Bool × Envelope F)) (rows : List (IncidentInput F))
      → HaveKinds rows
      → HaveKinds (deliver ds rows)
  unfolding deliver on_event
  deliver-HaveKinds [] rows h = h
  deliver-HaveKinds ((db_fails, ev) ∷ ds) rows h =
      deliver-HaveKinds ds (store db_fails rows (from_envelope ev)).0
        (store-HaveKinds db_fails rows (from_envelope ev) h)

  -- `ListIncidents`: the kinds of the newest rows that are listed, those of a tenant that are open.
  unfoldable pub listed_kinds : (IncidentInput F → Bool) → ℕ → List (IncidentInput F) → List String
  listed_kinds listed limit rows = map (λ i. i.kind) (take limit (select listed rows))

  All-take :
      (P : IncidentInput F → Type 0) (n : ℕ) (xs : List (IncidentInput F))
      → All P xs
      → All P (take n xs)
  All-take P zero xs h = tt
  All-take P (suc n) [] h = tt
  All-take P (suc n) (x ∷ xs) h = (h.0, All-take P n xs h.1)

  none_listed :
      (rows : List (IncidentInput F))
      → HaveKinds rows
      → length (select is_blacklist_kind (map (λ i. i.kind) rows)) ≡ 0
  unfolding select
  none_listed [] h = refl
  none_listed (i ∷ rows) h = rw (other_kind i.kind h.0) (none_listed rows h.1)

quiet_verdict :
    {F : Type 0} (fl : FloatOps F) (threshold : F) (kinds : List String) (v : Verdict F)
    → length (select is_blacklist_kind kinds) ≡ 0
    → blacklist_verdict fl threshold kinds ≡ some v
    → v.triggered ≡ false
unfolding blacklist_verdict
quiet_verdict fl threshold kinds v n h = ground arith

quiet_answer :
    {F : Type 0} (fl : FloatOps F) (threshold : F) (o : Option (List String)) (kinds : List String)
    (v : Verdict F)
    → o ≡ some kinds
    → length (select is_blacklist_kind kinds) ≡ 0
    → on_answer o (blacklist_verdict fl threshold) ≡ some v
    → v.triggered ≡ false
quiet_answer fl threshold none kinds v e n h = absurd (cc)
quiet_answer fl threshold (some ks) kinds v e n h =
    let same : ks ≡ kinds = cc in
    quiet_verdict fl threshold kinds v n
      (subst (λ l. blacklist_verdict fl threshold l ≡ some v) same h)

-- Whatever incidents are stored, listings on blacklists among them, and whichever of them are open
-- and belong to the tenant: the rule on blacklists never triggers.
pub check_blacklist_hit_never :
    {F : Type 0} (fl : FloatOps F) (w : Answers F) (threshold : F) (ds : List (Bool × Envelope F))
    (listed : IncidentInput F → Bool) (v : Verdict F)
    → w.open_incident_kinds ≡ some (listed_kinds listed 100 (deliver ds []))
    → check_blacklist_hit fl w threshold ≡ some v
    → v.triggered ≡ false
unfolding check_blacklist_hit listed_kinds
check_blacklist_hit_never fl w threshold ds listed v e h =
    quiet_answer fl threshold w.open_incident_kinds (listed_kinds listed 100 (deliver ds [])) v e
      (none_listed (take 100 (select listed (deliver ds []))) (
        All-take _ 100 (select listed (deliver ds []))
          (All-select_keep listed _ (deliver ds []) (deliver-HaveKinds ds [] tt))))
      h
