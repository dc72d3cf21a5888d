-- ===== src/AlertRules/Firing.antt =====
-- What evaluations of cmd/alertd/main.go leave in the events of a tenant, and what they send.
use mxsentinel.Prelude.{
  ℕ, zero, suc, ◌≤◌, ◌≡◌, refl, sym, ap, ◌∙◌, ◌⊎◌, inl, inr, false, not, ◌||◌, Option, none, some,
  List, [], ◌∷◌, arith, String, str_eq, Bool-cases, length, take, any, All,
}
use mxsentinel.Prelude.Floats.{FloatOps}
use mathlib.Core.Path.{subst}
use mxsentinel.AlertRules.Rules.{AlertRule, Verdict, check_rule}
use mxsentinel.AlertRules.Evaluation.{
  NotificationChannel, AlertEvent, Cycle, is_open, open_by_rule, event_of, fire, fire_if,
  evaluate_rule, evaluate_rules, with_rules, evaluate_tenant,
}

-- The rules have different ids, as the primary key of their table has it.
abbrev pub DistinctIds : List AlertRule → Type 0
DistinctIds [] = Unit
DistinctIds (r ∷ rs) = All (λ s. str_eq r.id s.id ≡ false) rs × DistinctIds rs

take_all {ℓ} : {A : Type ℓ} (n : ℕ) (xs : List A) → length xs ≤ n → take n xs ≡ xs
take_all zero [] h = refl
take_all zero (x ∷ xs) h = absurd (omega arith)
take_all (suc n) [] h = refl
take_all (suc n) (x ∷ xs) h = ap (λ ys. x ∷ ys) (take_all n xs (omega arith))

module _ {F : Type 0} where
  -- No rule has two open events.
  abbrev pub IsSingle : List (AlertEvent F) → Type 0
  IsSingle [] = Unit
  IsSingle (e ∷ es) =
      ((is_open e.state ≡ false) ⊎ (open_by_rule es e.rule_id ≡ false)) × IsSingle es

  -- For the rules to come, the events say what they said when they were read.
  abbrev Agrees : List (AlertEvent F) → List (AlertEvent F) → List AlertRule → Type 0
  Agrees listed events rules = All (λ r. open_by_rule events r.id ≡ open_by_rule listed r.id) rules

  open_by_rule_other :
      (e : AlertEvent F) (es : List (AlertEvent F)) (id : String)
      → str_eq e.rule_id id ≡ false
      → open_by_rule (e ∷ es) id ≡ open_by_rule es id
  unfolding open_by_rule any
  open_by_rule_other e es id h = rw h refl

  Agrees-cons :
      (listed es : List (AlertEvent F)) (e : AlertEvent F) (rules : List AlertRule)
      → All (λ s. str_eq e.rule_id s.id ≡ false) rules
      → Agrees listed es rules
      → Agrees listed (e ∷ es) rules
  Agrees-cons listed es e [] d h = tt
  Agrees-cons listed es e (r ∷ rules) d h =
      (open_by_rule_other e es r.id d.0 ∙ h.0, Agrees-cons listed es e rules d.1 h.1)

module _ {F : Type 0} (fl : FloatOps F) (cycle : Cycle F)
    (channels : List NotificationChannel) where
  -- What one rule does: nothing, or a new firing event where none was listed.
  abbrev Step : List (AlertEvent F) → AlertRule → List (AlertEvent F) → List (AlertEvent F) → Type 0
  Step listed rule events events' =
      (events' ≡ events)
      ⊎ ((e : AlertEvent F) × (events' ≡ e ∷ events)
          × (e.rule_id ≡ rule.id)
          × (open_by_rule listed rule.id ≡ false))

  fire_if-Step :
      (listed : List (AlertEvent F)) (rule : AlertRule) (o : Option (Verdict F))
      (events : List (AlertEvent F))
      → open_by_rule listed rule.id ≡ false
      → Step listed rule events (fire_if cycle channels rule o events).0
  unfolding fire_if fire
  fire_if-Step listed rule none events h = inl refl
  fire_if-Step listed rule (some v) events h = elim (Bool-cases v.triggered) [
    | inl q ↦ elim (Bool-cases cycle.insert_fails) [
      | inl f ↦ inl (rw q rw f refl)
      | inr f ↦ inr (event_of rule v, rw q rw f refl, refl, h)
    ]
    | inr q ↦ inl (rw q refl)
  ]

  evaluate_rule-Step :
      (listed : List (AlertEvent F)) (rule : AlertRule) (events : List (AlertEvent F))
      → Step listed rule events (evaluate_rule fl cycle channels listed rule events).0
  unfolding evaluate_rule
  evaluate_rule-Step listed rule events =
      elim (Bool-cases (not rule.enabled || open_by_rule listed rule.id)) [
        | inl q ↦ inl (rw q refl)
        | inr q ↦
            rw q (fire_if-Step listed rule (check_rule fl cycle.answers rule) events (ground arith))
      ]

  evaluate_rules-IsSingle :
      (listed : List (AlertEvent F)) (rules : List AlertRule) (events : List (AlertEvent F))
      → DistinctIds rules
      → Agrees listed events rules
      → IsSingle events
      → IsSingle (evaluate_rules fl cycle channels listed rules events).0
  unfolding evaluate_rules
  evaluate_rules-IsSingle listed [] events d a s = s
  evaluate_rules-IsSingle listed (rule ∷ rules) events d a s =
      elim (evaluate_rule-Step listed rule events) [
        | inl e ↦ rw e (evaluate_rules-IsSingle listed rules events d.1 a.1 s)
        | inr (ev, e, i, n) ↦ rw e (
            evaluate_rules-IsSingle listed rules (ev ∷ events) d.1
              (Agrees-cons listed events ev rules
                (subst (λ id. All (λ t. str_eq id t.id ≡ false) rules) (sym i) d.0) a.1)
              (inr (ap (open_by_rule events) i ∙ a.0 ∙ n), s))
      ]

  evaluate_rules-length :
      (listed : List (AlertEvent F)) (rules : List AlertRule) (events : List (AlertEvent F))
      → length events ≤ length (evaluate_rules fl cycle channels listed rules events).0
  unfolding evaluate_rules
  evaluate_rules-length listed [] events = omega arith
  evaluate_rules-length listed (rule ∷ rules) events =
      elim (evaluate_rule-Step listed rule events) [
        | inl e ↦ rw e (evaluate_rules-length listed rules events)
        | inr (ev, e, i, n) ↦ rw e (omega (arith, evaluate_rules-length listed rules (ev ∷ events)))
      ]

abbrev HasDistinctIds : Option (List AlertRule) → Type 0
HasDistinctIds none = Unit
HasDistinctIds (some rules) = DistinctIds rules

Agrees-refl :
    {F : Type 0} (events : List (AlertEvent F)) (rules : List AlertRule)
    → Agrees events events rules
Agrees-refl events [] = tt
Agrees-refl events (r ∷ rules) = (refl, Agrees-refl events rules)

module _ {F : Type 0} (fl : FloatOps F) where
  with_rules-IsSingle :
      (cycle : Cycle F) (rules : Option (List AlertRule))
      (channels : Option (List NotificationChannel)) (events : List (AlertEvent F))
      → HasDistinctIds rules
      → length events ≤ 500
      → IsSingle events
      → IsSingle (with_rules fl cycle rules channels events).0
  unfolding evaluate_rules
  with_rules-IsSingle cycle none channels events d l s = s
  with_rules-IsSingle cycle (some rules) none events d l s = s
  with_rules-IsSingle cycle (some rules) (some channels) events d l s =
      elim (Bool-cases cycle.events_fail) [
        | inl q ↦ rw q s
        | inr q ↦ rw q rw (take_all 500 events l) (
            evaluate_rules-IsSingle fl cycle channels events rules events d
              (Agrees-refl events rules) s)
      ]

  with_rules-length :
      (cycle : Cycle F) (rules : Option (List AlertRule))
      (channels : Option (List NotificationChannel)) (events : List (AlertEvent F))
      → length events ≤ length (with_rules fl cycle rules channels events).0
  unfolding evaluate_rules
  with_rules-length cycle none channels events = omega arith
  with_rules-length cycle (some rules) none events = omega arith
  with_rules-length cycle (some rules) (some channels) events =
      elim (Bool-cases cycle.events_fail) [
        | inl q ↦ rw q (omega arith)
        | inr q ↦ rw q (evaluate_rules-length fl cycle channels (take 500 events) rules events)
      ]

  -- The evaluations of a tenant, one after the other.
  unfoldable pub run : List (Cycle F) → List (AlertEvent F) → List (AlertEvent F)
  run [] events = events
  run (c ∷ cs) events = run cs (evaluate_tenant fl c events).0

  run-length :
      (cs : List (Cycle F)) (events : List (AlertEvent F)) → length events ≤ length (run cs events)
  unfolding run evaluate_tenant
  run-length [] events = omega arith
  run-length (c ∷ cs) events = omega (
    arith,
    with_rules-length c c.rules c.channels events,
    run-length cs (evaluate_tenant fl c events).0,
  )

  run-IsSingle_from :
      (cs : List (Cycle F)) (events : List (AlertEvent F))
      → All (λ c. HasDistinctIds c.rules) cs
      → length (run cs events) ≤ 500
      → IsSingle events
      → IsSingle (run cs events)
  unfolding run evaluate_tenant
  run-IsSingle_from [] events d l s = s
  run-IsSingle_from (c ∷ cs) events d l s =
      run-IsSingle_from cs (evaluate_tenant fl c events).0 d.1 l (
        with_rules-IsSingle c c.rules c.channels events d.0
          (omega (
            arith,
            with_rules-length c c.rules c.channels events,
            run-length cs (evaluate_tenant fl c events).0,
          ))
          s)

  -- Whatever the stores answer in a sequence of evaluations, and whatever fails: as long as a tenant
  -- has at most 500 events, none of its rules has two open events.
  pub run-IsSingle :
      (cs : List (Cycle F))
      → All (λ c. HasDistinctIds c.rules) cs
      → length (run cs []) ≤ 500
      → IsSingle (run cs [])
  run-IsSingle cs d l = run-IsSingle_from cs [] d l tt
