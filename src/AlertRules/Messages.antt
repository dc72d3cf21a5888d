-- ===== src/AlertRules/Messages.antt =====
-- What the messages of cmd/alertd/main.go rest on.
use mxsentinel.Prelude.{
  ◌≡◌, refl, ap, ◌∙◌, inl, inr, true, false, not, ◌||◌, Option, none, some, List, [], ◌∷◌, arith,
  String, str_eq, eq_refl, Bool-cases, take, any, All, All-append,
}
use mxsentinel.Prelude.Floats.{FloatOps}
use mxsentinel.Prelude.Assoc.{lookup, string_key}
use mxsentinel.AlertRules.Rules.{AlertRule, Verdict, check_rule}
use mxsentinel.AlertRules.Evaluation.{
  NotificationChannel, AlertEvent, Outgoing, Cycle, is_open, open_by_rule, outgoing_to, notify_all,
  notify, notify_with, notify_enabled, find_channel, event_of, fire, fire_if, evaluate_rule,
  evaluate_rules, with_rules, evaluate_tenant,
}

-- The messages are about one rule.
abbrev AreOf : String → List Outgoing → Type 0
AreOf id os = All (λ o. o.rule_id ≡ id) os

outgoing_to-AreOf :
    (rule : AlertRule) (ch : NotificationChannel) (url : Option String)
    → AreOf rule.id (outgoing_to rule ch url)
outgoing_to-AreOf rule ch none = tt
outgoing_to-AreOf rule ch (some url) = elim (Bool-cases (str_eq url "")) [
  | inl q ↦ rw q tt
  | inr q ↦ rw q (refl, tt)
]

notify_with-AreOf :
    (rule : AlertRule) (ch : NotificationChannel) (cfg : Option (List (String × String)))
    → AreOf rule.id (notify_with rule ch cfg)
unfolding notify_with
notify_with-AreOf rule ch none = tt
notify_with-AreOf rule ch (some cfg) = elim (Bool-cases (str_eq ch.kind "webhook")) [
  | inl q ↦ rw q (outgoing_to-AreOf rule ch (lookup "url" cfg))
  | inr q ↦ rw q (elim (Bool-cases (str_eq ch.kind "slack")) [
    | inl s ↦ rw s (outgoing_to-AreOf rule ch (lookup "webhook_url" cfg))
    | inr s ↦ rw s tt
  ])
]

notify_enabled-AreOf :
    (rule : AlertRule) (o : Option NotificationChannel) → AreOf rule.id (notify_enabled rule o)
unfolding notify
notify_enabled-AreOf rule none = tt
notify_enabled-AreOf rule (some ch) = elim (Bool-cases ch.enabled) [
  | inl q ↦ rw q (notify_with-AreOf rule ch ch.config)
  | inr q ↦ rw q tt
]

notify_all-AreOf :
    (channels : List NotificationChannel) (rule : AlertRule) (ids : List String)
    → AreOf rule.id (notify_all channels rule ids)
unfolding notify_all
notify_all-AreOf channels rule [] = tt
notify_all-AreOf channels rule (id ∷ ids) =
    All-append _ (notify_enabled rule (find_channel channels id)) (notify_all channels rule ids)
      (notify_enabled-AreOf rule (find_channel channels id)) (notify_all-AreOf channels rule ids)

module _ {F : Type 0} where
  -- The rule of a message is open afterwards and was not among the open ones that were read.
  abbrev pub IsFresh : List (AlertEvent F) → List (AlertEvent F) → Outgoing → Type 0
  IsFresh listed after o =
      (open_by_rule after o.rule_id ≡ true) × (open_by_rule listed o.rule_id ≡ false)

  AreOf-IsFresh :
      (listed after : List (AlertEvent F)) (id : String) (os : List Outgoing)
      → open_by_rule after id ≡ true
      → open_by_rule listed id ≡ false
      → AreOf id os
      → All (IsFresh listed after) os
  AreOf-IsFresh listed after id [] p q h = tt
  AreOf-IsFresh listed after id (o ∷ os) p q h = (
    (ap (open_by_rule after) h.0 ∙ p, ap (open_by_rule listed) h.0 ∙ q),
    AreOf-IsFresh listed after id os p q h.1,
  )

  open_by_rule_new :
      (rule : AlertRule) (v : Verdict F) (events : List (AlertEvent F))
      → open_by_rule (event_of rule v ∷ events) rule.id ≡ true
  unfolding open_by_rule any is_open
  open_by_rule_new rule v events = rw (eq_refl rule.id) refl

  open_by_rule_cons :
      (e : AlertEvent F) (events : List (AlertEvent F)) (id : String)
      → open_by_rule events id ≡ true
      → open_by_rule (e ∷ events) id ≡ true
  unfolding open_by_rule any
  open_by_rule_cons e events id h = ground arith

module _ {F : Type 0} (fl : FloatOps F) (cycle : Cycle F)
    (channels : List NotificationChannel) where
  fire_if-IsFresh :
      (listed : List (AlertEvent F)) (rule : AlertRule) (o : Option (Verdict F))
      (events : List (AlertEvent F))
      → open_by_rule listed rule.id ≡ false
      → let r = fire_if cycle channels rule o events in All (IsFresh listed r.0) r.1
  unfolding fire_if fire
  fire_if-IsFresh listed rule none events h = tt
  fire_if-IsFresh listed rule (some v) events h = elim (Bool-cases v.triggered) [
    | inl q ↦ elim (Bool-cases cycle.insert_fails) [
      | inl f ↦ rw q rw f tt
      | inr f ↦ rw q rw f (
          AreOf-IsFresh listed (event_of rule v ∷ events) rule.id
            (notify_all channels rule rule.channel_ids) (open_by_rule_new rule v events) h
            (notify_all-AreOf channels rule rule.channel_ids))
    ]
    | inr q ↦ rw q tt
  ]

  evaluate_rule-IsFresh :
      (listed : List (AlertEvent F)) (rule : AlertRule) (events : List (AlertEvent F))
      → let r = evaluate_rule fl cycle channels listed rule events in All (IsFresh listed r.0) r.1
  unfolding evaluate_rule
  evaluate_rule-IsFresh listed rule events =
      elim (Bool-cases (not rule.enabled || open_by_rule listed rule.id)) [
        | inl q ↦ rw q tt
        | inr q ↦
            rw q
              (fire_if-IsFresh listed rule (check_rule fl cycle.answers rule) events (ground arith))
      ]

  -- What is open stays open.
  fire_if_keeps :
      (rule : AlertRule) (o : Option (Verdict F)) (events : List (AlertEvent F)) (id : String)
      → open_by_rule events id ≡ true
      → open_by_rule (fire_if cycle channels rule o events).0 id ≡ true
  unfolding fire_if fire
  fire_if_keeps rule none events id h = h
  fire_if_keeps rule (some v) events id h =
      ground (arith, open_by_rule_cons (event_of rule v) events id)

  evaluate_rules_keeps :
      (listed : List (AlertEvent F)) (rules : List AlertRule) (events : List (AlertEvent F))
      (id : String)
      → open_by_rule events id ≡ true
      → open_by_rule (evaluate_rules fl cycle channels listed rules events).0 id ≡ true
  unfolding evaluate_rules evaluate_rule
  evaluate_rules_keeps listed [] events id h = h
  evaluate_rules_keeps listed (rule ∷ rules) events id h =
      evaluate_rules_keeps listed rules (evaluate_rule fl cycle channels listed rule events).0 id
        (elim (Bool-cases (not rule.enabled || open_by_rule listed rule.id)) [
          | inl q ↦ rw q h
          | inr q ↦ rw q (fire_if_keeps rule (check_rule fl cycle.answers rule) events id h)
        ])

  All-IsFresh :
      (listed mid : List (AlertEvent F)) (rules : List AlertRule) (os : List Outgoing)
      → All (IsFresh listed mid) os
      → All (IsFresh listed (evaluate_rules fl cycle channels listed rules mid).0) os
  All-IsFresh listed mid rules [] h = tt
  All-IsFresh listed mid rules (o ∷ os) h = (
    (evaluate_rules_keeps listed rules mid o.rule_id h.0.0, h.0.1),
    All-IsFresh listed mid rules os h.1,
  )

  evaluate_rules-IsFresh :
      (listed : List (AlertEvent F)) (rules : List AlertRule) (events : List (AlertEvent F))
      → let r = evaluate_rules fl cycle channels listed rules events in All (IsFresh listed r.0) r.1
  unfolding evaluate_rules
  evaluate_rules-IsFresh listed [] events = tt
  evaluate_rules-IsFresh listed (rule ∷ rules) events =
      let one = evaluate_rule fl cycle channels listed rule events in
      All-append _ one.1 (evaluate_rules fl cycle channels listed rules one.0).1
        (All-IsFresh listed one.0 rules one.1 (evaluate_rule-IsFresh listed rule events))
        (evaluate_rules-IsFresh listed rules one.0)

module _ {F : Type 0} (fl : FloatOps F) where
  with_rules-IsFresh :
      (cycle : Cycle F) (rules : Option (List AlertRule))
      (channels : Option (List NotificationChannel)) (events : List (AlertEvent F))
      → let r = with_rules fl cycle rules channels events in All (IsFresh (take 500 events) r.0) r.1
  unfolding evaluate_rules
  with_rules-IsFresh cycle none channels events = tt
  with_rules-IsFresh cycle (some rules) none events = tt
  with_rules-IsFresh cycle (some rules) (some channels) events =
      elim (Bool-cases cycle.events_fail) [
        | inl q ↦ rw q tt
        | inr q ↦ rw q (evaluate_rules-IsFresh fl cycle channels (take 500 events) rules events)
      ]

  -- Each message of an evaluation, whatever fails in it, is about a rule that has an open event stored
  -- afterwards and had none among the 500 newest events before: nobody is told of an
  -- alert that was not stored, or is told twice of an alert that the evaluation could see.
  pub evaluate_tenant-IsFresh :
      (cycle : Cycle F) (events : List (AlertEvent F))
      → let r = evaluate_tenant fl cycle events in All (IsFresh (take 500 events) r.0) r.1
  unfolding evaluate_tenant
  evaluate_tenant-IsFresh cycle events = with_rules-IsFresh cycle cycle.rules cycle.channels events
