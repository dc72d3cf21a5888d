-- ===== src/AlertRules/Evaluation.antt =====
-- cmd/alertd/main.go: `evaluateTenant`, `fire` and `notify`, with the events of one tenant in
-- internal/store/postgres/alerts.go, the newest first.
use mxsentinel.Prelude.{
  Bool, not, ◌&&◌, ◌||◌, Option, none, some, List, [], ◌∷◌, ◌++◌, String, str_eq, if◌then◌else◌,
  take, any,
}
use mxsentinel.Prelude.Floats.{FloatOps}
use mxsentinel.Prelude.Assoc.{lookup, string_key}
use mxsentinel.AlertRules.Rules.{AlertRule, Answers, Verdict, check_rule}

-- The fields of the rows that an evaluation reads.
pub record NotificationChannel : Type 0 where
  pub id : String
  pub kind : String
  -- the decoded config, `none` where it is no JSON object of strings
  pub config : Option (List (String × String))
  pub enabled : Bool

pub record AlertEvent (F : Type 0) : Type 0 where
  pub rule_id : String
  pub state : String
  pub signal : String
  pub triggered_value : F
  pub threshold : F

-- A message that goes out for an alert, with the kind of channel and the address.
pub record Outgoing : Type 0 where
  pub rule_id : String
  pub channel_id : String
  pub kind : String
  pub url : String

-- One evaluation of a tenant: what each query answers (`none` is an error), and whether the
-- database accepts the insert of an event.
pub record Cycle (F : Type 0) : Type 0 where
  pub rules : Option (List AlertRule)
  pub channels : Option (List NotificationChannel)
  pub events_fail : Bool
  pub insert_fails : Bool
  pub answers : Answers F

unfoldable pub is_open : String → Bool
is_open state = str_eq state "firing" || str_eq state "open"

-- The key and the value of the address of a channel, where the value must not be empty.
abbrev pub outgoing_to : AlertRule → NotificationChannel → Option String → List Outgoing
outgoing_to rule ch none = []
outgoing_to rule ch (some url) =
    if str_eq url ""
    then []
    else record { rule_id = rule.id; channel_id = ch.id; kind = ch.kind; url = url } ∷ []

-- `notify`: webhook and slack send, e-mail is only logged, and other kinds are skipped.
unfoldable pub notify_with :
    AlertRule → NotificationChannel → Option (List (String × String)) → List Outgoing
notify_with rule ch none = []
notify_with rule ch (some cfg) =
    if str_eq ch.kind "webhook"
    then outgoing_to rule ch (lookup "url" cfg)
    else if str_eq ch.kind "slack"
    then outgoing_to rule ch (lookup "webhook_url" cfg)
    else []

unfoldable pub notify : AlertRule → NotificationChannel → List Outgoing
unfolding notify_with
notify rule ch = notify_with rule ch ch.config

abbrev pub notify_enabled : AlertRule → Option NotificationChannel → List Outgoing
notify_enabled rule none = []
notify_enabled rule (some ch) = if ch.enabled then notify rule ch else []

-- `channelsByID`
unfoldable pub find_channel : List NotificationChannel → String → Option NotificationChannel
find_channel [] id = none
find_channel (c ∷ cs) id = let rest = find_channel cs id in if str_eq c.id id then some c else rest

unfoldable pub notify_all : List NotificationChannel → AlertRule → List String → List Outgoing
unfolding notify find_channel
notify_all channels rule [] = []
notify_all channels rule (id ∷ ids) =
    notify_enabled rule (find_channel channels id) ++ notify_all channels rule ids

module _ {F : Type 0} where
  -- `openByRule[id]`, of the events that the query returns.
  unfoldable pub open_by_rule : List (AlertEvent F) → String → Bool
  unfolding is_open
  open_by_rule events id = any (λ e. str_eq e.rule_id id && is_open e.state) events

  abbrev pub event_of : AlertRule → Verdict F → AlertEvent F
  event_of rule v = record {
    rule_id = rule.id;
    state = "firing";
    signal = rule.signal;
    triggered_value = v.value;
    threshold = v.threshold;
  }

  -- `fire`: the event is stored, and only then the channels are notified.
  unfoldable pub fire :
      Cycle F
      → List NotificationChannel
      → AlertRule
      → Verdict F
      → List (AlertEvent F)
      → List (AlertEvent F) × List Outgoing
  unfolding notify_all
  fire cycle channels rule v events =
      if cycle.insert_fails
      then (events, [])
      else (event_of rule v ∷ events, notify_all channels rule rule.channel_ids)

  unfoldable pub fire_if :
      Cycle F
      → List NotificationChannel
      → AlertRule
      → Option (Verdict F)
      → List (AlertEvent F)
      → List (AlertEvent F) × List Outgoing
  unfolding fire
  fire_if cycle channels rule none events = (events, [])
  fire_if cycle channels rule (some v) events =
      if v.triggered then fire cycle channels rule v events else (events, [])

module _ {F : Type 0} (fl : FloatOps F) where
  -- One round of the loop; `listed` are the events that were read before it.
  unfoldable pub evaluate_rule :
      Cycle F
      → List NotificationChannel
      → List (AlertEvent F)
      → AlertRule
      → List (AlertEvent F)
      → List (AlertEvent F) × List Outgoing
  unfolding fire_if open_by_rule
  evaluate_rule cycle channels listed rule events =
      if not rule.enabled || open_by_rule listed rule.id
      then (events, [])
      else fire_if cycle channels rule (check_rule fl cycle.answers rule) events

  unfoldable pub evaluate_rules :
      Cycle F
      → List NotificationChannel
      → List (AlertEvent F)
      → List AlertRule
      → List (AlertEvent F)
      → List (AlertEvent F) × List Outgoing
  unfolding evaluate_rule
  evaluate_rules cycle channels listed [] events = (events, [])
  evaluate_rules cycle channels listed (rule ∷ rules) events =
      let one = evaluate_rule cycle channels listed rule events in
      let rest = evaluate_rules cycle channels listed rules one.0 in (rest.0, one.1 ++ rest.1)

  abbrev pub with_rules :
      Cycle F
      → Option (List AlertRule)
      → Option (List NotificationChannel)
      → List (AlertEvent F)
      → List (AlertEvent F) × List Outgoing
  with_rules cycle none channels events = (events, [])
  with_rules cycle (some rules) none events = (events, [])
  with_rules cycle (some rules) (some channels) events =
      if cycle.events_fail
      then (events, [])
      else evaluate_rules cycle channels (take 500 events) rules events

  -- `evaluateTenant` on the events of the tenant.
  unfoldable pub evaluate_tenant :
      Cycle F → List (AlertEvent F) → List (AlertEvent F) × List Outgoing
  unfolding evaluate_rules
  evaluate_tenant cycle events = with_rules cycle cycle.rules cycle.channels events
