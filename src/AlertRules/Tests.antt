-- ===== src/AlertRules/Tests.antt =====
-- Rules, events and messages of concrete tenants, over thousandths for float64.
use mxsentinel.Prelude.{
  ℕ, ◌≡◌, refl, Bool, true, false, none, some, List, [], ◌∷◌, arith, String, str_eq, take, select,
  any, All,
}
use mxsentinel.Prelude.Floats.{milli}
use mxsentinel.Prelude.Assoc.{lookup, string_key}
use mxsentinel.Incidents.Mapping.{
  Envelope, EventType, blacklist_hit, ReputationPayload, IncidentInput,
}
use mxsentinel.Incidents.Once.{deliver}
use mxsentinel.AlertRules.Rules.{AlertRule, Answers, Verdict, check_rule, check_blacklist_hit}
use mxsentinel.AlertRules.Evaluation.{NotificationChannel, Cycle, evaluate_tenant}
use mxsentinel.AlertRules.Firing.{IsSingle, run, run-IsSingle}
use mxsentinel.AlertRules.Messages.{IsFresh, evaluate_tenant-IsFresh}
use mxsentinel.AlertRules.Blind.{listed_kinds, check_blacklist_hit_never}

abbrev spike_rule : AlertRule
spike_rule = record {
  id = "r1";
  name = "spike";
  signal = "rejection_spike";
  condition = "";
  channel_ids = "c1" ∷ "gone" ∷ [];
  enabled = true;
}

abbrev hook : NotificationChannel
hook = record {
  id = "c1";
  kind = "webhook";
  config = some (("url", "https://h") ∷ []);
  enabled = true;
}

-- Half of the messages of the hour were rejected, and an address of the relay is on a blacklist.
abbrev answers : Answers ℕ
answers = record {
  decode = λ raw. none;
  provider_heatmap = some (record { delivered = 5; rejected = 5; total = 10 } ∷ []);
  open_incident_kinds = some ("blacklist" ∷ []);
  bounce_rates = none;
  dmarc_pass_rates = λ n. none;
}

abbrev cycle : Cycle ℕ
cycle = record {
  rules = some (spike_rule ∷ record spike_rule { id = "r2"; enabled = false } ∷ []);
  channels = some (hook ∷ []);
  events_fail = false;
  insert_fails = false;
  answers = answers;
}

sends_once :
    (evaluate_tenant milli cycle []).1
    ≡ record { rule_id = "r1"; channel_id = "c1"; kind = "webhook"; url = "https://h" } ∷ []
unfolding evaluate_tenant any check_rule lookup
sends_once = refl

run-IsSingle_example : IsSingle (run milli (cycle ∷ cycle ∷ []) [])
unfolding run evaluate_tenant any check_rule
run-IsSingle_example =
    run-IsSingle milli (cycle ∷ cycle ∷ []) (((refl, tt), (tt, tt)), (((refl, tt), (tt, tt)), tt))
      (omega arith)

evaluate_tenant-IsFresh_example :
    let r = evaluate_tenant milli cycle [] in All (IsFresh (take 500 []) r.0) r.1
evaluate_tenant-IsFresh_example = evaluate_tenant-IsFresh milli cycle []

-- Where the database refuses the event, the rule is silent.
refused_event : evaluate_tenant milli (record cycle { insert_fails = true }) [] ≡ ([], [])
unfolding evaluate_tenant any check_rule
refused_event = refl

abbrev listing : ReputationPayload ℕ
listing = record {
  signal = "blacklist_hit";
  subject_kind = "ip";
  subject = "198.51.100.5";
  severity = "critical";
  source = "zen.spamhaus.org";
  observed_value = 1;
  window_secs = 0;
  detail = [];
}

abbrev hits : List (Bool × Envelope ℕ)
hits =
    (
      false,
      record {
        tenant_id = "t";
        event_id = "e1";
        event_type = blacklist_hit;
        correlation_domain = "";
        reputation = some listing;
        dns = none;
      },
    )
    ∷ []

abbrev stored_kinds : List String
stored_kinds = listed_kinds (λ i. str_eq i.tenant_id "t") 100 (deliver hits [])

abbrev asked : Answers ℕ
asked = record answers { open_incident_kinds = some stored_kinds }

-- The listing is stored and open, and the rule sees it.
listing_stored : stored_kinds ≡ "blacklist" ∷ []
unfolding listed_kinds deliver select mxsentinel.Incidents.Storing.on_event
    mxsentinel.Incidents.Mapping.from_envelope any
listing_stored = refl

abbrev quiet : Verdict ℕ
quiet = record { triggered = false; value = 0; threshold = 0 }

asks : check_blacklist_hit milli asked 0 ≡ some quiet
unfolding check_blacklist_hit listed_kinds deliver select mxsentinel.Incidents.Storing.on_event
    mxsentinel.Incidents.Mapping.from_envelope any
asks = refl

check_blacklist_hit_never_example : quiet.triggered ≡ false
check_blacklist_hit_never_example =
    check_blacklist_hit_never milli asked 0 hits (λ i. str_eq i.tenant_id "t") quiet refl asks
