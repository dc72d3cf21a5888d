-- ===== src/Failover/Tests.antt =====
-- Runs of the breaker and of the daemon's tick, over thousandths for float64.
use mxsentinel.Prelude.{
  ℕ, zero, suc, ◌+◌, ◌-◌, ◌*◌, ◌/◌, ◌%◌, ◌≤◌, ◌<◌, ◌≡◌, refl, sym, ap, ◌∙◌, ◌≢◌, ◌↔◌, ◌⊎◌, inl, inr,
  Bool, true, false, not, ◌&&◌, ◌||◌, Option, none, some, List, [], ◌∷◌, ◌++◌, map, append_assoc,
  append-nil, arith, String, str_eq, eq_iff, eq_refl, ltb, leb, ◌==◌, if◌then◌else◌, ltb→lt, lt→ltb,
  leb→le, le→leb, ==→eq, ==_refl, Bool-cases, &&-left, &&-right, ||-cases, length, take, select,
  any, length-append, length-take_le, All, All-append, All-select, length-select, select-All,
  All-select_keep,
}
use mxsentinel.Prelude.Floats.{milli}
use mxsentinel.Prelude.Text.{Bytes, codes, bytes_eq, is_empty}
use mxsentinel.Failover.Breaker.{
  closed, opened, Policy, Sample, no_sample, Breaker, new_breaker, evaluate, is_storm,
}
use mxsentinel.Failover.Runs.{Tick, run, IsSound, run-IsSound_new, run_holds, run_reverts}
use mxsentinel.Failover.StateFile.{Rendered, Writes, domains_text, render_smarthost}
use mxsentinel.Failover.Worker.{
  Effective, Config, Smarthost, World, Answers, Incident, resolve_effective, capped, tick, if_open,
  recorded, started, ticks,
}
use mxsentinel.Failover.Follows.{samples, daemon_follows, ticks_hold, ticks-incidents}

-- The default policy, with times in seconds for short.
abbrev default_policy : Policy ℕ
default_policy = record {
  min_attempts = 50;
  min_defers = 20;
  trip_rate = 600;
  hold_for = 1800;
  max_domains = 1;
}

abbrev storm : Sample
storm = record { attempts = 100; deferred_4xx = 70 }

abbrev calm : Sample
calm = record { attempts = 100; deferred_4xx = 3 }

abbrev at : ℕ → Sample → Tick
at t s = record { now = t; sample = s }

abbrev tripped_at_10 : Breaker
tripped_at_10 = record { state = opened; opened_at = 10; tripped_by = storm }

storm_trips : run milli default_policy new_breaker (at 5 calm ∷ at 10 storm ∷ []) ≡ tripped_at_10
unfolding run evaluate new_breaker is_storm
storm_trips = refl

run-IsSound_new_example :
    IsSound milli default_policy
      (run milli default_policy new_breaker (at 5 calm ∷ at 10 storm ∷ []))
run-IsSound_new_example = run-IsSound_new milli default_policy (at 5 calm ∷ at 10 storm ∷ [])

run_holds_example :
    run milli default_policy tripped_at_10 (at 20 calm ∷ at 1809 calm ∷ []) ≡ tripped_at_10
run_holds_example =
    run_holds milli default_policy tripped_at_10 (at 20 calm ∷ at 1809 calm ∷ []) refl (omega arith)

run_reverts_example :
    let (b', tr) =
      evaluate milli
        (run milli default_policy tripped_at_10 (at 20 calm ∷ []))
        1810
        storm
        default_policy in
    (b'.state ≡ closed) × (b'.tripped_by ≡ no_sample) × (tr.changed ≡ true) × (tr.to ≡ closed)
run_reverts_example =
    run_reverts milli default_policy tripped_at_10 (at 20 calm ∷ []) (at 1810 storm) refl
      (omega arith) (omega arith)

abbrev no_files : Rendered
no_files = record { sasl = none; transport = none }

abbrev good_writes : Writes
good_writes = record {
  sasl_removed = true;
  transport_removed = true;
  sasl_ok = true;
  transport_ok = true;
}

-- Domains are sorted before they are trimmed, so the lines of the file need not be sorted.
untrimmed_domain_unsorted : domains_text (codes "a" ∷ codes " b" ∷ []) ≡ codes "b\na\n"
unfolding domains_text mxsentinel.Prelude.Sort.sort mxsentinel.Prelude.Sort.bytes_le is_empty
    mxsentinel.Prelude.Text.trim_space
untrimmed_domain_unsorted = refl

abbrev env : Config ℕ
env = record {
  enabled = true;
  provider = codes "microsoft";
  recipient_domains = codes "outlook.com" ∷ codes "hotmail.com" ∷ [];
  window = 300;
  policy = default_policy;
  tenant_id = codes "t1";
}

abbrev calm_world : World
calm_world = record { breaker = new_breaker; files = no_files; domains_file = []; incidents = [] }

abbrev answers : Option Sample → Answers ℕ
answers stats = record {
  now = 10;
  settings = none;
  stats = stats;
  writes = good_writes;
  domains_ok = true;
  incident_ok = true;
}

tick_trips :
    (tick milli none env calm_world (answers (some storm))).domains_file ≡ codes "outlook.com\n"
unfolding tick mxsentinel.Failover.Worker.decide resolve_effective
    mxsentinel.Failover.Worker.env_effective bytes_eq mxsentinel.Failover.Worker.throttled
    domains_text mxsentinel.Prelude.Sort.sort capped evaluate new_breaker is_storm is_empty
    mxsentinel.Prelude.Text.trim_space
tick_trips = refl

-- A tick that trips, then one whose query fails, then one after the hold time.
abbrev tripping : Answers ℕ
tripping = answers (some storm)

abbrev blind : Answers ℕ
blind = record (answers none) { now = 700; domains_ok = false }

abbrev late : Answers ℕ
late = record (answers (some storm)) { now = 1810 }

abbrev env_eff : Effective ℕ
env_eff = resolve_effective milli none env none

abbrev open_world : World
open_world = record calm_world { breaker = tripped_at_10 }

daemon_follows_example :
    let w' = ticks milli none env (started true open_world) (tripping ∷ blind ∷ late ∷ []) in
    (w'.breaker ≡ run milli default_policy new_breaker (samples (tripping ∷ blind ∷ late ∷ [])))
    × (w'.domains_file ≡ domains_text (capped 1 (if_open w'.breaker.state env.recipient_domains)))
    × IsSound milli default_policy w'.breaker
unfolding resolve_effective mxsentinel.Failover.Worker.env_effective bytes_eq
daemon_follows_example =
    daemon_follows milli none env env_eff open_world (tripping ∷ blind ∷ late ∷ [])
      ((refl, refl, refl), ((refl, refl, refl), ((refl, refl, refl), tt)))
      (inr refl, (inl refl, (inr refl, tt)))

ticks_hold_example :
    let w' = ticks milli none env open_world (record tripping { now = 60 } ∷ blind ∷ []) in
    (w'.breaker ≡ tripped_at_10) × (w'.domains_file ≡ domains_text (capped 1 env.recipient_domains))
unfolding resolve_effective mxsentinel.Failover.Worker.env_effective bytes_eq
ticks_hold_example =
    ticks_hold milli none env env_eff open_world (record tripping { now = 60 }) storm (blind ∷ [])
      refl ((refl, refl, refl), ((refl, refl, refl), tt)) (omega arith, (omega arith, tt)) refl refl
      (inl refl, tt)

abbrev episode : ℕ → Incident
episode t = record {
  kind = "other";
  severity = "critical";
  provider = codes "microsoft";
  opened_at = t;
}

-- Two episodes that open in one second have one source id.
same_second :
    recorded (recorded [] true (some (episode 1000000005))) true (some (episode 1900000000))
    ≡ episode 1000000005 ∷ []
unfolding recorded bytes_eq mxsentinel.Incidents.Storing.is_kind
    mxsentinel.Incidents.Storing.is_severity any
same_second = refl

-- A credential file that cannot be removed stays when the smarthost is disabled.
abbrev left_files : Rendered
left_files = record { sasl = some (codes "[h]:587 u:p\n"); transport = none }

credentials_kept :
    render_smarthost left_files (record good_writes { sasl_removed = false }) [] 0 [] []
    ≡ left_files
unfolding render_smarthost is_empty
credentials_kept = refl

ticks-incidents_example : (ticks milli none env calm_world (tripping ∷ blind ∷ [])).incidents ≡ []
ticks-incidents_example = ticks-incidents milli none env (tripping ∷ blind ∷ []) calm_world
