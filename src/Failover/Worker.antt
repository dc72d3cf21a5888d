-- ===== src/Failover/Worker.antt =====
-- cmd/relayfailoverd/main.go: the daemon's effective configuration and its tick. The database, the
-- telemetry store, the disk and the cipher enter as what they answer in the tick.
use mxsentinel.Prelude.{
  ℕ, ◌*◌, ◌/◌, String, any, Bool, true, false, not, ◌&&◌, ◌||◌, Option, none, some, List, [], ◌∷◌,
  ltb, ◌==◌, if◌then◌else◌, length, take,
}
use mxsentinel.Prelude.Floats.{FloatOps}
use mxsentinel.Prelude.Text.{Bytes, codes, bytes_eq, is_empty}
use mxsentinel.Failover.Breaker.{
  State, closed, opened, Policy, Sample, Breaker, Transition, evaluate, new_breaker,
}
use mxsentinel.Incidents.Storing.{is_kind, is_severity}
use mxsentinel.Failover.StateFile.{Rendered, Writes, render_smarthost, domains_text}

pub record Effective (F : Type 0) : Type 0 where
  pub enabled : Bool
  pub mode : Bytes
  pub provider : Bytes
  pub domains : List Bytes
  pub window : ℕ
  pub policy : Policy F
  pub host : Bytes
  pub port : ℕ
  pub username : Bytes
  pub password : Bytes

-- The environment's configuration of the daemon.
pub record Config (F : Type 0) : Type 0 where
  pub enabled : Bool
  pub provider : Bytes
  pub recipient_domains : List Bytes
  pub window : ℕ
  pub policy : Policy F
  pub tenant_id : Bytes

-- The dashboard's settings of the relay tenant; 0 and "" are unset.
pub record Smarthost (F : Type 0) : Type 0 where
  pub host : Bytes
  pub enabled : Bool
  pub mode : Bytes
  pub domains : List Bytes
  pub port : ℕ
  pub username : Bytes
  pub password_enc : Bytes
  pub trip_rate : F
  pub window_secs : ℕ
  pub hold_secs : ℕ
  pub min_attempts : ℕ
  pub min_defers : ℕ

-- What of an incident decides whether its insert is taken.
pub record Incident : Type 0 where
  pub kind : String
  pub severity : String
  pub provider : Bytes
  pub opened_at : ℕ

pub record World : Type 0 where
  pub breaker : Breaker
  pub files : Rendered
  pub domains_file : Bytes
  pub incidents : List Incident

-- What the surroundings answer in one tick.
pub record Answers (F : Type 0) : Type 0 where
  pub now : ℕ
  pub settings : Option (Smarthost F)  -- `none`: the read failed
  pub stats : Option Sample  -- `none`: the query failed
  pub writes : Writes
  pub domains_ok : Bool
  pub incident_ok : Bool  -- false: the insert is refused whatever it inserts

abbrev is_none_set {ℓ} : {A : Type ℓ} → List A → Bool
is_none_set [] = true
is_none_set (x ∷ xs) = false

-- `0` is not a setting.
abbrev or_default : ℕ → ℕ → ℕ
or_default n d = if n == 0 then d else n

unfoldable pub second : ℕ
second = 1000000000

-- `domains[:MaxDomains]`, where a limit is set and passed.
unfoldable pub capped : ℕ → List Bytes → List Bytes
capped limit ds = if ltb 0 limit && ltb limit (length ds) then take limit ds else ds

unfoldable pub written : ℕ → Bytes → Bool → Option (List Bytes) → Bytes
written limit old write_ok none = old
written limit old write_ok (some ds) = if write_ok then domains_text (capped limit ds) else old

-- The source id is a hash of the provider and the opening time, which is printed in whole seconds.
unfoldable pub same_source : Incident → Incident → Bool
unfolding second
same_source i j = bytes_eq i.provider j.provider && (i.opened_at / second == j.opened_at / second)

-- `InsertIncident`, for the one tenant: the casts to the two enums, then the conflict.
unfoldable pub recorded : List Incident → Bool → Option Incident → List Incident
unfolding same_source
recorded log insert_ok none = log
recorded log insert_ok (some i) =
    if insert_ok && (is_kind i.kind && (is_severity i.severity && not (any (same_source i) log)))
    then i ∷ log
    else log

abbrev pub if_open : State → List Bytes → List Bytes
if_open opened ds = ds
if_open closed ds = []

-- The start of `run`: what an earlier process left in the failover file is overwritten, if that works.
unfoldable pub started : Bool → World → World
unfolding new_breaker domains_text
started write_ok w = record w {
  breaker = new_breaker;
  domains_file = if write_ok then domains_text [] else w.domains_file;
}

module _ {F : Type 0} (fl : FloatOps F) (open_secret : Option (Bytes → Option Bytes)) where
  open fl use {of_nat, ltb as ltb_float}

  -- The stored password: opened by the cipher, plain where there is none, "" where it cannot be opened.
  unfoldable pub password_of : Bytes → Bytes
  password_of enc = if is_empty enc then [] else elim open_secret [
    | none ↦ enc
    | some unseal ↦ elim (unseal enc) [ none ↦ [] | some pw ↦ pw ]
  ]

  unfoldable pub tuned : Policy F → Smarthost F → Policy F
  tuned p sh = record {
    min_attempts = or_default sh.min_attempts p.min_attempts;
    min_defers = or_default sh.min_defers p.min_defers;
    trip_rate = if ltb_float (of_nat 0) sh.trip_rate then sh.trip_rate else p.trip_rate;
    hold_for = if sh.hold_secs == 0 then p.hold_for else sh.hold_secs * second;
    max_domains = p.max_domains;
  }

  unfoldable pub env_effective : Config F → Effective F
  env_effective c = record {
    enabled = c.enabled;
    mode = codes "on_throttle";
    provider = c.provider;
    domains = c.recipient_domains;
    window = c.window;
    policy = c.policy;
    host = [];
    port = 0;
    username = [];
    password = [];
  }

  unfoldable pub dashboard_effective : Config F → Smarthost F → Effective F
  unfolding password_of tuned
  dashboard_effective c sh = record {
    enabled = sh.enabled;
    mode = if is_empty sh.mode then codes "always" else sh.mode;
    provider = c.provider;
    domains = sh.domains;
    window = if sh.window_secs == 0 then c.window else sh.window_secs * second;
    policy = tuned c.policy sh;
    host = sh.host;
    port = sh.port;
    username = sh.username;
    password = password_of sh.password_enc;
  }

  unfoldable pub resolve_effective : Config F → Option (Smarthost F) → Effective F
  resolve_effective c none = env_effective c
  resolve_effective c (some sh) =
      if is_empty c.tenant_id || (is_empty sh.host && (not sh.enabled && is_none_set sh.domains))
      then env_effective c
      else dashboard_effective c sh

  -- What the tick has decided: the domains to write, unless the query failed.
  pub record Decision : Type 0 where
    pub breaker : Breaker
    pub domains : Option (List Bytes)
    pub incident : Option Incident

  -- An incident is opened on a trip, for a configured tenant.
  unfoldable pub incident_for : Config F → Effective F → Breaker → Transition → Option Incident
  incident_for c eff b tr = elim tr.to [
    | opened ↦
        if tr.changed && not (is_empty c.tenant_id)
        then some (record {
          kind = "other";
          severity = "high";
          provider = eff.provider;
          opened_at = b.opened_at;
        })
        else none
    | closed ↦ none
  ]

  unfoldable pub throttled : Config F → Effective F → Breaker → ℕ → Option Sample → Decision
  unfolding incident_for
  throttled c eff b now none = record { breaker = b; domains = none; incident = none }
  throttled c eff b now (some s) =
      let (b', tr) = evaluate fl b now s eff.policy in
      record {
        breaker = b';
        domains = some (if_open b'.state eff.domains);
        incident = incident_for c eff b' tr;
      }

  unfoldable pub decide : Config F → Effective F → Breaker → ℕ → Option Sample → Decision
  decide c eff b now stats =
      if not eff.enabled
      then record { breaker = b; domains = some []; incident = none }
      else if bytes_eq eff.mode (codes "always")
      then record { breaker = b; domains = some eff.domains; incident = none }
      else throttled c eff b now stats

  unfoldable pub rendered : Rendered → Writes → Effective F → Rendered
  rendered files w eff =
      if eff.enabled
      then render_smarthost files w eff.host eff.port eff.username eff.password
      else render_smarthost files w [] 0 [] []

  unfoldable pub tick : Config F → World → Answers F → World
  unfolding rendered written recorded
  tick c w a =
      let eff = resolve_effective c a.settings in
      let d = decide c eff w.breaker a.now a.stats in
      record {
        breaker = d.breaker;
        files = rendered w.files a.writes eff;
        domains_file = written eff.policy.max_domains w.domains_file a.domains_ok d.domains;
        incidents = recorded w.incidents a.incident_ok d.incident;
      }

  -- The loop of `run`.
  unfoldable pub ticks : Config F → World → List (Answers F) → World
  unfolding tick
  ticks c w [] = w
  ticks c w (a ∷ later) = ticks c (tick c w a) later
