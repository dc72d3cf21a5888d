-- ===== src/Telemetry/Parser.antt =====
-- internal/telemetry/postfix.go: the parser of a mail log. The regular expressions are matched by
-- Go's `regexp`: each is an argument, from a text to its groups.
use mxsentinel.Prelude.{ℕ, ◌&&◌, Option, none, some, List, [], ◌∷◌, ◌++◌, if◌then◌else◌}
use mxsentinel.Prelude.Text.{Bytes, codes, bytes_eq, is_empty, contains, to_lower, trim_space}
use mxsentinel.Prelude.Assoc.{lookup, insert, erase, bytes_key}
use mxsentinel.Telemetry.Words.{
  MailOutcome, BounceClass, map_status, classify_bounce, classify_provider, domain_part, truncate,
  parse_relay_host, ensure_angle, atoi_capped,
}

-- The expressions, the time of a line, and the keyed digest of an address.
pub record Matchers : Type 0 where
  pub line : Bytes → Option Bytes
  pub queue : Bytes → Option (Bytes × Bytes)
  pub from : Bytes → Option Bytes
  pub size : Bytes → Option Bytes
  pub message_id : Bytes → Option Bytes
  pub to : Bytes → Option Bytes
  pub relay : Bytes → Option Bytes
  pub dsn : Bytes → Option Bytes
  pub status : Bytes → Option Bytes
  pub response : Bytes → Option Bytes
  pub code : Bytes → Option Bytes
  pub host_ip : Bytes → Option Bytes
  pub sasl_username : Bytes → Option Bytes
  pub time : Bytes → ℕ
  pub digest : Bytes → Bytes

pub record MsgState : Type 0 where
  pub envelope_from : Bytes
  pub from_domain : Bytes
  pub size : ℕ
  pub message_id : Bytes
  pub sasl_username : Bytes

-- The fields of `SMTPPayload` that the parser sets.
pub record SmtpPayload : Type 0 where
  pub outcome : MailOutcome
  pub bounce_class : BounceClass
  pub message_id : Bytes
  pub queue_id : Bytes
  pub envelope_from : Bytes
  pub from_domain : Bytes
  pub recipient_domain : Bytes
  pub recipient_hash : Bytes
  pub provider : Bytes
  pub mx_host : Bytes
  pub relay_ip : Bytes
  pub smtp_code : ℕ
  pub enhanced_status : Bytes
  pub response_text : Bytes
  pub sasl_username : Bytes
  pub size_bytes : ℕ

-- The `Correlation` repeats fields of the payload.
pub record Event : Type 0 where
  pub occurred_at : ℕ
  pub payload : SmtpPayload

abbrev pub States : Type 0
States = List (Bytes × MsgState)

abbrev pub no_state : MsgState
no_state = record {
  envelope_from = [];
  from_domain = [];
  size = 0;
  message_id = [];
  sasl_username = [];
}

abbrev pub state_of : Option MsgState → MsgState
state_of none = no_state
state_of (some st) = st

abbrev or_blank : Option Bytes → Bytes
or_blank none = []
or_blank (some s) = s

abbrev or_zero : Option Bytes → ℕ
or_zero none = 0
or_zero (some s) = atoi_capped s

abbrev pub max_response_text : ℕ
max_response_text = 512

abbrev pub put_message_id : MsgState → Bytes → MsgState
put_message_id st id = record st { message_id = ensure_angle id }

abbrev pub put_sasl : MsgState → Bytes → MsgState
put_sasl st user = record st { sasl_username = user }

module _ (m : Matchers) where
  -- `hash` of privacy.go.
  unfoldable pub hash : Bytes → Bytes
  hash address = let a = to_lower (trim_space address) in if is_empty a then [] else m.digest a

  abbrev relay_host : Option Bytes → Bytes
  relay_host none = []
  relay_host (some relay) = parse_relay_host m.host_ip (trim_space relay)

  unfoldable pub payload_of : Bytes → Bytes → Bytes → MsgState → MailOutcome → SmtpPayload
  unfolding hash
  payload_of relay_ip qid kv st outcome =
      let recipient = or_blank (m.to kv) in
      let host = relay_host (m.relay kv) in
      let dsn = or_blank (m.dsn kv) in
      let response = or_blank (m.response kv) in
      let code = or_zero (m.code response) in
      record {
        outcome = outcome;
        bounce_class = classify_bounce outcome dsn code response;
        message_id = st.message_id;
        queue_id = qid;
        envelope_from = st.envelope_from;
        from_domain = st.from_domain;
        recipient_domain = domain_part recipient;
        recipient_hash = hash recipient;
        provider = classify_provider host;
        mx_host = host;
        relay_ip = relay_ip;
        smtp_code = code;
        enhanced_status = dsn;
        response_text = truncate response max_response_text;
        sasl_username = st.sasl_username;
        size_bytes = st.size;
      }

  abbrev pub emitted : Bytes → Bytes → Bytes → ℕ → MsgState → Option MailOutcome → List Event
  emitted relay_ip qid kv time st none = []
  emitted relay_ip qid kv time st (some outcome) =
      record { occurred_at = time; payload = payload_of relay_ip qid kv st outcome } ∷ []

  abbrev pub status_of : Option Bytes → Option MailOutcome
  status_of none = none
  status_of (some word) = map_status word

  unfoldable pub emit : Bytes → Bytes → Bytes → ℕ → Option MsgState → List Event
  unfolding payload_of
  emit relay_ip qid kv time st =
      emitted relay_ip qid kv time (state_of st) (status_of (m.status kv))

  abbrev pub with_from : Option Bytes → MsgState → MsgState
  with_from none st = st
  with_from (some address) st = record st {
    envelope_from = address;
    from_domain = domain_part address;
  }

  abbrev pub with_size : Option Bytes → MsgState → MsgState
  with_size none st = st
  with_size (some digits) st = record st { size = atoi_capped digits }

  -- A field is set when its expression matches, in a new entry when there is none.
  abbrev pub set_field : (MsgState → Bytes → MsgState) → Option Bytes → Bytes → States → States
  set_field put none qid states = states
  set_field put (some v) qid states = insert qid (put (state_of (lookup qid states)) v) states

  -- The `switch` of `Parse`.
  unfoldable pub parse_kv : Bytes → Bytes → Bytes → ℕ → States → States × List Event
  unfolding emit
  parse_kv relay_ip qid kv time states =
      if contains kv (codes "status=")
      then (states, emit relay_ip qid kv time (lookup qid states))
      else if contains kv (codes "from=") && contains kv (codes "size=")
      then (
        insert qid (with_size (m.size kv) (with_from (m.from kv) (state_of (lookup qid states))))
            states,
        [],
      )
      else if contains kv (codes "message-id=")
      then (set_field put_message_id (m.message_id kv) qid states, [])
      else if contains kv (codes "sasl_username=")
      then (set_field put_sasl (m.sasl_username kv) qid states, [])
      else if bytes_eq kv (codes "removed")
      then (erase qid states, [])
      else (states, [])

  -- The queue id of a line and what follows it.
  abbrev queue_of : Option Bytes → Option (Bytes × Bytes)
  queue_of none = none
  queue_of (some rest) = m.queue rest

  abbrev known_queue : Option (Bytes × Bytes) → Option (Bytes × Bytes)
  known_queue none = none
  known_queue (some (qid, kv)) = if bytes_eq qid (codes "NOQUEUE") then none else some (qid, kv)

  abbrev pub tagged : Bytes → Option (Bytes × Bytes)
  tagged line = known_queue (queue_of (m.line line))

  abbrev pub parse_tagged : Bytes → Option (Bytes × Bytes) → ℕ → States → States × List Event
  parse_tagged relay_ip none time states = (states, [])
  parse_tagged relay_ip (some (qid, kv)) time states = parse_kv relay_ip qid kv time states

  unfoldable pub parse : Bytes → Bytes → States → States × List Event
  unfolding parse_kv
  parse relay_ip line states = parse_tagged relay_ip (tagged line) (m.time line) states

  -- The events of a log: the loop of `process` in cmd/telemetryd/main.go.
  unfoldable pub parse_all : Bytes → List Bytes → States → List Event
  unfolding parse
  parse_all relay_ip [] states = []
  parse_all relay_ip (line ∷ lines) states =
      let one = parse relay_ip line states in one.1 ++ parse_all relay_ip lines one.0
