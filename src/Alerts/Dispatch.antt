-- ===== src/Alerts/Dispatch.antt =====
-- internal/alertchannels/dispatch.go: `Dispatch` and `dispatchOne`, with the delivery log of
-- internal/store/postgres/alert_channels.go. `sent_at >= now() - within` is written
-- `now <= sent_at + within`, in nanoseconds; the check and the row of one dispatch have one time. The
-- drivers, the decoder of a configuration and the failures of the database are parameters.
use mxsentinel.Prelude.{
  ℕ, ◌+◌, ◌*◌, ◌/◌, ◌⊎◌, inl, inr, Bool, true, false, not, ◌&&◌, Option, none, some, List, [], ◌∷◌,
  String, str_eq, ltb, leb, if◌then◌else◌, any,
}

pub data Status : Type 0 where
  sent failed skipped_throttle skipped_dedup : Status

pub record Channel : Type 0 where
  pub id : String
  pub type : String
  pub config : String
  pub enabled : Bool

pub record Notification : Type 0 where
  pub alert_ref : String
  pub test : Bool
  pub skip_suppression : Bool

-- The error texts, by what they are made of.
pub data Failure : Type 0 where
  no_failure disabled bad_config : Failure
  no_driver : String → Failure
  text : String → Failure

pub record DispatchResult : Type 0 where
  pub channel_id : String
  pub type : String
  pub status : Status
  pub err : Failure

-- A row of `alert_deliveries`.
pub record Delivery : Type 0 where
  pub channel_id : String
  pub alert_ref : String
  pub status : Status
  pub error : Failure
  pub sent_at : ℕ

unfoldable pub is_sent : Status → Bool
is_sent sent = true
is_sent failed = false
is_sent skipped_throttle = false
is_sent skipped_dedup = false

-- `intervalString`: the interval that the query is given, a number of whole seconds.
unfoldable pub interval : ℕ → ℕ
interval d = (d / 1000000000) * 1000000000

-- A row that the query of `DeliveredFor` counts at the time `now`, given the interval.
unfoldable pub is_delivery_for : String → String → ℕ → ℕ → Delivery → Bool
unfolding is_sent
is_delivery_for id alert_ref within now r =
    str_eq r.channel_id id
    && (str_eq r.alert_ref alert_ref && (is_sent r.status && leb now (r.sent_at + within)))

-- A row that the query of `LastSentToChannel` counts.
unfoldable pub is_delivery_to : String → ℕ → ℕ → Delivery → Bool
unfolding is_sent
is_delivery_to id within now r =
    str_eq r.channel_id id && (is_sent r.status && leb now (r.sent_at + within))

unfoldable pub delivered_for : List Delivery → String → String → ℕ → ℕ → Bool
delivered_for log id alert_ref within now =
    any (is_delivery_for id alert_ref (interval within) now) log

unfoldable pub last_sent_to_channel : List Delivery → String → ℕ → ℕ → Bool
last_sent_to_channel log id within now = any (is_delivery_to id (interval within) now) log

-- What the outside does during one dispatch: the time, which statements of the database fail, what
-- `DecodeConfig` and the driver of a channel type give.
pub record World (C : Type 0) : Type 0 where
  pub now : ℕ
  pub dedup_fails : Bool
  pub throttle_fails : Bool
  pub record_fails : Bool
  pub decode : String → String ⊎ C
  pub driver : String → Option (Notification → C → Option String)

pub record Dispatcher : Type 0 where
  pub throttle : ℕ
  pub dedup : ℕ

abbrev pub result_of : Channel → Status → Failure → DispatchResult
result_of ch status err = record { channel_id = ch.id; type = ch.type; status = status; err = err }

unfoldable pub outcome : Channel → Option String → DispatchResult
outcome ch none = result_of ch sent no_failure
outcome ch (some e) = result_of ch failed (text e)

module _ {C : Type 0} where
  -- `record`: a row is appended unless the statement fails or finds no such channel.
  unfoldable pub write_row :
      World C → Channel → Notification → Status → Failure → List Delivery → List Delivery
  write_row w ch n status err log =
      if w.record_fails
      then log
      else record {
        channel_id = ch.id;
        alert_ref = n.alert_ref;
        status = status;
        error = err;
        sent_at = w.now;
      }
        ∷ log

  -- The skip that the two checks decide, if any.
  unfoldable pub suppressed :
      Dispatcher → World C → Channel → Notification → List Delivery → Option Status
  suppressed d w ch n log =
      if n.test
      then none
      else if ltb 0 d.dedup
          && (not w.dedup_fails && delivered_for log ch.id n.alert_ref d.dedup w.now)
      then some skipped_dedup
      else if ltb 0 d.throttle
          && (not n.skip_suppression
              && (not w.throttle_fails && last_sent_to_channel log ch.id d.throttle w.now))
      then some skipped_throttle
      else none

  unfoldable pub send :
      World C
      → Channel
      → Notification
      → List Delivery
      → (Notification → C → Option String)
      → String ⊎ C
      → DispatchResult × List Delivery
  unfolding outcome write_row
  send w ch n log driver (inl e) =
      (result_of ch failed bad_config, write_row w ch n failed (text e) log)
  send w ch n log driver (inr c) =
      let r = outcome ch (driver n c) in (r, write_row w ch n r.status r.err log)

  unfoldable pub deliver :
      World C
      → Channel
      → Notification
      → List Delivery
      → Option (Notification → C → Option String)
      → DispatchResult × List Delivery
  unfolding send write_row
  deliver w ch n log none =
      (result_of ch failed (no_driver ch.type), write_row w ch n failed (no_driver ch.type) log)
  deliver w ch n log (some driver) = send w ch n log driver (w.decode ch.config)

  unfoldable pub unless_suppressed :
      World C
      → Channel
      → Notification
      → List Delivery
      → Option Status
      → DispatchResult × List Delivery
  unfolding deliver write_row
  unless_suppressed w ch n log (some status) =
      (result_of ch status no_failure, write_row w ch n status no_failure log)
  unless_suppressed w ch n log none = deliver w ch n log (w.driver ch.type)

  unfoldable pub dispatch_one :
      Dispatcher → World C → Channel → Notification → List Delivery → DispatchResult × List Delivery
  unfolding suppressed unless_suppressed
  dispatch_one d w ch n log =
      if ch.enabled
      then unless_suppressed w ch n log (suppressed d w ch n log)
      else (result_of ch skipped_throttle disabled, log)

  -- Each channel is dispatched to in its own world, as time goes on and statements fail or not.
  unfoldable pub dispatch :
      Dispatcher
      → List (World C × Channel)
      → Notification
      → List Delivery
      → List DispatchResult × List Delivery
  unfolding dispatch_one
  dispatch d [] n log = ([], log)
  dispatch d ((w, ch) ∷ chs) n log =
      let one = dispatch_one d w ch n log in
      let rest = dispatch d chs n one.1 in (one.0 ∷ rest.0, rest.1)
