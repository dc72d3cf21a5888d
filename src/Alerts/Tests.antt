-- ===== src/Alerts/Tests.antt =====
-- The dispatcher at concrete notifications.
use mxsentinel.Prelude.{◌*◌}
use mxsentinel.Prelude.{
  ℕ, ◌≡◌, refl, ◌⊎◌, inr, true, false, none, some, List, [], ◌∷◌, map, arith, String, str_eq,
  if◌then◌else◌, any,
}
use mxsentinel.Alerts.Dispatch.{
  Status, sent, failed, skipped_throttle, skipped_dedup, Channel, Notification, Failure,
  DispatchResult, Delivery, World, Dispatcher, is_sent, dispatch_one, dispatch,
}
use mxsentinel.Alerts.Delivered.{
  Task, IsNewAlert, IsSpacedFrom, Ordered, run, run-IsNewAlert, run-IsSpacedFrom,
}
use mxsentinel.Alerts.Logged.{Logs, dispatch_one-Logs}

abbrev ops : Channel
ops = record { id = "c1"; type = "slack"; config = "{}"; enabled = true }

abbrev muted : Channel
muted = record ops { enabled = false }

abbrev world_at : ℕ → World String
world_at t = record {
  now = t;
  dedup_fails = false;
  throttle_fails = false;
  record_fails = false;
  decode = λ raw. inr raw;
  driver = λ ty. if str_eq ty "slack" then some (λ n c. none) else none;
}

abbrev notice : String → Notification
notice r = record { alert_ref = r; test = false; skip_suppression = false }

-- A task at a time in milliseconds.
abbrev at : String → ℕ → Task String
at r t = record { world = world_at (t * 1000000); channel = ops; notification = notice r }

abbrev seconds : ℕ → ℕ
seconds n = n * 1000000000

-- Ten seconds and a half of throttle, a hundred seconds for duplicates.
abbrev small : Dispatcher
small = record { throttle = 10500000000; dedup = seconds 100 }

abbrev flapping : List (Task String)
flapping = at "a" 1000 ∷ at "b" 5000 ∷ at "b" 11100 ∷ at "a" 40000 ∷ at "a" 101200 ∷ []

flapping_log :
    map (λ r. r.status) (run small flapping [])
    ≡ sent ∷ skipped_dedup ∷ sent ∷ skipped_throttle ∷ sent ∷ []
unfolding run dispatch_one mxsentinel.Alerts.Dispatch.delivered_for any
    mxsentinel.Alerts.Dispatch.last_sent_to_channel mxsentinel.Alerts.Dispatch.is_delivery_for
    mxsentinel.Alerts.Dispatch.is_delivery_to mxsentinel.Alerts.Dispatch.interval
flapping_log = refl

-- A window of half a second is cut to none: the same alert is sent again 100 ms later.
short_window_cut :
    map
      (λ r. r.status)
      (run (record { throttle = 0; dedup = 500000000 }) (at "a" 1000 ∷ at "a" 1100 ∷ []) [])
    ≡ sent ∷ sent ∷ []
unfolding run dispatch_one mxsentinel.Alerts.Dispatch.delivered_for any
    mxsentinel.Alerts.Dispatch.is_delivery_for mxsentinel.Alerts.Dispatch.interval
short_window_cut = refl

run-IsNewAlert_example : Ordered (IsNewAlert (seconds 100)) (run small flapping [])
unfolding mxsentinel.Alerts.Dispatch.interval
run-IsNewAlert_example = run-IsNewAlert small flapping (omega arith) (
  (refl, refl, refl),
  ((refl, refl, refl), ((refl, refl, refl), ((refl, refl, refl), ((refl, refl, refl), tt)))),
)

run-IsSpacedFrom_example : Ordered (IsSpacedFrom (seconds 10)) (run small flapping [])
unfolding mxsentinel.Alerts.Dispatch.interval
run-IsSpacedFrom_example = run-IsSpacedFrom small flapping (omega arith) (
  ((refl, refl, refl), refl),
  (
    ((refl, refl, refl), refl),
    (((refl, refl, refl), refl), (((refl, refl, refl), refl), (((refl, refl, refl), refl), tt))),
  ),
)

dispatch_one-Logs_example :
    ((ops.enabled ≡ true)
      × Logs (world_at 3) ops (notice "a") [] (dispatch_one small (world_at 3) ops (notice "a") []))
    ⊎ ((ops.enabled ≡ false)
        × ((dispatch_one small (world_at 3) ops (notice "a") []).1 ≡ [])
        × (is_sent (dispatch_one small (world_at 3) ops (notice "a") []).0.status ≡ false))
dispatch_one-Logs_example = dispatch_one-Logs (world_at 3) ops (notice "a") [] small refl

-- The decision to skip a disabled channel is not logged.
disabled_not_logged : dispatch small ((world_at 3, muted) ∷ []) (notice "a") [] ≡ (
  record { channel_id = "c1"; type = "slack"; status = skipped_throttle; err = Failure.disabled }
      ∷ [],
  [],
)
unfolding dispatch
disabled_not_logged = refl
