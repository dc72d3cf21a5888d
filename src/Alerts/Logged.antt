-- ===== src/Alerts/Logged.antt =====
-- The audit trail of internal/alertchannels/dispatch.go: what each dispatch writes to the log.
use mxsentinel.Prelude.{
  ◌≡◌, refl, ◌⊎◌, inl, inr, true, false, Option, none, some, List, ◌∷◌, String, Bool-cases,
}
use mxsentinel.Alerts.Dispatch.{
  Status, failed, Channel, Notification, Failure, DispatchResult, Delivery, World, Dispatcher,
  is_sent, write_row, suppressed, send, deliver, unless_suppressed, dispatch_one,
}
use mxsentinel.Alerts.Delivered.{row}

module _ {C : Type 0} (w : World C) (ch : Channel) (n : Notification) (log : List Delivery) where
  -- The row of a result, with the text of its error.
  abbrev pub Logs : DispatchResult × List Delivery → Type 0
  Logs r = (err : Failure) × (r.1 ≡ row w ch n r.0.status err ∷ log)

  write_row-row :
      (status : Status) (err : Failure)
      → w.record_fails ≡ false
      → write_row w ch n status err log ≡ row w ch n status err ∷ log
  unfolding write_row
  write_row-row status err h = rw h refl

  send-Logs :
      (driver : Notification → C → Option String) (c : String ⊎ C)
      → w.record_fails ≡ false
      → Logs (send w ch n log driver c)
  unfolding send
  send-Logs driver (inl e) h = (_, write_row-row failed _ h)
  send-Logs driver (inr c) h = (_, write_row-row _ _ h)

  deliver-Logs :
      (driver : Option (Notification → C → Option String))
      → w.record_fails ≡ false
      → Logs (deliver w ch n log driver)
  unfolding deliver
  deliver-Logs none h = (_, write_row-row failed _ h)
  deliver-Logs (some driver) h = send-Logs driver (w.decode ch.config) h

  unless_suppressed-Logs :
      (o : Option Status) → w.record_fails ≡ false → Logs (unless_suppressed w ch n log o)
  unfolding unless_suppressed
  unless_suppressed-Logs none h = deliver-Logs (w.driver ch.type) h
  unless_suppressed-Logs (some status) h = (_, write_row-row status _ h)

  -- Where the log can be written, a dispatch to an enabled channel adds one row, with the status of
  -- the result, whether the message was sent, failed or was skipped; for a disabled channel nothing
  -- is written, and the result is not `sent`.
  pub dispatch_one-Logs :
      (d : Dispatcher)
      → w.record_fails ≡ false
      → ((ch.enabled ≡ true) × Logs (dispatch_one d w ch n log))
        ⊎ ((ch.enabled ≡ false)
            × ((dispatch_one d w ch n log).1 ≡ log)
            × (is_sent (dispatch_one d w ch n log).0.status ≡ false))
  unfolding dispatch_one is_sent
  dispatch_one-Logs d h = elim (Bool-cases ch.enabled) [
    | inl q ↦ inl (rw q (refl, unless_suppressed-Logs (suppressed d w ch n log) h))
    | inr q ↦ inr (rw q (refl, refl, refl))
  ]
