-- ===== src/Alerts/Delivered.antt =====
-- What the delivery log says after any number of dispatches (internal/alertchannels/dispatch.go).
use mxsentinel.Prelude.{◌&&◌}
use mxsentinel.Prelude.{Bool}
use mxsentinel.Prelude.{
  ℕ, ◌+◌, ◌<◌, ◌≡◌, refl, sym, ◌⊎◌, inl, inr, true, false, Option, none, some, List, [], ◌∷◌, arith,
  String, str_eq, lt→ltb, le→leb, Bool-cases, any, All,
}
use mathlib.Core.Path.{subst}
use mxsentinel.Alerts.Dispatch.{
  Status, failed, interval, Channel, Notification, Failure, Delivery, World, Dispatcher, is_sent,
  is_delivery_for, is_delivery_to, delivered_for, last_sent_to_channel, write_row, suppressed, send,
  deliver, unless_suppressed, dispatch_one,
}

-- Both rows were sent, to the same channel, and for `is_repeat` for the same alert.
unfoldable pub is_next : Delivery → Delivery → Bool
is_next new old = is_sent new.status && (is_sent old.status && str_eq old.channel_id new.channel_id)

unfoldable pub is_repeat : Delivery → Delivery → Bool
unfolding is_next
is_repeat new old = is_next new old && str_eq old.alert_ref new.alert_ref

-- The newer row is not a repetition of the older one, or it is later by more than the gap.
abbrev pub IsNewAlert : ℕ → Delivery → Delivery → Type 0
IsNewAlert gap new old = (is_repeat new old ≡ false) ⊎ (old.sent_at + gap < new.sent_at)

-- The same for any two messages to one channel.
abbrev pub IsSpacedFrom : ℕ → Delivery → Delivery → Type 0
IsSpacedFrom gap new old = (is_next new old ≡ false) ⊎ (old.sent_at + gap < new.sent_at)

-- Each row, the newest first, stands in a relation to all the older ones.
abbrev pub Ordered : (Delivery → Delivery → Type 0) → List Delivery → Type 0
Ordered R [] = Unit
Ordered R (r ∷ log) = All (R r) log × Ordered R log

-- A notification with the world and the channel of its dispatch.
pub record Task (C : Type 0) : Type 0 where
  pub world : World C
  pub channel : Channel
  pub notification : Notification

-- No bypass of the checks, and a working database.
abbrev pub IsChecked : {C : Type 0} → Task C → Type 0
IsChecked t =
    (t.notification.test ≡ false) × (t.world.dedup_fails ≡ false) × (t.world.throttle_fails ≡ false)

no_delivery_for :
    (id alert_ref : String) (within now : ℕ) (log : List Delivery) (status : Status) (err : Failure)
    → any (is_delivery_for id alert_ref within now) log ≡ false
    → All
        (IsNewAlert within (record {
          channel_id = id;
          alert_ref = alert_ref;
          status = status;
          error = err;
          sent_at = now;
        }))
        log
unfolding any is_delivery_for is_repeat
no_delivery_for id alert_ref within now [] status err h = tt
no_delivery_for id alert_ref within now (r ∷ log) status err h = (
  ground (arith, le→leb now (r.sent_at + within)),
  no_delivery_for id alert_ref within now log status err (ground arith),
)

no_delivery_to :
    (id alert_ref : String) (within now : ℕ) (log : List Delivery) (status : Status) (err : Failure)
    → any (is_delivery_to id within now) log ≡ false
    → All
        (IsSpacedFrom within (record {
          channel_id = id;
          alert_ref = alert_ref;
          status = status;
          error = err;
          sent_at = now;
        }))
        log
unfolding any is_delivery_to is_next
no_delivery_to id alert_ref within now [] status err h = tt
no_delivery_to id alert_ref within now (r ∷ log) status err h = (
  ground (arith, le→leb now (r.sent_at + within)),
  no_delivery_to id alert_ref within now log status err (ground arith),
)

All-unsent :
    (R : Delivery → Delivery → Type 0) (new : Delivery)
    → ((old : Delivery) → R new old)
    → (log : List Delivery) → All (R new) log
All-unsent R new f [] = tt
All-unsent R new f (r ∷ log) = (f r, All-unsent R new f log)

abbrev pub row : {C : Type 0} → World C → Channel → Notification → Status → Failure → Delivery
row w ch n status err = record {
  channel_id = ch.id;
  alert_ref = n.alert_ref;
  status = status;
  error = err;
  sent_at = w.now;
}

module _ {C : Type 0} (d : Dispatcher) where
  -- A dispatch leaves the log as it is or adds one row, a sent one only where no check suppressed it.
  abbrev AddsRow : Task C → List Delivery → List Delivery → Type 0
  AddsRow t log log' =
      (log' ≡ log)
      ⊎ ((status : Status) × ((err : Failure) × (log'
              ≡ row t.world t.channel t.notification status err ∷ log)
            × (is_sent status ≡ true → suppressed d t.world t.channel t.notification log ≡ none)))

  write_row-AddsRow :
      (t : Task C) (log : List Delivery) (status : Status) (err : Failure)
      → (is_sent status ≡ true → suppressed d t.world t.channel t.notification log ≡ none)
      → AddsRow t log (write_row t.world t.channel t.notification status err log)
  unfolding write_row
  write_row-AddsRow t log status err h = elim (Bool-cases t.world.record_fails) [
    | inl q ↦ inl (rw q refl)
    | inr q ↦ inr (status, (err, rw q refl, h))
  ]

  send-AddsRow :
      (t : Task C) (log : List Delivery) (driver : Notification → C → Option String)
      (c : String ⊎ C)
      → suppressed d t.world t.channel t.notification log ≡ none
      → AddsRow t log (send t.world t.channel t.notification log driver c).1
  unfolding send
  send-AddsRow t log driver (inl e) h = write_row-AddsRow t log failed _ (λ s. h)
  send-AddsRow t log driver (inr c) h = write_row-AddsRow t log _ _ (λ s. h)

  deliver-AddsRow :
      (t : Task C) (log : List Delivery) (driver : Option (Notification → C → Option String))
      → suppressed d t.world t.channel t.notification log ≡ none
      → AddsRow t log (deliver t.world t.channel t.notification log driver).1
  unfolding deliver
  deliver-AddsRow t log none h = write_row-AddsRow t log failed _ (λ s. h)
  deliver-AddsRow t log (some driver) h =
      send-AddsRow t log driver (t.world.decode t.channel.config) h

  skip-is_sent :
      (t : Task C) (log : List Delivery) (status : Status)
      → suppressed d t.world t.channel t.notification log ≡ some status
      → is_sent status ≡ false
  unfolding suppressed is_sent
  skip-is_sent t log status h = ground arith

  unless_suppressed-AddsRow :
      (t : Task C) (log : List Delivery) (o : Option Status)
      → suppressed d t.world t.channel t.notification log ≡ o
      → AddsRow t log (unless_suppressed t.world t.channel t.notification log o).1
  unfolding unless_suppressed
  unless_suppressed-AddsRow t log none h = deliver-AddsRow t log (t.world.driver t.channel.type) h
  unless_suppressed-AddsRow t log (some status) h =
      write_row-AddsRow t log status _ (λ s. absurd (ground (arith, skip-is_sent t log status h)))

  dispatch_one-AddsRow :
      (t : Task C) (log : List Delivery)
      → AddsRow t log (dispatch_one d t.world t.channel t.notification log).1
  unfolding dispatch_one
  dispatch_one-AddsRow t log = elim (Bool-cases t.channel.enabled) [
    | inl q ↦
        rw q
          (unless_suppressed-AddsRow t log (suppressed d t.world t.channel t.notification log) refl)
    | inr q ↦ inl (rw q refl)
  ]

  -- The dispatches of a list of tasks, one after the other.
  unfoldable pub run : List (Task C) → List Delivery → List Delivery
  run [] log = log
  run (t ∷ ts) log = run ts (dispatch_one d t.world t.channel t.notification log).1

  -- A relation that each sent row has to the log it is added to orders the log of a run.
  run-Ordered :
      (R : Delivery → Delivery → Type 0) (P : Task C → Type 0)
      (R_unsent : (new old : Delivery) → is_sent new.status ≡ false → R new old)
      (R_sent : (t : Task C) (log : List Delivery) (status : Status) (err : Failure)
        → P t
        → suppressed d t.world t.channel t.notification log ≡ none
        → All (R (row t.world t.channel t.notification status err)) log)
      (ts : List (Task C)) (log : List Delivery)
      → All P ts
      → Ordered R log
      → Ordered R (run ts log)
  unfolding run
  run-Ordered R P R_unsent R_sent [] log p h = h
  run-Ordered R P R_unsent R_sent (t ∷ ts) log p h =
      run-Ordered R P R_unsent R_sent ts _ p.1 (elim (dispatch_one-AddsRow t log) [
        | inl e ↦ subst (Ordered R) (sym e) h
        | inr (status, (err, e, s)) ↦ subst (Ordered R) (sym e) (
          elim (Bool-cases (is_sent status)) [
            | inl q ↦ R_sent t log status err p.0 (s q)
            | inr q ↦ All-unsent R _ (λ old. R_unsent _ old q) log
          ],
          h,
        )
      ])

  not_delivered :
      (t : Task C) (log : List Delivery)
      → 0 < d.dedup
      → IsChecked t
      → suppressed d t.world t.channel t.notification log ≡ none
      → delivered_for log t.channel.id t.notification.alert_ref d.dedup t.world.now ≡ false
  unfolding suppressed
  not_delivered t log p c h = ground (arith, lt→ltb 0 d.dedup)

  not_recent :
      (t : Task C) (log : List Delivery)
      → 0 < d.throttle
      → IsChecked t
      → t.notification.skip_suppression ≡ false
      → suppressed d t.world t.channel t.notification log ≡ none
      → last_sent_to_channel log t.channel.id d.throttle t.world.now ≡ false
  unfolding suppressed
  not_recent t log p c k h = ground (arith, lt→ltb 0 d.throttle)

  -- With a window for duplicates, after any notifications that are not tests, to any channels at any
  -- times, with checks that do not fail: of two rows of the log that were sent to one channel for one
  -- alert, the newer is later by more than the whole seconds of the window, also where the throttle
  -- is bypassed.
  pub run-IsNewAlert :
      (ts : List (Task C))
      → 0 < d.dedup
      → All IsChecked ts
      → Ordered (IsNewAlert (interval d.dedup)) (run ts [])
  unfolding any delivered_for is_repeat
  run-IsNewAlert ts p h =
      run-Ordered (IsNewAlert (interval d.dedup)) IsChecked (λ new old q. inl (rw q refl))
        (λ t log status err c s.
          no_delivery_for t.channel.id t.notification.alert_ref (interval d.dedup) t.world.now log
            status err (not_delivered t log p c s))
        ts [] h tt

  -- With a throttle, after any notifications that are neither tests nor exempt from suppression, with
  -- checks that do not fail: of two rows of the log that were sent to one channel, the newer is later
  -- by more than the whole seconds of the throttle.
  pub run-IsSpacedFrom :
      (ts : List (Task C))
      → 0 < d.throttle
      → All (λ t. IsChecked t × (t.notification.skip_suppression ≡ false)) ts
      → Ordered (IsSpacedFrom (interval d.throttle)) (run ts [])
  unfolding any last_sent_to_channel is_next
  run-IsSpacedFrom ts p h =
      run-Ordered (IsSpacedFrom (interval d.throttle))
        (λ t. IsChecked t × (t.notification.skip_suppression ≡ false))
        (λ new old q. inl (rw q refl))
        (λ t log status err c s.
          no_delivery_to t.channel.id t.notification.alert_ref (interval d.throttle) t.world.now log
            status err (not_recent t log p c.0 c.1 s))
        ts [] h tt
