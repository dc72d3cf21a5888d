-- ===== src/Dns/Announced.antt =====
-- Runs of the polls of cmd/dnsd/main.go.
use mxsentinel.Prelude.{
  ◌≡◌, refl, ap, ◌⊎◌, inl, inr, Bool, true, false, not, ◌&&◌, ◌||◌, List, [], ◌∷◌, arith,
  Bool-cases, select, All,
}
use mxsentinel.Prelude.Text.{Bytes, bytes_eq, is_empty}
use mxsentinel.Dns.Inspect.{DnsState, Snapshot}
use mxsentinel.Dns.Poll.{
  StoredSnapshot, Monitored, PollIo, latest_checksum, is_alertable, row_of, announce, poll,
}

abbrev pub unmonitored : Monitored
unmonitored = record { rows = []; changes = []; alerts = [] }

-- A row differs from the one before it, when that one has a checksum.
abbrev IsNew : StoredSnapshot → List StoredSnapshot → Type 0
IsNew s [] = Unit
IsNew s (t ∷ ss) = (is_empty t.checksum ≡ true) ⊎ (bytes_eq s.checksum t.checksum ≡ false)

abbrev pub IsChanging : List StoredSnapshot → Type 0
IsChanging [] = Unit
IsChanging (s ∷ ss) = IsNew s ss × IsChanging ss

module _ (checksum : DnsState → Bytes) where
  unfoldable pub run : List (PollIo × Snapshot) → Monitored → Monitored
  unfolding poll
  run [] m = m
  run ((io, s) ∷ ps) m = run ps (poll io checksum s m)

  -- The rows change, and the alerts are the rows with something to alert about.
  abbrev Holds : Monitored → Type 0
  Holds m = IsChanging m.rows × (m.alerts ≡ select is_alertable m.rows)

  announce-alerts :
      (io : PollIo) (is_change : Bool) (s : StoredSnapshot) (m : Monitored)
      → io.alert_refused ≡ false
      → m.alerts ≡ select is_alertable m.rows
      → (announce io is_change s (record m { rows = s ∷ m.rows })).alerts
        ≡ select is_alertable (s ∷ m.rows)
  unfolding announce select
  announce-alerts io is_change s m a h = elim (Bool-cases (is_alertable s)) [
    | inl e ↦ rw (e, a) (ap (λ l. s ∷ l) h)
    | inr e ↦ rw e h
  ]

  not_kept : (a b c d : Bool) → a || ((not b && not c) || d) ≡ false → (c ≡ true) ⊎ (b ≡ true)
  not_kept a b c d h = ground arith

  kept-IsNew :
      (s : StoredSnapshot) (rows : List StoredSnapshot)
      → (is_empty (latest_checksum rows) ≡ true)
        ⊎ (not (bytes_eq s.checksum (latest_checksum rows)) ≡ true)
      → IsNew s rows
  unfolding latest_checksum
  kept-IsNew s [] h = tt
  kept-IsNew s (t ∷ rows) (inl f) = inl f
  kept-IsNew s (t ∷ rows) (inr c) = inr (ground arith)

  poll-Holds :
      (io : PollIo) (snap : Snapshot) (m : Monitored)
      → io.alert_refused ≡ false
      → Holds m
      → Holds (poll io checksum snap m)
  unfolding poll announce
  poll-Holds io snap m a h =
      let prior = latest_checksum m.rows in
      let s = row_of checksum snap in
      let changed = not (bytes_eq s.checksum prior) in
      elim (Bool-cases
        (io.prior_fails || ((not changed && not (is_empty prior)) || io.insert_fails))) [
          | inl e ↦ rw e h
          | inr e ↦ rw e (
            (
              kept-IsNew s m.rows
                  (not_kept io.prior_fails changed (is_empty prior) io.insert_fails e),
              h.0,
            ),
            announce-alerts io (changed && not (is_empty prior)) s m a h.1,
          )
        ]

  run-Holds :
      (ps : List (PollIo × Snapshot)) (m : Monitored)
      → All (λ p. p.0.alert_refused ≡ false) ps
      → Holds m
      → Holds (run ps m)
  unfolding run
  run-Holds [] m a h = h
  run-Holds ((io, s) ∷ ps) m a h = run-Holds ps (poll io checksum s m) a.1 (poll-Holds io s m a.0 h)

  -- In any sequence of polls, failures of the store among them, as long as the bus takes the alerts:
  -- a row is stored only when its checksum is another than that of the row before it, or that one
  -- is empty, and the alerts published are the rows with a warning or worse, each once.
  pub run-IsChanging :
      (ps : List (PollIo × Snapshot))
      → All (λ p. p.0.alert_refused ≡ false) ps
      → let m = run ps unmonitored in IsChanging m.rows × (m.alerts ≡ select is_alertable m.rows)
  unfolding select
  run-IsChanging ps a = run-Holds ps unmonitored a (tt, refl)
