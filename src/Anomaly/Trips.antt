-- ===== src/Anomaly/Trips.antt =====
-- The trips of one domain over any sequence of steps of internal/anomaly/detector.go. `Record` lets
-- the lock go while it reads the baseline, so its two parts are separate steps, and the steps of
-- different messages and of `Sweep` come in any order, with any times.
use mxsentinel.Prelude.{
  ℕ, ◌+◌, ◌≤◌, ◌<◌, ◌≡◌, refl, sym, ◌⊎◌, inl, inr, true, Option, none, some, List, [], ◌∷◌, ◌++◌,
  arith, if◌then◌else◌, Bool-cases,
}
use mxsentinel.Prelude.Text.{Bytes, bytes_eq, bytes_eq→eq}
use mxsentinel.Prelude.Floats.{FloatOps}
use mxsentinel.Prelude.Assoc.{lookup, insert, bytes_key, lookup-insert_self, lookup-insert_ne}
use mxsentinel.Anomaly.Detector.{
  Config, Baseline, Counter, Counters, Fired, key, hour_start, is_cooling, or_new, arrive, adopt,
  roll_hour, rollover, trips_now, count_message, settle, sweep, sweep_counter,
}
use mathlib.Core.Path.{subst}
use mxsentinel.Anomaly.Sweeping.{lookup-sweep, swept}

pub data Event (F : Type 0) : Type 0 where
  arrived : Bytes → Bytes → ℕ → Event F
  settled : Bytes → Bytes → ℕ → ℕ → Option (Baseline F) → Event F
  cleaned : ℕ → Event F

pub record Trip : Type 0 where
  pub at : ℕ
  pub bucket : ℕ

-- The later trip is a cooldown after the earlier one, and belongs to a later hour.
abbrev pub IsApart : ℕ → Option Trip → Trip → Type 0
IsApart cooldown none b = Unit
IsApart cooldown (some a) b = (a.at + cooldown ≤ b.at) × (a.bucket < b.bucket)

abbrev pub Apart : ℕ → Option Trip → List Trip → Type 0
Apart cooldown last [] = Unit
Apart cooldown last (t ∷ ts) = IsApart cooldown last t × Apart cooldown (some t) ts

-- What a counter keeps of the last trip.
abbrev Remembers : {F : Type 0} → Option Trip → Counter F → Type 0
Remembers none c = c.last_trip ≡ 0
Remembers (some l) c =
    (c.last_trip ≡ l.at)
    × (0 < l.at)
    × (l.bucket ≤ c.hour)
    × ((c.tripped ≡ true) ⊎ (l.bucket < c.hour))

abbrev Knows : {F : Type 0} → Option Trip → Option (Counter F) → Type 0
Knows last none = last ≡ none
Knows last (some c) = Remembers last c

-- The times of messages are not the zero time.
abbrev pub HasTimes : {F : Type 0} → List (Event F) → Type 0
HasTimes [] = Unit
HasTimes (arrived t d now ∷ evs) = HasTimes evs
HasTimes (settled t d now clock b ∷ evs) = (0 < now) × HasTimes evs
HasTimes (cleaned now ∷ evs) = HasTimes evs

module _ {F : Type 0} (fl : FloatOps F) (one : F) (cfg : Config F) (k : Bytes) where
  unfoldable pub step : Counters F → Event F → Counters F
  step m (arrived t d now) = arrive fl one m t d now
  step m (settled t d now clock b) = (settle fl one cfg m t d now clock b).counters
  step m (cleaned now) = (sweep fl one cfg now m).0

  abbrev bucket_of : Option (Counter F) → ℕ
  bucket_of none = 0
  bucket_of (some c) = c.hour

  abbrev trip_at : ℕ → Option (Counter F) → Option (Fired F) → List Trip
  trip_at now c none = []
  trip_at now c (some f) = record { at = now; bucket = bucket_of c } ∷ []

  -- The trip of a step, if it is one of the key `k`.
  unfoldable pub trip_of : Counters F → Event F → List Trip
  unfolding step
  trip_of m (arrived t d now) = []
  trip_of m (settled t d now clock b) =
      if bytes_eq (key t d) k
      then trip_at now (lookup k (step m (settled t d now clock b)))
          (settle fl one cfg m t d now clock b).fired
      else []
  trip_of m (cleaned now) = []

  unfoldable pub trips : Counters F → List (Event F) → List Trip
  unfolding trip_of step
  trips m [] = []
  trips m (ev ∷ evs) = trip_of m ev ++ trips (step m ev) evs

  or_new-Remembers :
      (last : Option Trip) (o : Option (Counter F)) (t : Bytes) (hour : ℕ)
      → Knows last o
      → Remembers last (or_new fl one o t hour)
  or_new-Remembers none none t hour h = refl
  or_new-Remembers (some l) none t hour h = absurd (cc)
  or_new-Remembers last (some c) t hour h = h

  adopt-Remembers :
      (last : Option Trip) (b : Option (Baseline F)) (c : Counter F)
      → Remembers last c
      → Remembers last (adopt fl one b c)
  unfolding adopt
  adopt-Remembers none none c h = ground arith
  adopt-Remembers none (some b) c h = ground arith
  adopt-Remembers (some l) none c h = ground arith
  adopt-Remembers (some l) (some b) c h = ground arith

  roll_hour-Remembers :
      (last : Option Trip) (d : Bytes) (now : ℕ) (c : Counter F)
      → Remembers last c
      → Remembers last (roll_hour fl one cfg d now c).0
  unfolding roll_hour rollover
  roll_hour-Remembers none d now c h = ground arith
  roll_hour-Remembers (some l) d now c h = ground arith

  sweep_counter-Remembers :
      (last : Option Trip) (now : ℕ) (c : Counter F)
      → Remembers last c
      → Remembers last (sweep_counter fl one cfg k now c).0
  unfolding sweep_counter rollover
  sweep_counter-Remembers none now c h = ground arith
  sweep_counter-Remembers (some l) now c h = ground arith

  -- What counting a message does with the memory of the last trip.
  abbrev Continues : Option Trip → ℕ → Counter F × Option (Fired F) → Type 0
  Continues last now (c, none) = Remembers last c
  Continues last now (c, some f) =
      IsApart cfg.cooldown last (record { at = now; bucket = c.hour })
      × Remembers (some (record { at = now; bucket = c.hour })) c

  count_message-Continues :
      (last : Option Trip) (t d : Bytes) (now clock : ℕ) (c : Counter F)
      → 0 < now
      → Remembers last c
      → Continues last now (count_message fl one cfg t d now clock c)
  unfolding count_message trips_now is_cooling
  count_message-Continues none t d now clock c p h = ground arith
  count_message-Continues (some l) t d now clock c p h = ground arith

  -- The counter and the alert of a settled message.
  abbrev counted :
      Counters F → Bytes → Bytes → ℕ → ℕ → Option (Baseline F) → Counter F × Option (Fired F)
  counted m t d now clock b =
      count_message fl one cfg t d now clock
        (roll_hour fl one cfg d now
          (adopt fl one b (or_new fl one (lookup (key t d) m) t (hour_start now)))).0

  settled-Continues :
      (last : Option Trip) (m : Counters F) (t d : Bytes) (now clock : ℕ) (b : Option (Baseline F))
      → 0 < now
      → Knows last (lookup (key t d) m)
      → Continues last now (counted m t d now clock b)
  settled-Continues last m t d now clock b p h = count_message-Continues last t d now clock _ p (
      roll_hour-Remembers last d now _ (
        adopt-Remembers last b _ (or_new-Remembers last (lookup (key t d) m) t (hour_start now) h)))

  arrived-Knows :
      (last : Option Trip) (m : Counters F) (t d : Bytes) (now : ℕ)
      → Knows last (lookup k m)
      → Knows last (lookup k (arrive fl one m t d now))
  unfolding arrive
  arrived-Knows last m t d now h = elim (Bool-cases (bytes_eq (key t d) k)) [
    | inl q ↦
        subst
          (λ j.
            Knows last (
              lookup j
                (insert (key t d) (or_new fl one (lookup (key t d) m) t (hour_start now)) m)))
          (bytes_eq→eq (key t d) k q)
          (rw
            (lookup-insert_self (key t d) (or_new fl one (lookup (key t d) m) t (hour_start now)) m)
            (or_new-Remembers last (lookup (key t d) m) t (hour_start now)
              (subst (λ j. Knows last (lookup j m)) (sym (bytes_eq→eq (key t d) k q)) h)))
    | inr q ↦
        rw
          (lookup-insert_ne (key t d) k (or_new fl one (lookup (key t d) m) t (hour_start now)) m q)
          h
  ]

  swept-Knows :
      (last : Option Trip) (now : ℕ) (o : Option (Counter F))
      → Knows last o
      → Knows last (swept fl one cfg k now o)
  swept-Knows last now none h = h
  swept-Knows last now (some c) h = sweep_counter-Remembers last now c h

  -- The trips that follow a state keep their distance from the last trip it knows of.
  abbrev Goal : Option Trip → Counters F → List (Event F) → Type 0
  Goal last m evs = Apart cfg.cooldown last (trips m evs)

  settled-Goal :
      (last : Option Trip) (m : Counters F) (t d : Bytes) (now clock : ℕ) (b : Option (Baseline F))
      (evs : List (Event F)) (r : Counter F × Option (Fired F))
      → ((l : Option Trip) (m' : Counters F) → Knows l (lookup k m') → Goal l m' evs)
      → Continues last now r
      → lookup k (step m (settled t d now clock b)) ≡ some r.0
      → Apart cfg.cooldown last (
          trip_at now (lookup k (step m (settled t d now clock b))) r.1
          ++ trips (step m (settled t d now clock b)) evs)
  settled-Goal last m t d now clock b evs (c, none) ih h e =
      ih last (step m (settled t d now clock b)) (rw e h)
  settled-Goal last m t d now clock b evs (c, some f) ih h e = rw e (
    h.0,
    ih (some (record { at = now; bucket = c.hour })) (step m (settled t d now clock b)) (rw e h.1),
  )

  trips-Apart_from :
      (last : Option Trip) (m : Counters F) (evs : List (Event F))
      → HasTimes evs
      → Knows last (lookup k m)
      → Goal last m evs
  unfolding trips trip_of step settle
  trips-Apart_from last m [] p h = tt
  trips-Apart_from last m (arrived t d now ∷ evs) p h =
      trips-Apart_from last (arrive fl one m t d now) evs p (arrived-Knows last m t d now h)
  trips-Apart_from last m (cleaned now ∷ evs) p h =
      trips-Apart_from last (sweep fl one cfg now m).0 evs p (
        subst (Knows last) (sym (lookup-sweep fl one cfg now m k))
          (swept-Knows last now (lookup k m) h))
  trips-Apart_from last m (settled t d now clock b ∷ evs) p h =
      elim (Bool-cases (bytes_eq (key t d) k)) [
        | inl q ↦ rw q (
            settled-Goal last m t d now clock b evs (counted m t d now clock b)
              (λ l m' g. trips-Apart_from l m' evs p.1 g)
              (settled-Continues last m t d now clock b p.0
                (subst (λ j. Knows last (lookup j m)) (sym (bytes_eq→eq (key t d) k q)) h))
              (subst
                (λ j.
                  lookup j (insert (key t d) (counted m t d now clock b).0 m)
                  ≡ some (counted m t d now clock b).0)
                (bytes_eq→eq (key t d) k q)
                (lookup-insert_self (key t d) (counted m t d now clock b).0 m)))
        | inr q ↦ rw q (
            trips-Apart_from last (step m (settled t d now clock b)) evs p.1
              (rw (lookup-insert_ne (key t d) k (counted m t d now clock b).0 m q) h))
      ]

  -- From a new detector, whatever the messages, sweeps and their interleaving, as long as no message
  -- has the zero time: consecutive trips of one tenant and domain are at least a cooldown apart, and
  -- each belongs to a later hour than the one before it.
  pub trips-Apart : (evs : List (Event F)) → HasTimes evs → Apart cfg.cooldown none (trips [] evs)
  unfolding lookup
  trips-Apart evs p = trips-Apart_from none [] evs p refl
