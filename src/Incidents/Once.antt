-- ===== src/Incidents/Once.antt =====
-- The bus delivers at least once (cmd/incidentd/main.go); the store keeps each incident once.
use mxsentinel.Prelude.{
  ◌≡◌, refl, ◌⊎◌, inl, inr, Bool, true, false, Option, none, some, List, [], ◌∷◌, arith, eq_refl,
  any, All,
}
use mxsentinel.Incidents.Mapping.{Envelope, IncidentInput, from_envelope}
use mxsentinel.Incidents.Storing.{same_event, insert_incident, store, on_event}
use mxsentinel.Incidents.Storable.{IsStorable, from_envelope-IsStorable}

module _ {F : Type 0} where
  -- The rows have different events.
  abbrev pub Distinct : List (IncidentInput F) → Type 0
  Distinct [] = Unit
  Distinct (r ∷ rows) = (any (same_event r) rows ≡ false) × Distinct rows

  -- The incident of an event, if it is one, is among the rows.
  abbrev Holds : List (IncidentInput F) → Option (IncidentInput F) → Type 0
  Holds rows none = Unit
  Holds rows (some i) = any (same_event i) rows ≡ true

  abbrev pub IsStored : List (IncidentInput F) → Envelope F → Type 0
  IsStored rows ev = Holds rows (from_envelope ev)

  -- The events are handled one after the other; the flag says that the statement fails.
  unfoldable pub deliver :
      List (Bool × Envelope F) → List (IncidentInput F) → List (IncidentInput F)
  deliver [] rows = rows
  deliver ((db_fails, ev) ∷ ds) rows = deliver ds (on_event db_fails rows ev).0

  same_event_refl : (i : IncidentInput F) → same_event i i ≡ true
  unfolding same_event
  same_event_refl i = rw (eq_refl i.tenant_id) rw (eq_refl i.source_event_id) refl

  store-Distinct :
      (db_fails : Bool) (rows : List (IncidentInput F)) (o : Option (IncidentInput F))
      → Distinct rows
      → Distinct (store db_fails rows o).0
  unfolding insert_incident
  store-Distinct db_fails rows none h = h
  store-Distinct db_fails rows (some i) h = ground arith

  -- What is held stays held.
  store-Holds :
      (db_fails : Bool) (rows : List (IncidentInput F)) (o q : Option (IncidentInput F))
      → Holds rows q
      → Holds (store db_fails rows o).0 q
  unfolding insert_incident any
  store-Holds db_fails rows none q h = h
  store-Holds db_fails rows (some i) none h = tt
  store-Holds db_fails rows (some i) (some j) h = ground arith

  store-Holds_new :
      (rows : List (IncidentInput F)) (o : Option (IncidentInput F))
      → ((i : IncidentInput F) → o ≡ some i → IsStorable i)
      → Holds (store false rows o).0 o
  unfolding insert_incident any
  store-Holds_new rows none s = tt
  store-Holds_new rows (some i) s = ground (arith, s i refl, same_event_refl i)

  on_event-Distinct :
      (db_fails : Bool) (rows : List (IncidentInput F)) (ev : Envelope F)
      → Distinct rows
      → Distinct (on_event db_fails rows ev).0
  unfolding on_event
  on_event-Distinct db_fails rows ev h = store-Distinct db_fails rows (from_envelope ev) h

  deliver-Holds :
      (ds : List (Bool × Envelope F)) (rows : List (IncidentInput F)) (q : Option (IncidentInput F))
      → Holds rows q
      → Holds (deliver ds rows) q
  unfolding deliver on_event
  deliver-Holds [] rows q h = h
  deliver-Holds ((db_fails, ev) ∷ ds) rows q h =
      deliver-Holds ds (store db_fails rows (from_envelope ev)).0 q
        (store-Holds db_fails rows (from_envelope ev) q h)

  handled-Holds :
      (db_fails : Bool) (rows : List (IncidentInput F)) (ev : Envelope F)
      → (db_fails ≡ true) ⊎ IsStored (on_event db_fails rows ev).0 ev
  unfolding on_event
  handled-Holds true rows ev = inl refl
  handled-Holds false rows ev =
      inr (store-Holds_new rows (from_envelope ev) (λ i e. from_envelope-IsStorable ev i e))

  deliver-Holds-All :
      (ds : List (Bool × Envelope F)) (rows : List (IncidentInput F))
      → All (λ d. (d.0 ≡ true) ⊎ IsStored (deliver ds rows) d.1) ds
  unfolding deliver
  deliver-Holds-All [] rows = tt
  deliver-Holds-All ((db_fails, ev) ∷ ds) rows = (
    elim (handled-Holds db_fails rows ev) [
      | inl f ↦ inl f
      | inr s ↦ inr (deliver-Holds ds (on_event db_fails rows ev).0 (from_envelope ev) s)
    ],
    deliver-Holds-All ds (on_event db_fails rows ev).0,
  )

  deliver-Distinct_from :
      (ds : List (Bool × Envelope F)) (rows : List (IncidentInput F))
      → Distinct rows
      → Distinct (deliver ds rows)
  unfolding deliver
  deliver-Distinct_from [] rows h = h
  deliver-Distinct_from ((db_fails, ev) ∷ ds) rows h =
      deliver-Distinct_from ds (on_event db_fails rows ev).0 (on_event-Distinct db_fails rows ev h)

  -- However often and in whatever order events are delivered, with the insert failing at any of
  -- them, for any reason but its two enums: no two rows belong to one event of a tenant, and each
  -- event that was handled where the insert did not so fail has its incident, if it is one, among the
  -- rows.
  pub deliver-Distinct :
      (ds : List (Bool × Envelope F))
      → Distinct (deliver ds []) × All (λ d. (d.0 ≡ true) ⊎ IsStored (deliver ds []) d.1) ds
  deliver-Distinct ds = (deliver-Distinct_from ds [] tt, deliver-Holds-All ds [])
