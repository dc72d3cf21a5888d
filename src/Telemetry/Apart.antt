-- ===== src/Telemetry/Apart.antt =====
-- internal/telemetry/postfix.go on a log in which the lines of many messages are mixed.
use mxsentinel.Prelude.{select-append}
use mxsentinel.Telemetry.Parser.{put_sasl}
use mxsentinel.Telemetry.Parser.{with_from}
use mxsentinel.Telemetry.Parser.{with_size}
use mxsentinel.Telemetry.Parser.{put_message_id}
use mxsentinel.Telemetry.Parser.{set_field}
use mxsentinel.Prelude.{
  ℕ, ◌≡◌, refl, sym, ap, ◌∙◌, ◌⊎◌, inl, inr, Bool, true, false, ◌&&◌, Option, none, some, List, [],
  ◌∷◌, ◌++◌, Bool-cases, select,
}
use mxsentinel.Prelude.Text.{Bytes, codes, bytes_eq, bytes_eq→eq, bytes_eq_refl, contains}
use mxsentinel.Prelude.Assoc.{
  lookup, insert, bytes_key, lookup-insert_self, lookup-insert_ne, lookup-erase_self,
  lookup-erase_ne,
}
use mathlib.Core.Path.{subst}
use mxsentinel.Telemetry.Words.{MailOutcome}
use mxsentinel.Telemetry.Parser.{
  Matchers, MsgState, Event, States, state_of, emitted, status_of, emit, payload_of, parse_kv,
  parse_tagged, tagged, parse, parse_all,
}

unfoldable pub is_about : Bytes → Event → Bool
is_about qid e = bytes_eq e.payload.queue_id qid

abbrev pub is_tagged : Bytes → Option (Bytes × Bytes) → Bool
is_tagged qid none = false
is_tagged qid (some (j, kv)) = bytes_eq j qid

module _ (m : Matchers) (relay_ip : Bytes) where
  -- The lines of one message.
  abbrev pub own_lines : Bytes → List Bytes → List Bytes
  own_lines qid lines = select (λ l. is_tagged qid (tagged m l)) lines

  abbrev pub Result : Type 0
  Result = States × List Event

  -- Nothing about `qid` happens.
  abbrev pub IsElsewhere : Bytes → States → Result → Type 0
  IsElsewhere qid states r = (lookup qid r.0 ≡ lookup qid states) × (select (is_about qid) r.1 ≡ [])

  -- The same happens to `qid`, and all that happens is about it.
  abbrev pub IsSame : Bytes → Result → Result → Type 0
  IsSame qid r r' =
      (lookup qid r.0 ≡ lookup qid r'.0) × (r.1 ≡ r'.1) × (select (is_about qid) r.1 ≡ r.1)

  emitted_elsewhere :
      (j kv : Bytes) (time : ℕ) (st : MsgState) (o : Option MailOutcome) (qid : Bytes)
      → bytes_eq j qid ≡ false
      → select (is_about qid) (emitted m relay_ip j kv time st o) ≡ []
  unfolding select is_about payload_of
  emitted_elsewhere j kv time st none qid h = refl
  emitted_elsewhere j kv time st (some o) qid h = rw h refl

  emitted_about :
      (qid kv : Bytes) (time : ℕ) (st : MsgState) (o : Option MailOutcome)
      → select (is_about qid) (emitted m relay_ip qid kv time st o)
        ≡ emitted m relay_ip qid kv time st o
  unfolding select is_about payload_of
  emitted_about qid kv time st none = refl
  emitted_about qid kv time st (some o) = rw (bytes_eq_refl qid) refl

  set_field_elsewhere :
      (put : MsgState → Bytes → MsgState) (o : Option Bytes) (j qid : Bytes) (states : States)
      → bytes_eq j qid ≡ false
      → lookup qid (set_field m put o j states) ≡ lookup qid states
  set_field_elsewhere put none j qid states h = refl
  set_field_elsewhere put (some v) j qid states h =
      lookup-insert_ne j qid (put (state_of (lookup j states)) v) states h

  insert_same :
      (qid : Bytes) (v v' : MsgState) (states states' : States)
      → v ≡ v'
      → lookup qid (insert qid v states) ≡ lookup qid (insert qid v' states')
  insert_same qid v v' states states' e =
      lookup-insert_self qid v states ∙ ap some e ∙ sym (lookup-insert_self qid v' states')

  set_field_same :
      (put : MsgState → Bytes → MsgState) (o : Option Bytes) (qid : Bytes) (states states' : States)
      → lookup qid states ≡ lookup qid states'
      → lookup qid (set_field m put o qid states) ≡ lookup qid (set_field m put o qid states')
  set_field_same put none qid states states' h = h
  set_field_same put (some v) qid states states' h =
      insert_same qid _ _ states states' (ap (λ o. put (state_of o) v) h)

  parse_kv-IsElsewhere :
      (j kv qid : Bytes) (time : ℕ) (states : States)
      → bytes_eq j qid ≡ false
      → IsElsewhere qid states (parse_kv m relay_ip j kv time states)
  unfolding parse_kv emit select
  parse_kv-IsElsewhere j kv qid time states h = elim (Bool-cases (contains kv (codes "status="))) [
    | inl e0 ↦ rw e0 (
      refl,
      emitted_elsewhere j kv time (state_of (lookup j states)) (status_of m (m.status kv)) qid h,
    )
    | inr e0 ↦
        rw e0 (elim (Bool-cases (contains kv (codes "from=") && contains kv (codes "size="))) [
          | inl e1 ↦ rw e1 (lookup-insert_ne j qid _ states h, refl)
          | inr e1 ↦ rw e1 (elim (Bool-cases (contains kv (codes "message-id="))) [
            | inl e2 ↦
                rw e2 (set_field_elsewhere put_message_id (m.message_id kv) j qid states h, refl)
            | inr e2 ↦ rw e2 (elim (Bool-cases (contains kv (codes "sasl_username="))) [
              | inl e3 ↦
                  rw e3 (set_field_elsewhere put_sasl (m.sasl_username kv) j qid states h, refl)
              | inr e3 ↦ rw e3 (elim (Bool-cases (bytes_eq kv (codes "removed"))) [
                | inl e4 ↦ rw e4 (lookup-erase_ne j qid states h, refl)
                | inr e4 ↦ rw e4 ((refl, refl))
              ])
            ])
          ])
        ])
  ]

  parse_kv-IsSame :
      (qid kv : Bytes) (time : ℕ) (states states' : States)
      → lookup qid states ≡ lookup qid states'
      → IsSame qid
          (parse_kv m relay_ip qid kv time states)
          (parse_kv m relay_ip qid kv time states')
  unfolding parse_kv emit select
  parse_kv-IsSame qid kv time states states' h = elim (Bool-cases (contains kv (codes "status="))) [
    | inl e0 ↦ rw e0 (
      h,
      ap (λ st. emitted m relay_ip qid kv time (state_of st) (status_of m (m.status kv))) h,
      emitted_about qid kv time (state_of (lookup qid states)) (status_of m (m.status kv)),
    )
    | inr e0 ↦
        rw e0 (elim (Bool-cases (contains kv (codes "from=") && contains kv (codes "size="))) [
          | inl e1 ↦ rw e1 (
            insert_same qid _ _ states states'
                (ap (λ o. with_size m (m.size kv) (with_from m (m.from kv) (state_of o))) h),
            refl,
            refl,
          )
          | inr e1 ↦ rw e1 (elim (Bool-cases (contains kv (codes "message-id="))) [
            | inl e2 ↦
                rw e2
                  (set_field_same put_message_id (m.message_id kv) qid states states' h, refl, refl)
            | inr e2 ↦ rw e2 (elim (Bool-cases (contains kv (codes "sasl_username="))) [
              | inl e3 ↦
                  rw e3
                    (set_field_same put_sasl (m.sasl_username kv) qid states states' h, refl, refl)
              | inr e3 ↦ rw e3 (elim (Bool-cases (bytes_eq kv (codes "removed"))) [
                | inl e4 ↦
                    rw e4 (
                      lookup-erase_self qid states ∙ sym (lookup-erase_self qid states'),
                      refl,
                      refl,
                    )
                | inr e4 ↦ rw e4 ((h, refl, refl))
              ])
            ])
          ])
        ])
  ]

  pub tagged_step :
      (qid : Bytes) (t : Option (Bytes × Bytes)) (time : ℕ) (states states' : States)
      → lookup qid states ≡ lookup qid states'
      → ((is_tagged qid t ≡ true)
          × IsSame qid
              (parse_tagged m relay_ip t time states)
              (parse_tagged m relay_ip t time states'))
        ⊎ ((is_tagged qid t ≡ false)
            × IsElsewhere qid states (parse_tagged m relay_ip t time states))
  unfolding select
  tagged_step qid none time states states' h = inr (refl, (refl, refl))
  tagged_step qid (some (j, kv)) time states states' h = elim (Bool-cases (bytes_eq j qid)) [
    | inl e ↦
        let same = bytes_eq→eq j qid e in
        inl (
          e,
          subst
              (λ i.
                IsSame qid (parse_kv m relay_ip i kv time states)
                  (parse_kv m relay_ip i kv time states'))
              (sym same) (parse_kv-IsSame qid kv time states states' h),
        )
    | inr e ↦ inr (e, parse_kv-IsElsewhere j kv qid time states e)
  ]

  alone_from :
      (qid : Bytes) (lines : List Bytes) (states states' : States)
      → lookup qid states ≡ lookup qid states'
      → select (is_about qid) (parse_all m relay_ip lines states)
        ≡ parse_all m relay_ip (own_lines qid lines) states'
  unfolding parse_all parse select
  alone_from qid [] states states' h = refl
  alone_from qid (l ∷ lines) states states' h =
      let t = tagged m l in
      let one = parse_tagged m relay_ip t (m.time l) states in
      let one' = parse_tagged m relay_ip t (m.time l) states' in
      select-append (is_about qid) one.1 (parse_all m relay_ip lines one.0)
      ∙ (elim (tagged_step qid t (m.time l) states states' h) [
        | inl s ↦ rw s.0 (
            ap (λ es. es ++ select (is_about qid) (parse_all m relay_ip lines one.0))
              (s.1.2 ∙ s.1.1)
            ∙ ap (λ es. one'.1 ++ es) (alone_from qid lines one.0 one'.0 s.1.0))
        | inr s ↦ rw s.0 (
            ap (λ es. es ++ select (is_about qid) (parse_all m relay_ip lines one.0)) s.1.1
            ∙ alone_from qid lines one.0 states' (s.1.0 ∙ h))
      ])

  -- The events about a queue id, in a log with the lines of any other ids between, are those of the
  -- log of its own lines.
  pub parse_all-alone :
      (qid : Bytes) (lines : List Bytes)
      → select (is_about qid) (parse_all m relay_ip lines [])
        ≡ parse_all m relay_ip (own_lines qid lines) []
  parse_all-alone qid lines = alone_from qid lines [] [] refl
