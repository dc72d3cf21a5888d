-- ===== src/Alerts/Echo.antt =====
-- A configuration that is shown redacted and posted back (internal/alertchannels/secrets.go).
use mxsentinel.Prelude.{
  ◌≡◌, refl, ◌∙◌, ◌⊎◌, inl, inr, true, false, Option, some, [], ◌∷◌, String, str_eq, Bool-cases,
}
use mxsentinel.Prelude.Assoc.{lookup, insert, string_key, lookup-insert_self, lookup-insert_ne}
use mxsentinel.Alerts.Secrets.{
  text, Fields, Codec, Encryptor, secret_fields, redacted_value, open_value, redact_value,
  decode_config, transform_field, transform_fields, transform_config, open_config, redact_config,
  is_kept, restore_field, restore_fields, preserve_fields, preserve_redacted_secrets,
}

-- A map that is marshalled is unmarshalled to the same map, from a text that is not empty.
abbrev pub RoundTrips : {J R : Type 0} → Codec J R → Type 0
RoundTrips {J} {R} c =
    (m : Fields J)
    → (raw : R) × (c.marshal m ≡ some raw)
      × (c.is_blank raw ≡ false)
      × (c.unmarshal raw ≡ some (some m))

module _ {J R : Type 0} (c : Codec J R) (law : RoundTrips c) where
  decode-marshal :
      (m : Fields J) → (raw : R) × (c.marshal m ≡ some raw) × (decode_config c raw ≡ some m)
  unfolding decode_config
  decode-marshal m = let (raw, e, n, u) = law m in (raw, e, rw n rw u refl)

  -- One secret field that holds a text is replaced.
  transform_one :
      (raw : R) (f s v : String) (m : Fields J) (fn : String → Option String)
      → decode_config c raw ≡ some m
      → lookup f m ≡ some (text s)
      → str_eq s "" ≡ false
      → fn s ≡ some v
      → (out : R) × (transform_config c raw (f ∷ []) fn ≡ some out)
        × (decode_config c out ≡ some (insert f (text v) m))
  unfolding transform_config transform_fields transform_field
  transform_one raw f s v m fn d l n e =
      let (out, p, q) = decode-marshal (insert f (text v) m) in (out, rw d rw l rw n rw e p, q)

  redact_one :
      (raw : R) (f s : String) (m : Fields J)
      → decode_config c raw ≡ some m
      → lookup f m ≡ some (text s)
      → str_eq s "" ≡ false
      → (out : R) × (transform_config c raw (f ∷ []) redact_value ≡ some out)
        × (decode_config c out ≡ some (insert f (text redacted_value) m))
  unfolding redact_value
  redact_one raw f s m d l n = transform_one raw f s redacted_value m redact_value d l n (rw n refl)

  restore_one :
      (f p : String) (m : Fields J)
      → str_eq p "" ≡ false
      → restore_fields (f ∷ []) (insert f (text p) m) (insert f (text redacted_value) m)
        ≡ insert f (text p) (insert f (text redacted_value) m)
  unfolding restore_fields is_kept restore_field
  restore_one f p m n =
      rw (lookup-insert_self f (text redacted_value) m) rw (lookup-insert_self f (text p) m) rw n
        refl

  -- What the dashboard gets and what is kept when it sends that back.
  abbrev pub Echoes : Option Encryptor → String → R → String → String → Fields J → Type 0
  Echoes enc ch_type existing f p m =
      (shown : R) × (out : R) × (kept : Fields J) × (redact_config c ch_type existing ≡ some shown)
      × (decode_config c shown ≡ some (insert f (text redacted_value) m))
      × (preserve_redacted_secrets c enc ch_type shown existing ≡ some out)
      × (decode_config c out ≡ some kept)
      × (lookup f kept ≡ some (text p))
      × ((g : String) → (str_eq f g ≡ true) ⊎ (lookup g kept ≡ lookup g m))

  -- With a JSON codec that reads back what it writes: of a stored configuration whose secret field
  -- holds a text that opens to a secret, not empty, the redacted view differs only in that field,
  -- where it has the marker; when it is posted back unchanged, what is kept has the secret in
  -- plain text again, and all other fields as they were stored.
  pub preserve-redact :
      (enc : Option Encryptor) (ch_type : String) (existing : R) (f s p : String) (m : Fields J)
      → secret_fields ch_type ≡ f ∷ []
      → decode_config c existing ≡ some m
      → lookup f m ≡ some (text s)
      → str_eq s "" ≡ false
      → open_value enc s ≡ some p
      → str_eq p "" ≡ false
      → Echoes enc ch_type existing f p m
  unfolding redact_config preserve_redacted_secrets preserve_fields open_config
  preserve-redact enc ch_type existing f s p m k d l n o e =
      let (shown, r, v) = redact_one existing f s m d l n in
      let (opened, r', v') = transform_one existing f s p m (open_value enc) d l n o in
      let (out, r'', v'') = decode-marshal (insert f (text p) (insert f (text redacted_value) m)) in
      (
        shown,
        out,
        insert f (text p) (insert f (text redacted_value) m),
        rw k r,
        v,
        rw k rw k rw r' rw v' rw v rw (restore_one f p m e) r'',
        v'',
        lookup-insert_self f (text p) (insert f (text redacted_value) m),
        λ g. elim (Bool-cases (str_eq f g)) [
          | inl q ↦ inl q
          | inr q ↦ inr (
              lookup-insert_ne f g (text p) (insert f (text redacted_value) m) q
              ∙ lookup-insert_ne f g (text redacted_value) m q)
        ],
      )
