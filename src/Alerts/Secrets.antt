-- ===== src/Alerts/Secrets.antt =====
-- internal/alertchannels/secrets.go: sealing, opening, redacting and preserving the secrets of a
-- configuration. The JSON codec and the cipher are parameters; an error is `none`.
use mxsentinel.Prelude.{
  Bool, true, ◌||◌, Option, none, some, List, [], ◌∷◌, String, str_eq, if◌then◌else◌,
}
use mxsentinel.Prelude.Assoc.{lookup, insert, string_key}

-- A JSON value: a string, or anything else.
pub data Value (J : Type 0) : Type 0 where
  text : String → Value J
  other : J → Value J

abbrev pub Fields : Type 0 → Type 0
Fields J = List (String × Value J)

-- json.Unmarshal into a map, where `null` gives no map, and json.Marshal, over texts of the type `R`,
-- of which the code asks only whether they are empty.
pub record Codec (J R : Type 0) : Type 0 where
  pub unmarshal : R → Option (Option (Fields J))
  pub marshal : Fields J → Option R
  pub is_blank : R → Bool

pub record Encryptor : Type 0 where
  pub seal : String → Option String
  pub open_sealed : String → Option String

unfoldable pub secret_fields : String → List String
secret_fields ch_type =
    if str_eq ch_type "slack"
    then "webhook_url" ∷ []
    else if str_eq ch_type "webhook"
    then "signing_secret" ∷ []
    else if str_eq ch_type "pagerduty"
    then "routing_key" ∷ []
    else if str_eq ch_type "telegram"
    then "bot_token" ∷ []
    else []

unfoldable pub redacted_value : String
redacted_value = "***"

abbrev pub bind : {A B : Type 0} → Option A → (A → Option B) → Option B
bind none f = none
bind (some a) f = f a

-- The functions that the three callers pass to `transformConfig`.
unfoldable pub seal_value : Option Encryptor → String → Option String
seal_value none v = some v
seal_value (some enc) v = enc.seal v

unfoldable pub open_value : Option Encryptor → String → Option String
open_value none v = some v
open_value (some enc) v = enc.open_sealed v

unfoldable pub redact_value : String → Option String
unfolding redacted_value
redact_value v = if str_eq v "" then some "" else some redacted_value

module _ {J : Type 0} where
  abbrev or_empty : Option (Fields J) → Fields J
  or_empty none = []
  or_empty (some m) = m

  -- One field of the loop of `transformConfig`.
  unfoldable pub transform_field :
      (String → Option String) → String → Fields J → Option (Value J) → Option (Fields J)
  transform_field fn f m none = some m
  transform_field fn f m (some (other j)) = some m
  transform_field fn f m (some (text s)) =
      if str_eq s "" then some m else bind (fn s) (λ v. some (insert f (text v) m))

  unfoldable pub transform_fields :
      (String → Option String) → List String → Fields J → Option (Fields J)
  unfolding transform_field
  transform_fields fn [] m = some m
  transform_fields fn (f ∷ fs) m =
      bind (transform_field fn f m (lookup f m)) (λ m'. transform_fields fn fs m')

  -- A value that the caller has not supplied anew: absent, no string, empty or the marker.
  unfoldable pub is_kept : Option (Value J) → Bool
  unfolding redacted_value
  is_kept none = true
  is_kept (some (other j)) = true
  is_kept (some (text v)) = str_eq v "" || str_eq v redacted_value

  unfoldable pub restore_field : String → Option (Value J) → Fields J → Fields J
  restore_field f none m = m
  restore_field f (some (other j)) m = m
  restore_field f (some (text old)) m = if str_eq old "" then m else insert f (text old) m

  -- The loop of `PreserveRedactedSecrets`.
  unfoldable pub restore_fields : List String → Fields J → Fields J → Fields J
  unfolding is_kept restore_field
  restore_fields [] prev m = m
  restore_fields (f ∷ fs) prev m =
      restore_fields fs prev (if is_kept (lookup f m) then restore_field f (lookup f prev) m else m)

module _ {J R : Type 0} where
  unfoldable pub decode_config : Codec J R → R → Option (Fields J)
  decode_config c raw =
      if c.is_blank raw then some [] else bind (c.unmarshal raw) (λ o. some (or_empty o))

  unfoldable pub transform_config :
      Codec J R → R → List String → (String → Option String) → Option R
  unfolding decode_config transform_fields
  transform_config c raw fs fn =
      bind (bind (decode_config c raw) (λ m. transform_fields fn fs m)) (λ m. c.marshal m)

  unfoldable pub seal_config : Codec J R → Option Encryptor → String → R → Option R
  unfolding seal_value
  seal_config c enc ch_type raw = transform_config c raw (secret_fields ch_type) (seal_value enc)

  unfoldable pub open_config : Codec J R → Option Encryptor → String → R → Option R
  unfolding open_value
  open_config c enc ch_type raw = transform_config c raw (secret_fields ch_type) (open_value enc)

  unfoldable pub redact_config : Codec J R → String → R → Option R
  unfolding redact_value
  redact_config c ch_type raw = transform_config c raw (secret_fields ch_type) redact_value

  unfoldable pub preserve_fields :
      Codec J R → Option Encryptor → String → List String → R → R → Option R
  unfolding open_config decode_config restore_fields
  preserve_fields c enc ch_type [] incoming existing = some incoming
  preserve_fields c enc ch_type (f ∷ fs) incoming existing =
      bind (open_config c enc ch_type existing) (λ raw.
        bind (decode_config c raw) (λ prev.
          bind (decode_config c incoming) (λ m. c.marshal (restore_fields (f ∷ fs) prev m))))

  unfoldable pub preserve_redacted_secrets :
      Codec J R → Option Encryptor → String → R → R → Option R
  unfolding preserve_fields
  preserve_redacted_secrets c enc ch_type incoming existing =
      preserve_fields c enc ch_type (secret_fields ch_type) incoming existing
