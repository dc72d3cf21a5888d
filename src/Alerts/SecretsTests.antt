-- ===== src/Alerts/SecretsTests.antt =====
-- A stored configuration of a Slack channel, with a codec whose texts are the maps themselves.
use mxsentinel.Prelude.{
  ℕ, ◌≡◌, refl, Bool, true, false, Option, none, some, [], ◌∷◌, str_eq, if◌then◌else◌,
}
use mxsentinel.Prelude.Assoc.{lookup, insert, string_key}
use mxsentinel.Alerts.Secrets.{
  Value, text, other, Fields, Codec, Encryptor, seal_config, preserve_redacted_secrets,
}
use mxsentinel.Alerts.Echo.{Echoes, preserve-redact}

abbrev Raw : Type 0
Raw = Option (Fields ℕ)

abbrev map_of : Raw → Option (Option (Fields ℕ))
map_of none = none
map_of (some m) = some (some m)

abbrev no_text : Raw → Bool
no_text none = true
no_text (some m) = false

abbrev codec : Codec ℕ Raw
codec = record { unmarshal = map_of; marshal = λ m. some (some m); is_blank = no_text }

abbrev cipher : Encryptor
cipher = record {
  seal = λ v. if str_eq v "hook" then some "sealed" else none;
  open_sealed = λ v. if str_eq v "sealed" then some "hook" else none;
}

abbrev plain : Fields ℕ
plain = ("webhook_url", text "hook") ∷ ("retries", other 3) ∷ []

abbrev stored : Fields ℕ
stored = ("webhook_url", text "sealed") ∷ ("retries", other 3) ∷ []

seals : seal_config codec (some cipher) "slack" (some plain) ≡ some (some stored)
unfolding seal_config mxsentinel.Alerts.Secrets.transform_config
    mxsentinel.Alerts.Secrets.secret_fields lookup insert
seals = refl

-- A new secret replaces the stored one.
new_secret :
    preserve_redacted_secrets codec
      (some cipher)
      "slack"
      (some (("webhook_url", text "new") ∷ []))
      (some stored)
    ≡ some (some (("webhook_url", text "new") ∷ []))
unfolding preserve_redacted_secrets mxsentinel.Alerts.Secrets.secret_fields
    mxsentinel.Alerts.Secrets.transform_config lookup
new_secret = refl

preserve-redact_example :
    Echoes codec
      (λ m. (some m, refl, refl, refl))
      (some cipher)
      "slack"
      (some stored)
      "webhook_url"
      "hook"
      stored
unfolding insert lookup mxsentinel.Alerts.Secrets.secret_fields
    mxsentinel.Alerts.Secrets.decode_config mxsentinel.Alerts.Secrets.open_value
preserve-redact_example =
    preserve-redact codec (λ m. (some m, refl, refl, refl)) (some cipher) "slack" (some stored)
      "webhook_url" "sealed" "hook" stored refl refl refl refl refl refl
