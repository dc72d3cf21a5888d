-- ===== src/Telemetry/Words.antt =====
-- What single words of a mail log mean: internal/telemetry/provider.go, privacy.go, and the helpers
-- of postfix.go.
use mxsentinel.Prelude.{
  ℕ, ◌+◌, ◌-◌, ◌*◌, Bool, true, false, ◌||◌, Option, none, some, [], ◌∷◌, ◌++◌, ltb, leb, ◌==◌,
  if◌then◌else◌, length, take,
}
use mxsentinel.Prelude.Text.{
  Bytes, codes, bytes_eq, is_empty, has_prefix, contains, contains_any, to_lower, trim_space,
  trim_dot, after_last_at,
}

-- The `outcome` of a payload, with the event type of the same name.
pub data MailOutcome : Type 0 where
  delivered deferred bounced : MailOutcome

pub data BounceClass : Type 0 where
  no_bounce spam block auth policy soft hard unknown : BounceClass

unfoldable pub map_status : Bytes → Option MailOutcome
map_status status =
    let s = to_lower status in
    if bytes_eq s (codes "sent")
    then some delivered
    else if bytes_eq s (codes "deferred")
    then some deferred
    else if bytes_eq s (codes "bounced") || bytes_eq s (codes "expired")
    then some bounced
    else none

unfoldable pub is_delivered : MailOutcome → Bool
is_delivered delivered = true
is_delivered _ = false

unfoldable pub is_deferred : MailOutcome → Bool
is_deferred deferred = true
is_deferred _ = false

unfoldable pub classify_bounce : MailOutcome → Bytes → ℕ → Bytes → BounceClass
unfolding is_delivered is_deferred
classify_bounce outcome dsn code response =
    let r = to_lower response in
    if is_delivered outcome
    then no_bounce
    else if contains_any r (codes "spam" ∷ codes "bulk" ∷ codes "junk" ∷ [])
    then spam
    else if contains_any r (
        codes "blocked"
        ∷ codes "blacklist"
        ∷ codes "blocklist"
        ∷ codes "denylist"
        ∷ codes "reputation"
        ∷ [])
    then block
    else if contains_any r
        (codes "spf" ∷ codes "dkim" ∷ codes "dmarc" ∷ codes "authentication" ∷ [])
    then auth
    else if has_prefix (codes "5.7") dsn
    then policy
    else if is_deferred outcome
    then soft
    else if has_prefix (codes "5.1") dsn
        || contains_any r
            (codes "user unknown" ∷ codes "no such user" ∷ codes "does not exist" ∷ [])
    then hard
    else if leb 500 code
    then hard
    else unknown

-- The label of a destination's host, empty for an empty host.
unfoldable pub classify_provider : Bytes → Bytes
classify_provider mx_host =
    let h = to_lower (trim_dot (trim_space mx_host)) in
    if is_empty h
    then []
    else if contains_any h (codes "google.com" ∷ codes "googlemail.com" ∷ [])
    then codes "google"
    else if contains_any h (
        codes "outlook.com"
        ∷ codes "hotmail.com"
        ∷ codes "office365.com"
        ∷ codes "protection.outlook"
        ∷ [])
    then codes "microsoft"
    else if contains_any h (codes "yahoodns.net" ∷ codes "yahoo.com" ∷ codes "yahoo.co" ∷ [])
    then codes "yahoo"
    else if contains_any h (codes "icloud.com" ∷ codes "apple.com" ∷ codes "me.com" ∷ [])
    then codes "apple"
    else if contains_any h (codes "protonmail" ∷ codes "proton.me" ∷ [])
    then codes "proton"
    else if contains_any h (codes "pphosted.com" ∷ codes "proofpoint" ∷ [])
    then codes "proofpoint"
    else if contains h (codes "mimecast")
    then codes "mimecast"
    else codes "other"

abbrev or_blank : Option Bytes → Bytes
or_blank none = []
or_blank (some s) = s

-- What follows the last `@`, or nothing.
unfoldable pub domain_part : Bytes → Bytes
unfolding after_last_at
domain_part address = or_blank (after_last_at (to_lower (trim_space address)))

unfoldable pub truncate : Bytes → ℕ → Bytes
truncate s n = if ltb n (length s) then take n s else s

-- What stands before the first colon, when there is one.
unfoldable pub before_colon : Bytes → Option Bytes
before_colon [] = none
before_colon (c ∷ s) = if c == 58 then some [] else grown c (before_colon s)
  where
    grown : ℕ → Option Bytes → Option Bytes
    grown c none = none
    grown c (some t) = some (c ∷ t)

-- A colon in front does not count.
abbrev port_removed : Bytes → Option Bytes → Bytes
port_removed relay none = relay
port_removed relay (some []) = relay
port_removed relay (some (c ∷ t)) = c ∷ t

abbrev host_of : Bytes → Option Bytes → Bytes
host_of relay (some host) = trim_space host
host_of relay none = port_removed relay (before_colon relay)

-- `parseRelayHost`, over the first group of `reHostIP`.
unfoldable pub parse_relay_host : (Bytes → Option Bytes) → Bytes → Bytes
unfolding before_colon
parse_relay_host host_ip relay =
    if is_empty relay || (bytes_eq relay (codes "none") || has_prefix (codes "local") relay)
    then []
    else host_of relay (host_ip relay)

-- The last byte of a text is `c`.
unfoldable pub ends_with : ℕ → Bytes → Bool
ends_with c [] = false
ends_with c (d ∷ s) = let rest = ends_with c s in if is_empty s then d == c else rest

unfoldable pub closed : Bytes → Bytes
unfolding ends_with
closed s = if ends_with 62 s then s else s ++ (62 ∷ [])

unfoldable pub ensure_angle : Bytes → Bytes
unfolding closed
ensure_angle id =
    let s = trim_space id in
    if is_empty s then [] else closed (if has_prefix (60 ∷ []) s then s else 60 ∷ s)

unfoldable pub value_of : ℕ → Bytes → ℕ
value_of acc [] = acc
value_of acc (c ∷ s) = value_of (acc * 10 + (c - 48)) s

-- strconv.Atoi on a run of digits; out of range it gives the largest int.
unfoldable pub atoi_capped : Bytes → ℕ
unfolding value_of
atoi_capped s = let n = value_of 0 s in if ltb n 9223372036854775808 then n else 9223372036854775807
