-- ===== src/Correlate/Reason.antt =====
-- internal/correlate/rejection.go: the normalized reason of a rejection.
use mxsentinel.Prelude.{
  ℕ, ◌≤◌, ◌<◌, ◌≡◌, ◌≢◌, ◌↔◌, Bool, true, ◌&&◌, ◌||◌, Option, none, some, List, [], ◌∷◌, arith, ltb,
  leb, ◌==◌, if◌then◌else◌,
}
use mxsentinel.Prelude.Text.{Bytes, codes, bytes_eq, has_prefix, contains, contains_any, to_lower}

-- `unset` is the empty string, the value before anything is decided.
pub data Reason : Type 0 where
  reputation blocklist auth spam_content rate_limit greylist policy user_unknown mailbox_full
        connection tls unknown unset :
      Reason

pub record Rejection : Type 0 where
  pub category : Reason
  pub code : ℕ
  pub enhanced : Bytes
  pub transient : Bool

-- The switch on the code alone.
unfoldable pub classify_by_code : ℕ → Bool → Reason
classify_by_code code transient =
    if code == 421
    then rate_limit
    else if code == 450 || (code == 451 || code == 452)
    then greylist
    else if code == 550
    then policy
    else if code == 552
    then mailbox_full
    else if code == 554
    then policy
    else if transient
    then connection
    else unknown

unfoldable pub auth_words : List Bytes
auth_words =
    codes "spf"
    ∷ codes "dkim"
    ∷ codes "dmarc"
    ∷ codes "domainkeys"
    ∷ codes "sender id"
    ∷ codes "not authorized"
    ∷ codes "authentication failed"
    ∷ codes "failed authentication"
    ∷ []

unfoldable pub blocklist_words : List Bytes
blocklist_words =
    codes "spamhaus"
    ∷ codes "spamcop"
    ∷ codes "barracuda"
    ∷ codes "blocklist"
    ∷ codes "blacklist"
    ∷ codes "blocked using"
    ∷ codes "rbl"
    ∷ codes "dnsbl"
    ∷ codes "on a block list"
    ∷ codes "on a blocklist"
    ∷ []

unfoldable pub reputation_words : List Bytes
reputation_words =
    codes "reputation"
    ∷ codes "poor reputation"
    ∷ codes "ip reputation"
    ∷ codes "sender reputation"
    ∷ codes "unsolicited"
    ∷ codes "complaints"
    ∷ codes "complaint rate"
    ∷ []

unfoldable pub spam_words : List Bytes
spam_words =
    codes "spam"
    ∷ codes "bulk"
    ∷ codes "junk"
    ∷ codes "content"
    ∷ codes "phishing"
    ∷ codes "malware"
    ∷ codes "virus"
    ∷ []

unfoldable pub greylist_words : List Bytes
greylist_words =
    codes "greylist"
    ∷ codes "grey list"
    ∷ codes "graylist"
    ∷ codes "deferred. please try"
    ∷ codes "temporarily deferred"
    ∷ []

unfoldable pub rate_words : List Bytes
rate_words =
    codes "rate limit"
    ∷ codes "rate limited"
    ∷ codes "too many"
    ∷ codes "throttl"
    ∷ codes "421 4.7.0"
    ∷ codes "try again later"
    ∷ codes "connection limit"
    ∷ codes "exceeded the maximum"
    ∷ []

unfoldable pub user_words : List Bytes
user_words =
    codes "user unknown"
    ∷ codes "no such user"
    ∷ codes "recipient not found"
    ∷ codes "mailbox unavailable"
    ∷ codes "does not exist"
    ∷ codes "invalid recipient"
    ∷ codes "address rejected"
    ∷ []

unfoldable pub full_words : List Bytes
full_words =
    codes "quota" ∷ codes "mailbox full" ∷ codes "over quota" ∷ codes "insufficient storage" ∷ []

unfoldable pub tls_words : List Bytes
tls_words = codes "tls" ∷ codes "starttls" ∷ codes "certificate" ∷ codes "cipher" ∷ []

unfoldable pub policy_words : List Bytes
policy_words =
    codes "policy"
    ∷ codes "rejected due to policy"
    ∷ codes "message rejected"
    ∷ codes "not accepted"
    ∷ []

unfoldable pub connection_words : List Bytes
connection_words =
    codes "timed out"
    ∷ codes "timeout"
    ∷ codes "connection refused"
    ∷ codes "no route"
    ∷ codes "could not connect"
    ∷ codes "connection reset"
    ∷ []

-- The second switch: the words of the text, in their order, and then the code.
unfoldable pub by_text : Bytes → ℕ → Bool → Reason
by_text text code transient =
    if contains_any text auth_words
    then auth
    else if contains_any text blocklist_words
    then blocklist
    else if contains_any text reputation_words
    then reputation
    else if contains_any text spam_words
    then spam_content
    else if contains_any text greylist_words
    then greylist
    else if contains_any text rate_words
    then rate_limit
    else if contains_any text user_words
    then user_unknown
    else if contains_any text full_words
    then mailbox_full
    else if contains_any text tls_words
    then tls
    else if contains_any text policy_words
    then policy
    else if contains_any text connection_words
    then connection
    else classify_by_code code transient

unfoldable pub google_override : Bytes → Reason → Reason
google_override text r =
    let first =
      if contains text (codes "5.7.26") || contains text (codes "unauthenticated email")
      then auth
      else r in
    if contains text (codes "5.7.1") && contains text (codes "blocked") then reputation else first

unfoldable pub microsoft_override : Bytes → Reason → Reason
microsoft_override text r =
    let first =
      if contains_any text (
        codes "s3140"
        ∷ codes "s3150"
        ∷ codes "550 5.7.1 unfortunately"
        ∷ codes "high probability of spam"
        ∷ [])
      then reputation
      else r in
    if contains_any text (codes "access denied" ∷ codes "banned sending ip" ∷ [])
    then blocklist
    else first

unfoldable pub yahoo_override : Bytes → Reason → Reason
yahoo_override text r =
    if contains_any text
      (codes "[ts03]" ∷ codes "[ts04]" ∷ codes "temporarily deferred due to user complaints" ∷ [])
    then reputation
    else r

-- The switch on the lower-cased provider.
unfoldable pub override : Bytes → Bytes → Reason → Reason
override provider text r =
    if bytes_eq provider (codes "google")
    then google_override text r
    else if bytes_eq provider (codes "microsoft")
    then microsoft_override text r
    else if bytes_eq provider (codes "yahoo")
    then yahoo_override text r
    else r

-- The first switch: a mailbox status returns at once, unless the status is the overloaded X.7.1.
unfoldable pub by_status : Bytes → Option Reason
by_status enhanced =
    if has_prefix (codes "5.7.1") enhanced || has_prefix (codes "4.7.1") enhanced
    then none
    else if has_prefix (codes "5.1.1") enhanced || has_prefix (codes "5.1.0") enhanced
    then some user_unknown
    else if has_prefix (codes "4.2.2") enhanced || has_prefix (codes "5.2.2") enhanced
    then some mailbox_full
    else none

abbrev settled : Option Reason → Reason → Reason
settled none r = r
settled (some s) r = s

unfoldable pub is_transient_code : ℕ → Bool
is_transient_code code = leb 400 code && ltb code 500

unfoldable pub classify_rejection : ℕ → Bytes → Bytes → Bytes → Rejection
classify_rejection code enhanced response_text provider =
    let transient = is_transient_code code in
    let text = to_lower response_text in
    record {
      category =
          settled (by_status enhanced)
            (override (to_lower provider) text (by_text text code transient));
      code = code;
      enhanced = enhanced;
      transient = transient;
    }

by_code_decided : (code : ℕ) (t : Bool) → classify_by_code code t ≢ unset
unfolding classify_by_code
by_code_decided code t h = ground arith

by_text_decided : (text : Bytes) (code : ℕ) (t : Bool) → by_text text code t ≢ unset
unfolding by_text
by_text_decided text code t h = ground (arith, by_code_decided code t)

override_decided :
    (provider text : Bytes) (r : Reason) → r ≢ unset → override provider text r ≢ unset
unfolding override google_override microsoft_override yahoo_override
override_decided provider text r d h = ground (arith, d)

-- Every rejection gets a reason: the category is never left empty, so a rejected delivery always
-- counts towards one; and the transient flag is exactly a 4xx code.
pub classify_rejection-decided :
    (code : ℕ) (enhanced response_text provider : Bytes)
    → let r = classify_rejection code enhanced response_text provider in
      (r.category ≢ unset) × ((r.transient ≡ true) ↔ ((400 ≤ code) × (code < 500)))
unfolding classify_rejection is_transient_code by_status
classify_rejection-decided code enhanced response_text provider =
    (decided, ((λ h. (ground arith, ground arith)), λ h. ground arith))
  where
    decided : (classify_rejection code enhanced response_text provider).category ≢ unset
    decided h = ground (
      arith,
      override_decided (to_lower provider) (to_lower response_text)
          (by_text (to_lower response_text) code (is_transient_code code))
          (by_text_decided (to_lower response_text) code (is_transient_code code)),
    )
