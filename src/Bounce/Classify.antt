-- ===== src/Bounce/Classify.antt =====
-- internal/bounce/classify.go. An SMTP reply code is a natural number, 0 if unknown; the patterns
-- and the parts of an enhanced status are byte strings.
use mxsentinel.Prelude.{ℕ, Bool, true, false, ◌&&◌, ◌||◌, List, [], ◌∷◌, if◌then◌else◌, leb, ltb}
use mxsentinel.Prelude.Text.{
  Bytes, codes, bytes_eq, contains_any, is_empty, to_lower, trim_space, split,
}

pub data Category : Type 0 where
  hard soft block spam_block invalid_recipient mailbox_full reputation unknown : Category

unfoldable pub is_transient : Category → Bool
is_transient soft = true
is_transient mailbox_full = true
is_transient _ = false

unfoldable pub greylist_patterns : List Bytes
greylist_patterns =
    codes "greylist"
    ∷ codes "grey-list"
    ∷ codes "graylist"
    ∷ codes "gray-list"
    ∷ codes "deferred due to policy"
    ∷ codes "come back later"
    ∷ codes "try again later"
    ∷ []

unfoldable pub invalid_recipient_patterns : List Bytes
invalid_recipient_patterns =
    codes "user unknown"
    ∷ codes "unknown user"
    ∷ codes "no such user"
    ∷ codes "no such recipient"
    ∷ codes "recipient unknown"
    ∷ codes "unknown recipient"
    ∷ codes "does not exist"
    ∷ codes "doesn't exist"
    ∷ codes "invalid recipient"
    ∷ codes "invalid mailbox"
    ∷ codes "recipient rejected"
    ∷ codes "recipient address rejected"
    ∷ codes "address rejected"
    ∷ codes "mailbox unavailable"
    ∷ codes "no mailbox"
    ∷ codes "mailbox not found"
    ∷ codes "unrouteable address"
    ∷ codes "unroutable address"
    ∷ codes "account has been disabled"
    ∷ codes "account is disabled"
    ∷ codes "user not found"
    ∷ codes "recipient not found"
    ∷ codes "not our customer"
    ∷ codes "user doesn't have"
    ∷ []

unfoldable pub mailbox_full_patterns : List Bytes
mailbox_full_patterns =
    codes "mailbox full"
    ∷ codes "mailbox is full"
    ∷ codes "over quota"
    ∷ codes "over the quota"
    ∷ codes "quota exceeded"
    ∷ codes "exceeded storage"
    ∷ codes "insufficient system storage"
    ∷ codes "out of storage"
    ∷ codes "recipient storage"
    ∷ codes "user is over"
    ∷ []

unfoldable pub reputation_patterns : List Bytes
reputation_patterns =
    codes "reputation"
    ∷ codes "blacklist"
    ∷ codes "black list"
    ∷ codes "blocklist"
    ∷ codes "block list"
    ∷ codes "denylist"
    ∷ codes "deny list"
    ∷ codes "dnsbl"
    ∷ codes "rbl"
    ∷ codes "spamhaus"
    ∷ codes "spamcop"
    ∷ codes "barracuda"
    ∷ codes "sorbs"
    ∷ codes "listed on"
    ∷ codes "listed in"
    ∷ codes "listed by"
    ∷ codes "listed at"
    ∷ codes "poor ip"
    ∷ codes "bad reputation"
    ∷ codes "sender ip"
    ∷ []

unfoldable pub spam_patterns : List Bytes
spam_patterns =
    codes "spam"
    ∷ codes "bulk"
    ∷ codes "junk"
    ∷ codes "unsolicited"
    ∷ codes "message content"
    ∷ codes "content rejected"
    ∷ codes "looks like spam"
    ∷ codes "identified as spam"
    ∷ codes "marked as spam"
    ∷ codes "high probability of spam"
    ∷ codes "phishing"
    ∷ []

unfoldable pub block_patterns : List Bytes
block_patterns =
    codes "access denied"
    ∷ codes "not allowed"
    ∷ codes "not permitted"
    ∷ codes "policy"
    ∷ codes "administrative prohibition"
    ∷ codes "administratively prohibited"
    ∷ codes "blocked"
    ∷ codes "refused"
    ∷ codes "rejected by"
    ∷ codes "connection refused"
    ∷ codes "delivery not authorized"
    ∷ []

pub record Parts : Type 0 where
  pub class : Bytes
  pub subject : Bytes
  pub detail : Bytes

abbrev pub no_parts : Parts
no_parts = record { class = []; subject = []; detail = [] }

-- The switch on `len(parts)`: only three pieces are a status.
unfoldable pub three_parts : List Bytes → Parts
three_parts (a ∷ b ∷ c ∷ []) = record { class = a; subject = b; detail = c }
three_parts _ = no_parts

unfoldable pub enhanced_parts : Bytes → Parts
unfolding three_parts trim_space split is_empty
enhanced_parts code =
    let trimmed = trim_space code in
    if is_empty trimmed then no_parts else three_parts (split b'.' trimmed)

-- The subject and detail that name a bad, moved or unroutable mailbox.
unfoldable pub is_invalid_detail : Bytes → Bool
is_invalid_detail d =
    bytes_eq d (codes "1")
    || (bytes_eq d (codes "2") || (bytes_eq d (codes "6") || bytes_eq d (codes "10")))

-- The last switch: permanence only.
unfoldable pub by_permanence : ℕ → Bytes → Category
by_permanence code class =
    if bytes_eq class (codes "5") || leb 500 code
    then hard
    else if bytes_eq class (codes "4") || (leb 400 code && ltb code 500)
    then soft
    else unknown

-- The checks of `Classify` in their order, on the lower-cased text and the parts of the status.
unfoldable pub classify_text : ℕ → Parts → Bytes → Category
unfolding is_invalid_detail by_permanence
classify_text code p text =
    if contains_any text greylist_patterns
    then soft
    else if bytes_eq p.subject (codes "1") && is_invalid_detail p.detail
    then invalid_recipient
    else if contains_any text invalid_recipient_patterns
    then invalid_recipient
    else if bytes_eq p.subject (codes "2") && bytes_eq p.detail (codes "2")
    then mailbox_full
    else if contains_any text mailbox_full_patterns
    then mailbox_full
    else if contains_any text reputation_patterns
    then reputation
    else if contains_any text spam_patterns
    then spam_block
    else if bytes_eq p.subject (codes "7")
    then block
    else if contains_any text block_patterns
    then block
    else by_permanence code p.class

unfoldable pub classify : ℕ → Bytes → Bytes → Category
unfolding classify_text
classify smtp_code enhanced_code response_text =
    classify_text smtp_code (enhanced_parts enhanced_code) (to_lower response_text)
