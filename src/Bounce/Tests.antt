-- ===== src/Bounce/Tests.antt =====
-- Runs of the classifier, the policy and the export, and the theorems at concrete replies.
use mxsentinel.Prelude.Text.{contains}
use mxsentinel.Prelude.Text.{contains_any}
use mathlib.Core.List.{Memᴰ, Permᴰ}
use mxsentinel.Prelude.{
  ℕ, zero, suc, ◌+◌, ◌-◌, ◌*◌, ◌/◌, ◌%◌, ◌≤◌, ◌<◌, ◌≡◌, refl, sym, ap, ◌∙◌, ◌≢◌, ◌↔◌, ◌⊎◌, inl, inr,
  Bool, true, false, not, ◌&&◌, ◌||◌, Option, none, some, List, [], ◌∷◌, ◌++◌, map, append_assoc,
  append-nil, arith, String, str_eq, eq_iff, eq_refl, ltb, leb, ◌==◌, if◌then◌else◌, ltb→lt, lt→ltb,
  leb→le, le→leb, ==→eq, ==_refl, Bool-cases, &&-left, &&-right, ||-cases, length, take, select,
  any, length-append, length-take_le, All, All-append, All-select, length-select, select-All,
  All-select_keep,
}
use mxsentinel.Prelude.Text.{Bytes, codes, to_lower, IsInfix}
use mxsentinel.Bounce.Classify.{
  hard, spam_block, invalid_recipient, reputation, greylist_patterns, enhanced_parts, classify,
  is_transient, invalid_recipient_patterns, reputation_patterns, mailbox_full_patterns,
}
use mxsentinel.Bounce.Suppression.{suppression_for, expiry_for, spam_suppress_ttl}
use mxsentinel.Bounce.Evidence.{Evidence, Occurs, classify_sound, suppression_justified}
use mxsentinel.Bounce.Export.{SuppressionRecord, build_export, build_export-perm}

user_unknown : classify 550 (codes "5.1.1") (codes "No such user here") ≡ invalid_recipient
unfolding classify contains_any greylist_patterns contains to_lower mxsentinel.Prelude.Text.bytes_eq
    enhanced_parts
user_unknown = refl

spamhaus_is_reputation : classify 554 [] (codes "Blocked, see SpamHaus") ≡ reputation
unfolding classify contains_any contains greylist_patterns invalid_recipient_patterns
    mailbox_full_patterns reputation_patterns to_lower mxsentinel.Prelude.Text.bytes_eq
    enhanced_parts
spamhaus_is_reputation = refl

classify_sound_example :
    Evidence 550
      (enhanced_parts (codes "5.1.1"))
      (to_lower (codes "No such user here"))
      (classify 550 (codes "5.1.1") (codes "No such user here"))
classify_sound_example = classify_sound 550 (codes "5.1.1") (codes "No such user here")

abbrev greylisted : Occurs greylist_patterns (to_lower (codes "5 Greylisted"))
unfolding greylist_patterns to_lower
greylisted = record {
  pattern_text = codes "greylist";
  is_pattern = Memᴰ.head refl;
  stands = (codes "5 ", codes "ed", refl);
}

suppression_justified_example :
    let c = classify 550 (codes "5.1.1") (codes "No such user here") in
    (is_transient c ≡ false)
    × (((expiry_for (suppression_for c) 7 ≡ none)
          × (Evidence 550
                (enhanced_parts (codes "5.1.1"))
                (to_lower (codes "No such user here"))
                invalid_recipient
              ⊎ Evidence 550
                  (enhanced_parts (codes "5.1.1"))
                  (to_lower (codes "No such user here"))
                  hard))
        ⊎ ((expiry_for (suppression_for c) 7 ≡ some (7 + spam_suppress_ttl))
            × Evidence 550
                (enhanced_parts (codes "5.1.1"))
                (to_lower (codes "No such user here"))
                spam_block))
unfolding classify
suppression_justified_example =
    suppression_justified 550 (codes "5.1.1") (codes "No such user here") 7
      (unfold suppression_for in rw user_unknown)

abbrev record_of : Bytes → SuppressionRecord
record_of h = record {
  recipient_hash = h;
  reason = codes "hard_bounce";
  category = codes "hard";
  source = codes "bounce";
  expires_at = none;
}

abbrev two_records : List SuppressionRecord
two_records = record_of (codes "b2") ∷ record_of (codes "a1") ∷ []

abbrev swapped_records : List SuppressionRecord
swapped_records = record_of (codes "a1") ∷ record_of (codes "b2") ∷ []

build_export-perm_example :
    build_export (codes "plain") two_records (codes "now")
    ≡ build_export (codes "plain") swapped_records (codes "now")
build_export-perm_example =
    build_export-perm record_of (codes "plain") (codes "now") (Permᴰ.swap refl refl)
      (refl, (refl, tt))
