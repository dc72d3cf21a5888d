-- ===== src/Bounce/Evidence.antt =====
-- What a verdict of the classifier says of the reply, and what follows for the suppression list.
use mxsentinel.Prelude.{◌+◌}
use mxsentinel.Prelude.{some}
use mxsentinel.Prelude.{none}
use mxsentinel.Prelude.Text.{to_lower}
use mxsentinel.Prelude.Text.{bytes_eq}
use mxsentinel.Prelude.Text.{bytes_eq→eq}
use mxsentinel.Bounce.Suppression.{suppression_for, expiry_for, spam_suppress_ttl}
use mxsentinel.Bounce.Classify.{enhanced_parts}
use mxsentinel.Bounce.Classify.{by_permanence}
use mxsentinel.Prelude.{false}
use mxsentinel.Bounce.Classify.{is_transient}
use mxsentinel.Bounce.Classify.{classify}
use mxsentinel.Bounce.Classify.{classify_text}
use mathlib.Core.List.{Memᴰ}
use mxsentinel.Prelude.{
  ℕ, ◌≤◌, ◌<◌, ◌≡◌, refl, ◌⊎◌, inl, inr, true, List, [], ◌∷◌, arith, Bool-cases,
}
use mxsentinel.Prelude.Text.{
  Bytes, codes, contains, contains_any, contains→IsInfix, IsInfix→contains, IsInfix,
}
use mxsentinel.Bounce.Classify.{
  Category, hard, soft, block, spam_block, invalid_recipient, mailbox_full, reputation, unknown,
  greylist_patterns, invalid_recipient_patterns, mailbox_full_patterns, reputation_patterns,
  spam_patterns, block_patterns, Parts, is_invalid_detail,
}

-- One of the patterns stands somewhere in the text.
pub record Occurs (ps : List Bytes) (text : Bytes) : Type 0 where
  pub pattern_text : Bytes
  pub is_pattern : Memᴰ pattern_text ps
  pub stands : IsInfix pattern_text text

contains_any→Occurs :
    (text : Bytes) (ps : List Bytes) → contains_any text ps ≡ true → Occurs ps text
unfolding contains_any
contains_any→Occurs text [] h = absurd (cc)
contains_any→Occurs text (p ∷ ps) h = elim (Bool-cases (contains text p)) [
  | inl e ↦ record {
    pattern_text = p;
    is_pattern = Memᴰ.head refl;
    stands = contains→IsInfix text p e;
  }
  | inr e ↦
      let o = contains_any→Occurs text ps (ground arith) in
      record {
        pattern_text = o.pattern_text;
        is_pattern = Memᴰ.tail o.is_pattern;
        stands = o.stands;
      }
]

contains_any_at :
    (text p : Bytes) (ps : List Bytes)
    → Memᴰ p ps
    → contains text p ≡ true
    → contains_any text ps ≡ true
unfolding contains_any
contains_any_at text p [] m h = elim m [ ]
contains_any_at text p (q ∷ ps) (Memᴰ.head e) h = ground arith
contains_any_at text p (q ∷ ps) (Memᴰ.tail m) h = ground (arith, contains_any_at text p ps m h)

pub Occurs→contains_any :
    {ps : List Bytes} {text : Bytes} → Occurs ps text → contains_any text ps ≡ true
Occurs→contains_any {ps} {text} o =
    let (pre, post, e) = o.stands in
    contains_any_at text o.pattern_text ps o.is_pattern
      (rw e (IsInfix→contains pre o.pattern_text post))

-- What each verdict rests on, in terms of the reply code, the status and the lower-cased text.
pub Evidence : ℕ → Parts → Bytes → Category → Type 0
Evidence code p text hard = (p.class ≡ codes "5") ⊎ (500 ≤ code)
Evidence code p text soft =
    Occurs greylist_patterns text ⊎ ((p.class ≡ codes "4") ⊎ ((400 ≤ code) × (code < 500)))
Evidence code p text block = (p.subject ≡ codes "7") ⊎ Occurs block_patterns text
Evidence code p text spam_block = Occurs spam_patterns text × ¬ Occurs reputation_patterns text
Evidence code p text invalid_recipient =
    ((p.subject ≡ codes "1") × (is_invalid_detail p.detail ≡ true))
    ⊎ Occurs invalid_recipient_patterns text
Evidence code p text mailbox_full =
    ((p.subject ≡ codes "2") × (p.detail ≡ codes "2")) ⊎ Occurs mailbox_full_patterns text
Evidence code p text reputation = Occurs reputation_patterns text
Evidence code p text unknown =
    (code < 400) × ¬ Occurs spam_patterns text × ¬ Occurs reputation_patterns text

not_Occurs : {ps : List Bytes} {text : Bytes} → contains_any text ps ≡ false → ¬ Occurs ps text
not_Occurs h o = cc (Occurs→contains_any o)

-- The tests that a verdict has passed, one lemma for each verdict.
module _ (code : ℕ) (p : Parts) (text : Bytes) where
  hard_tests :
      classify_text code p text ≡ hard → (bytes_eq p.class (codes "5") ≡ true) ⊎ (500 ≤ code)
  unfolding classify_text by_permanence
  hard_tests h = ground arith

  soft_tests :
      classify_text code p text ≡ soft
      → (contains_any text greylist_patterns ≡ true)
        ⊎ ((bytes_eq p.class (codes "4") ≡ true) ⊎ ((400 ≤ code) × (code < 500)))
  unfolding classify_text by_permanence
  soft_tests h = ground arith

  block_tests :
      classify_text code p text ≡ block
      → (bytes_eq p.subject (codes "7") ≡ true) ⊎ (contains_any text block_patterns ≡ true)
  unfolding classify_text by_permanence
  block_tests h = ground arith

  spam_block_tests :
      classify_text code p text ≡ spam_block
      → (contains_any text spam_patterns ≡ true) × (contains_any text reputation_patterns ≡ false)
  unfolding classify_text by_permanence
  spam_block_tests h = ground arith

  invalid_recipient_tests :
      classify_text code p text ≡ invalid_recipient
      → ((bytes_eq p.subject (codes "1") ≡ true) × (is_invalid_detail p.detail ≡ true))
        ⊎ (contains_any text invalid_recipient_patterns ≡ true)
  unfolding classify_text by_permanence
  invalid_recipient_tests h = ground arith

  mailbox_full_tests :
      classify_text code p text ≡ mailbox_full
      → ((bytes_eq p.subject (codes "2") ≡ true) × (bytes_eq p.detail (codes "2") ≡ true))
        ⊎ (contains_any text mailbox_full_patterns ≡ true)
  unfolding classify_text by_permanence
  mailbox_full_tests h = ground arith

  reputation_tests :
      classify_text code p text ≡ reputation → contains_any text reputation_patterns ≡ true
  unfolding classify_text by_permanence
  reputation_tests h = ground arith

  unknown_tests :
      classify_text code p text ≡ unknown
      → (code < 400)
        × (contains_any text spam_patterns ≡ false)
        × (contains_any text reputation_patterns ≡ false)
  unfolding classify_text by_permanence
  unknown_tests h = ground arith

  classify_text_sound : (c : Category) → classify_text code p text ≡ c → Evidence code p text c
  unfolding Evidence
  classify_text_sound hard h = elim (hard_tests h) [
    | inl e ↦ inl (bytes_eq→eq _ _ e)
    | inr e ↦ inr e
  ]
  classify_text_sound soft h = elim (soft_tests h) [
    | inl e ↦ inl (contains_any→Occurs _ _ e)
    | inr (inl e) ↦ inr (inl (bytes_eq→eq _ _ e))
    | inr (inr e) ↦ inr (inr e)
  ]
  classify_text_sound block h = elim (block_tests h) [
    | inl e ↦ inl (bytes_eq→eq _ _ e)
    | inr e ↦ inr (contains_any→Occurs _ _ e)
  ]
  classify_text_sound spam_block h =
      let t = spam_block_tests h in (contains_any→Occurs _ _ t.0, not_Occurs t.1)
  classify_text_sound invalid_recipient h = elim (invalid_recipient_tests h) [
    | inl e ↦ inl (bytes_eq→eq _ _ e.0, e.1)
    | inr e ↦ inr (contains_any→Occurs _ _ e)
  ]
  classify_text_sound mailbox_full h = elim (mailbox_full_tests h) [
    | inl e ↦ inl (bytes_eq→eq _ _ e.0, bytes_eq→eq _ _ e.1)
    | inr e ↦ inr (contains_any→Occurs _ _ e)
  ]
  classify_text_sound reputation h = contains_any→Occurs _ _ (reputation_tests h)
  classify_text_sound unknown h = let t = unknown_tests h in (t.0, not_Occurs t.1, not_Occurs t.2)

-- Every verdict of the classifier rests on evidence in the reply: hard on class 5 or a code of at
-- least 500; soft on greylisting wording, class 4 or a 4xx code; a policy block on subject 7 or its
-- wording; spam on its wording with no reputation wording; an invalid recipient on subject 1 with
-- detail 1, 2, 6 or 10, or its wording; a full mailbox on subject 2 and detail 2, or its wording;
-- reputation on its wording; unknown on a code below 400 with no spam and no reputation wording.
pub classify_sound :
    (code : ℕ) (enhanced response : Bytes)
    → Evidence code (enhanced_parts enhanced) (to_lower response) (classify code enhanced response)
unfolding classify
classify_sound code enhanced response =
    classify_text_sound code (enhanced_parts enhanced) (to_lower response) _ refl

greylist_soft :
    (code : ℕ) (p : Parts) (text : Bytes)
    → contains_any text greylist_patterns ≡ true
    → classify_text code p text ≡ soft
unfolding classify_text
greylist_soft code p text h = rw h

-- A reply that carries greylisting wording, in any case of letters, never suppresses its
-- recipient, whatever the code, the status and the rest of the text say.
pub greylist_never_suppresses :
    (code : ℕ) (enhanced response : Bytes)
    → Occurs greylist_patterns (to_lower response)
    → (suppression_for (classify code enhanced response)).suppress ≡ false
unfolding classify suppression_for
greylist_never_suppresses code enhanced response o =
    rw (greylist_soft code (enhanced_parts enhanced) (to_lower response) (Occurs→contains_any o))

-- A failure that the policy suppresses is not one of the transient categories, and a permanent
-- suppression (no expiry) rests on an invalid recipient or on a permanent status; every other
-- suppression is for spam wording, with no reputation wording, and ends 30 days later.
pub suppression_justified :
    (code : ℕ) (enhanced response : Bytes) (now : ℕ)
    → let c = classify code enhanced response in
      let d = suppression_for c in
      d.suppress ≡ true
      → (is_transient c ≡ false)
        × (((expiry_for d now ≡ none)
              × (Evidence code (enhanced_parts enhanced) (to_lower response) invalid_recipient
                  ⊎ Evidence code (enhanced_parts enhanced) (to_lower response) hard))
            ⊎ ((expiry_for d now ≡ some (now + spam_suppress_ttl))
                × Evidence code (enhanced_parts enhanced) (to_lower response) spam_block))
unfolding is_transient suppression_for expiry_for
suppression_justified code enhanced response now =
    justified (classify code enhanced response) (classify_sound code enhanced response)
  where
    justified :
        (c : Category)
        → Evidence code (enhanced_parts enhanced) (to_lower response) c
        → (suppression_for c).suppress ≡ true
        → (is_transient c ≡ false)
          × (((expiry_for (suppression_for c) now ≡ none)
                × (Evidence code (enhanced_parts enhanced) (to_lower response) invalid_recipient
                    ⊎ Evidence code (enhanced_parts enhanced) (to_lower response) hard))
              ⊎ ((expiry_for (suppression_for c) now ≡ some (now + spam_suppress_ttl))
                  × Evidence code (enhanced_parts enhanced) (to_lower response) spam_block))
    justified hard e h = (refl, inl (refl, inr e))
    justified soft e h = absurd (cc)
    justified block e h = absurd (cc)
    justified spam_block e h = (refl, inr (refl, e))
    justified invalid_recipient e h = (refl, inl (refl, inl e))
    justified mailbox_full e h = absurd (cc)
    justified reputation e h = absurd (cc)
    justified unknown e h = absurd (cc)
