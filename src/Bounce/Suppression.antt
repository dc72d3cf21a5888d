-- ===== src/Bounce/Suppression.antt =====
-- internal/bounce/suppression.go: the auto-suppression policy. A duration is a number of
-- nanoseconds, and so is a time.
use mxsentinel.Prelude.{ℕ, ◌+◌, ◌*◌, Bool, true, false, Option, none, some, if◌then◌else◌, ◌==◌}
use mxsentinel.Prelude.{[]}
use mxsentinel.Prelude.Text.{Bytes, codes}
use mxsentinel.Bounce.Classify.{Category, hard, spam_block, invalid_recipient}

-- 30 * 24 * time.Hour
abbrev pub spam_suppress_ttl : ℕ
spam_suppress_ttl = 30 * 24 * 3600 * 1000000000

pub record SuppressionDecision : Type 0 where
  pub suppress : Bool
  pub reason : Bytes
  pub ttl : ℕ  -- 0 is permanent
  pub priority : ℕ

unfoldable pub suppression_for : Category → SuppressionDecision
suppression_for invalid_recipient = record {
  suppress = true;
  reason = codes "invalid_recipient";
  ttl = 0;
  priority = 30;
}
suppression_for hard = record {
  suppress = true;
  reason = codes "hard_bounce";
  ttl = 0;
  priority = 20;
}
suppression_for spam_block = record {
  suppress = true;
  reason = codes "spam_block";
  ttl = spam_suppress_ttl;
  priority = 10;
}
suppression_for _ = record { suppress = false; reason = []; ttl = 0; priority = 0 }

-- `nil` is a permanent suppression.
unfoldable pub expiry_for : SuppressionDecision → ℕ → Option ℕ
expiry_for d now = if d.ttl == 0 then none else some (now + d.ttl)
