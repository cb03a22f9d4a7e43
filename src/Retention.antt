-- ===== src/Retention.antt =====
-- hymical_forms/retention.py: the retention age, and the delivery states that protect a submission.
use forms.Prelude.{ℕ, ◌*◌, Bool, true, false, not, ltb}
use forms.Exceptions.{Result, retention_disabled, refuse, ◌>>◌}
use forms.Models.{Instant, earlier}
use forms.Webhooks.{DeliveryState, delivered}

-- `state in PROTECTED_DELIVERY_STATES`
abbrev pub is_protected : DeliveryState → Bool
is_protected delivered = false
is_protected _ = true

pub record RetentionPolicy : Type 0 where
  pub days : ℕ

unfoldable pub enabled : RetentionPolicy → Bool
enabled policy = ltb 0 policy.days

abbrev pub day : ℕ
day = 86400 * 1000000

-- An instant before the year 1 cannot be represented; one before the epoch stands here as the epoch,
-- before which nothing was received.
unfoldable pub cutoff : RetentionPolicy → Instant → Result Instant
unfolding enabled
cutoff policy now = do
  refuse (not (enabled policy)) retention_disabled
  earlier now (policy.days * day)
