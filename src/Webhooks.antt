-- ===== src/Webhooks.antt =====
-- hymical_forms/webhooks.py: delivery outcomes and states, and the retry policy.
pub mod Destinations
use forms.Prelude.{
  ℕ, ◌-◌, ◌*◌, ◌^◌, min, String, Bool, true, false, ◌||◌, Option, none, some, ltb, leb, ◌==◌,
  if◌then◌else◌,
}
use forms.Exceptions.{Result, ok, err, overflow_error}

pub data DeliveryOutcome : Type 0 where
  succeeded http_error timeout network_error : DeliveryOutcome

pub data DeliveryState : Type 0 where
  pending processing delivered failed : DeliveryState

-- `state in TERMINAL_STATES`
abbrev pub is_terminal : DeliveryState → Bool
is_terminal delivered = true
is_terminal failed = true
is_terminal _ = false

abbrev pub is_pending : DeliveryState → Bool
is_pending pending = true
is_pending _ = false

abbrev pub is_processing : DeliveryState → Bool
is_processing processing = true
is_processing _ = false

abbrev pub is_failed : DeliveryState → Bool
is_failed failed = true
is_failed _ = false

pub record DeliveryResult : Type 0 where
  pub outcome : DeliveryOutcome
  pub response_status : Option ℕ
  pub error : Option String

-- `status in RETRYABLE_STATUSES`
abbrev pub is_retryable_status : ℕ → Bool
is_retryable_status s = s == 408 || s == 425 || s == 429

abbrev pub is_succeeded : DeliveryOutcome → Bool
is_succeeded succeeded = true
is_succeeded _ = false

retryable_outcome : DeliveryOutcome → Option ℕ → Bool
retryable_outcome succeeded status = false
retryable_outcome timeout status = true
retryable_outcome network_error status = true
retryable_outcome http_error none = false
retryable_outcome http_error (some status) = leb 500 status || is_retryable_status status

unfoldable pub is_retryable : DeliveryResult → Bool
unfolding retryable_outcome
is_retryable result = retryable_outcome result.outcome result.response_status

-- Waits are whole microseconds.
pub record RetryPolicy : Type 0 where
  pub max_attempts : ℕ
  pub initial : ℕ
  pub max_wait : ℕ

-- The conversion of `2 ** exponent` to a float overflows from 2 ** 1024 on, and raises.
abbrev pub float_exponent_limit : ℕ
float_exponent_limit = 1024

-- The length from which on a timedelta overflows: 10 ** 9 days.
abbrev pub timedelta_limit : ℕ
timedelta_limit = 86400000000000000000

unfoldable pub timedelta : ℕ → Result ℕ
timedelta wait = if ltb wait timedelta_limit then ok wait else err overflow_error

unfoldable pub delay_after : RetryPolicy → ℕ → Result ℕ
unfolding timedelta
delay_after policy attempts_made =
    let exponent = attempts_made - 1 in
    if ltb exponent float_exponent_limit
    then timedelta (min (policy.initial * 2 ^ exponent) policy.max_wait)
    else err overflow_error

unfoldable pub is_exhausted : RetryPolicy → ℕ → Bool
is_exhausted policy attempts_made = leb policy.max_attempts attempts_made

pub record WebhookTarget : Type 0 where
  pub url : String
  pub secret : String
