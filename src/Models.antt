-- ===== src/Models.antt =====
-- hymical_forms/models.py: the rows of the tables, and the database as its tables.
-- An instant is a number of microseconds since the Unix epoch, always in UTC.
use forms.Prelude.{ℕ, ◌+◌, ◌-◌, String, Bool, Option, List, is_some, not, ltb, if◌then◌else◌}
use forms.Exceptions.{Result, ok, err, overflow_error}
use forms.Webhooks.{DeliveryOutcome, DeliveryState}

abbrev pub Instant : Type 0
Instant = ℕ

-- The microseconds between the start of the year 1, the earliest datetime, and the epoch.
abbrev pub before_epoch : ℕ
before_epoch = 62135596800000000

-- The start of the year 10000, which is later than every datetime.
abbrev pub instant_limit : ℕ
instant_limit = 253402300800000000

-- A datetime less a timedelta; one before the epoch stands as the epoch.
abbrev pub earlier : Instant → ℕ → Result Instant
earlier now span = if ltb (now + before_epoch) span then err overflow_error else ok (now - span)

-- A datetime plus a timedelta.
abbrev pub later : Instant → ℕ → Result Instant
later now span = if ltb (now + span) instant_limit then ok (now + span) else err overflow_error

pub record Endpoint : Type 0 where
  pub id : String
  pub name : String
  pub is_active : Bool
  pub created_at : Instant
  pub webhook_url : Option String
  pub webhook_secret : Option String

-- `fields` is a dictionary in its insertion order.
abbrev pub Fields : Type 0
Fields = List (String × List String)

-- The row; `SubmissionRow` because ingestion.py has a `Submission` of its own.
pub record SubmissionRow : Type 0 where
  pub id : String
  pub endpoint_id : String
  pub received_at : Instant
  pub fields : Fields
  pub idempotency_key : Option String
  pub payload_fingerprint : Option String

pub record WebhookDelivery : Type 0 where
  pub id : String
  pub submission_id : Option String
  pub endpoint_id : String
  pub destination_url : String
  pub signing_secret : String
  pub state : DeliveryState
  pub attempts : ℕ
  pub cycle_attempts : ℕ
  pub next_attempt_at : Instant
  pub claim_expires_at : Option Instant
  pub claim_token : Option String
  pub created_at : Instant
  pub completed_at : Option Instant

pub record DeliveryAttempt : Type 0 where
  pub id : String
  pub delivery_id : String
  pub submission_id : Option String
  pub attempt_number : ℕ
  pub destination_url : String
  pub attempted_at : Instant
  pub outcome : DeliveryOutcome
  pub response_status : Option ℕ
  pub error : Option String

pub record ManagementApiKey : Type 0 where
  pub id : String
  pub name : String
  pub display_prefix : String
  pub key_digest : String
  pub created_at : Instant
  pub revoked_at : Option Instant
  pub last_used_at : Option Instant

-- The property `is_active` of a key.
abbrev pub key_is_active : ManagementApiKey → Bool
key_is_active key = not (is_some key.revoked_at)

pub data Limiter : Type 0 where
  ip endpoint : Limiter

pub record RateLimitCounter : Type 0 where
  pub limiter : Limiter
  pub subject : String
  pub window_start : Instant
  pub attempts : ℕ

pub record Db : Type 0 where
  pub endpoints : List Endpoint
  pub submissions : List SubmissionRow
  pub deliveries : List WebhookDelivery
  pub attempts : List DeliveryAttempt
  pub keys : List ManagementApiKey
  pub counters : List RateLimitCounter
