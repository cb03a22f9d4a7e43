-- ===== src/Config.antt =====
-- hymical_forms/config.py: the settings of a process, with their bounds and defaults, and the values
-- that other modules take from them. A setting that the source keeps as a float number of seconds
-- is a whole number of microseconds. The texts of the environment are read by pydantic, which is
-- not part of the repository: a value of Settings is what it hands over.
use forms.Prelude.{
  ℕ, ◌+◌, ◌*◌, ◌≤◌, ◌<◌, String, ◌≡◌, arith, Bool, true, false, Option, none, some, length, codes,
}
use forms.Webhooks.{RetryPolicy}
use forms.RateLimit.{RateLimit, second}
use forms.Retention.{RetentionPolicy}

pub record Settings : Type 0 where
  pub database_url : String
  pub max_body_bytes : ℕ
  pub max_fields : ℕ
  pub max_field_name_length : ℕ
  pub max_field_value_length : ℕ
  pub webhook_connect_timeout_seconds : ℕ
  pub webhook_read_timeout_seconds : ℕ
  pub webhook_max_attempts : ℕ
  pub webhook_retry_initial_seconds : ℕ
  pub webhook_retry_max_seconds : ℕ
  pub worker_poll_seconds : ℕ
  pub worker_batch_size : ℕ
  pub worker_lease_seconds : ℕ
  pub allow_private_webhook_targets : Bool
  pub rate_limit_enabled : Bool
  pub rate_limit_ip_requests : ℕ
  pub rate_limit_ip_window_seconds : ℕ
  pub rate_limit_endpoint_requests : ℕ
  pub rate_limit_endpoint_window_seconds : ℕ
  pub rate_limit_ip_secret : Option String
  pub trusted_proxy_hops : ℕ
  pub submission_retention_days : ℕ
  pub export_max_submissions : ℕ

-- The bounds `ge`, `gt` and `min_length` of the fields, those that a natural number may miss. A float
-- that is positive is taken to be at least a microsecond.
pub record IsValid (settings : Settings) : Type 0 where
  pub body : 1 ≤ settings.max_body_bytes
  pub fields : 1 ≤ settings.max_fields
  pub names : 1 ≤ settings.max_field_name_length
  pub values : 1 ≤ settings.max_field_value_length
  pub connect_timeout : 0 < settings.webhook_connect_timeout_seconds
  pub read_timeout : 0 < settings.webhook_read_timeout_seconds
  pub max_attempts : 1 ≤ settings.webhook_max_attempts
  pub retry_initial : 0 < settings.webhook_retry_initial_seconds
  pub retry_max : 0 < settings.webhook_retry_max_seconds
  pub poll : 0 < settings.worker_poll_seconds
  pub batch_size : 1 ≤ settings.worker_batch_size
  pub lease : 0 < settings.worker_lease_seconds
  pub ip_requests : 1 ≤ settings.rate_limit_ip_requests
  pub ip_window : 1 ≤ settings.rate_limit_ip_window_seconds
  pub endpoint_requests : 1 ≤ settings.rate_limit_endpoint_requests
  pub endpoint_window : 1 ≤ settings.rate_limit_endpoint_window_seconds
  pub ip_secret :
      (secret : String) → settings.rate_limit_ip_secret ≡ some secret → 16 ≤ length (codes secret)
  pub export_max : 1 ≤ settings.export_max_submissions

-- The settings of a process that is told its database and nothing else.
abbrev pub defaults : String → Settings
defaults database_url = record {
  database_url = database_url;
  max_body_bytes = 256 * 1024;
  max_fields = 100;
  max_field_name_length = 128;
  max_field_value_length = 16 * 1024;
  webhook_connect_timeout_seconds = 5 * second;
  webhook_read_timeout_seconds = 10 * second;
  webhook_max_attempts = 5;
  webhook_retry_initial_seconds = 10 * second;
  webhook_retry_max_seconds = 3600 * second;
  worker_poll_seconds = 1 * second;
  worker_batch_size = 10;
  worker_lease_seconds = 60 * second;
  allow_private_webhook_targets = false;
  rate_limit_enabled = true;
  rate_limit_ip_requests = 60;
  rate_limit_ip_window_seconds = 60;
  rate_limit_endpoint_requests = 600;
  rate_limit_endpoint_window_seconds = 60;
  rate_limit_ip_secret = none;
  trusted_proxy_hops = 0;
  submission_retention_days = 0;
  export_max_submissions = 10000;
}

unfoldable pub retry_policy : Settings → RetryPolicy
retry_policy settings = record {
  max_attempts = settings.webhook_max_attempts;
  initial = settings.webhook_retry_initial_seconds;
  max_wait = settings.webhook_retry_max_seconds;
}

abbrev pub ip_rate_limit : Settings → RateLimit
ip_rate_limit settings = record {
  requests = settings.rate_limit_ip_requests;
  window_seconds = settings.rate_limit_ip_window_seconds;
}

abbrev pub endpoint_rate_limit : Settings → RateLimit
endpoint_rate_limit settings = record {
  requests = settings.rate_limit_endpoint_requests;
  window_seconds = settings.rate_limit_endpoint_window_seconds;
}

unfoldable pub retention_policy : Settings → RetentionPolicy
retention_policy settings = record { days = settings.submission_retention_days }

-- `attempt_deadline_seconds` of hymical_forms/delivery.py.
unfoldable pub attempt_deadline_seconds : Settings → ℕ
attempt_deadline_seconds settings =
    settings.webhook_connect_timeout_seconds + settings.webhook_read_timeout_seconds

pub defaults-IsValid : (database_url : String) → IsValid (defaults database_url)
defaults-IsValid database_url = record {
  body = omega arith;
  fields = omega arith;
  names = omega arith;
  values = omega arith;
  connect_timeout = omega arith;
  read_timeout = omega arith;
  max_attempts = omega arith;
  retry_initial = omega arith;
  retry_max = omega arith;
  poll = omega arith;
  batch_size = omega arith;
  lease = omega arith;
  ip_requests = omega arith;
  ip_window = omega arith;
  endpoint_requests = omega arith;
  endpoint_window = omega arith;
  ip_secret = λ secret h. cc;
  export_max = omega arith;
}
