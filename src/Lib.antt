-- ===== src/Lib.antt =====
-- Hymical Forms: a service that takes HTML form submissions, stores them with the webhook delivery
-- that each owes, and delivers those from a durable queue.
--
-- Prelude         numbers, lists, options and texts that all modules share.
-- Exceptions      the exceptions that functions raise, as values of a result type; Raises: which of
--                 them a computation raises.
-- Messages        what an error says: the parts of a message, and its details.
-- Models          the rows of src/hymical_forms/models.py and the database as one record of tables.
-- Table           primary-key lookup and conditional update of a list of rows.
-- Ingestion       src/hymical_forms/ingestion.py: is_valid_endpoint_id, is_valid_idempotency_key,
--                 build_submission and its validators, payload_fingerprint.
-- Webhooks        src/hymical_forms/webhooks.py: outcomes, states, is_retryable, RetryPolicy;
--                 Destinations: validate_webhook_url.
-- Retention       src/hymical_forms/retention.py.
-- RateLimit       src/hymical_forms/ratelimit.py: the windows and client_address; Buckets:
--                 address_bucket and ip_subject.
-- Config          src/hymical_forms/config.py: the settings, their bounds and what is taken from them;
--                 attempt_deadline_seconds of delivery.py.
-- Submit          src/hymical_forms/api/submissions.py: the handler of a public submission; Forms: its
--                 media type and body; Admissions: how many attempts its limiters let through.
-- Errors          src/hymical_forms/errors.py: the envelope and the handlers; Public and Managed: the
--                 error classes of src/hymical_forms/api/ and middleware.py.
-- Schema          src/hymical_forms/schema.py: verify_schema.
-- Security        src/hymical_forms/apikeys.py and api/security.py: is_valid_management_key and
--                 require_management_key.
--                 Generation: the minting of a key.
-- Configuration   src/hymical_forms/api/endpoints.py: create_endpoint and update_endpoint; Reads:
--                 list_endpoints and get_endpoint.
-- Storage         src/hymical_forms/storage.py: Deliveries (due_condition, claim_due_deliveries,
--                 complete_attempt, requeue_failed_delivery), Submissions (store_submission and
--                 what it calls), Sweep (delete_expired_submissions), RateLimits
--                 (consume_rate_limit, delete_expired_rate_limit_counters), Keys (the management
--                 keys), Endpoints (create_endpoint, update_endpoint), Listings (the reads).
-- Pages           keyset pagination: _page_after of storage.py and next_cursor of
--                 src/hymical_forms/api/pagination.py.
-- Export          src/hymical_forms/export.py: the CSV and JSON documents.
-- Management      src/hymical_forms/api/submission_management.py and api/deliveries.py: the reads,
--                 the export and the replay.
-- Delivery        src/hymical_forms/delivery.py: deliver; with build_payload, serialize_payload and
--                 sign of src/hymical_forms/webhooks.py.
-- Worker          src/hymical_forms/worker.py: the loop of run_worker, process_batch and _attempt;
--                 with load_submissions of storage.py; Process: run_worker with its schema check
--                 and its settings.
-- CommandLine     src/hymical_forms/cli.py: the four commands; Process: main and _run; Redaction:
--                 _redact.
-- BodyLimit       src/hymical_forms/middleware.py.
-- Consistency     the invariant that every transaction of Storage keeps.
-- System          the transactions as steps of one system, and what any history of them keeps;
--                 Durability: what becomes of one delivery and its submission.
-- Service         the handlers, the commands and the workers' transactions on one database, in any
--                 order.
-- Tests           small runs, and the theorems applied to them.
--
-- How the parts interact: the API normalizes a form (Ingestion), spends its budgets (RateLimit,
-- Storage.RateLimits) and stores it with the delivery that it owes (Storage.Submissions), all in
-- the order of Submit, under the settings of Config; what it refuses is an exception that Errors
-- renders. Workers claim, send and complete deliveries (Worker, Delivery, Storage.Deliveries);
-- operators replay failed ones (Management) and sweep old submissions (CommandLine, Storage.Sweep).
-- They share the database and nothing else, so a transaction is a function of the database that it
-- finds, and System lets any number of processes interleave them. What a process read in an earlier
-- transaction, such as the row and the token that a worker holds or the lookup of an idempotency
-- key, is a separate argument of any value.
--
-- Instants and waits are whole microseconds since the epoch; a number of the source is a natural
-- number here, and a subtraction that could be negative there is cut at 0 where the source takes
-- a maximum with a value of at least 0. Models.earlier and Models.later are the arithmetic of
-- datetime, and Webhooks.timedelta the bound of timedelta: what leaves the years 1 to 9999 or is too
-- long raises overflow_error in a cutoff, in the sweep of old windows, in the wait of a retry and in
-- the lease of a claim, which process_batch checks. The end of a rate limit window is taken to fit.
-- Two places differ: an instant before the epoch stands as the epoch, and a wait of the retry
-- policy is not rounded as a double would be.
-- A text that cannot be written as UTF-8, since it holds a lone surrogate, is one for which dumps
-- has no bytes; payload_fingerprint and serialize_payload then raise unicode_encode_error.
-- No definition of the code runs on fuel: loops are over lists, and the sweep is bounded by its
-- own max_batches. Pages.Walks follows cursors as a client would, on fuel, and one page more than
-- there are rows is enough. The unique, check and foreign key constraints of the tables are part of the
-- inserts, and a violation is the exception integrity_error; column lengths are not modelled, and
-- an identifier that the source draws at random is an argument.
--
-- Code that the repository only calls is an argument of the definitions that use it: the form
-- parsers of Starlette, the draw of random numbers, SHA-256 and HMAC (digest_key, ip_subject,
-- payload_fingerprint, sign), the HTTP client, the JSON and CSV writers, the formatting of dates and
-- numbers, the database's order on texts, urlsplit, the idna codec, the module ipaddress, the table
-- of HTTPStatus, make_url and Alembic.
--
-- The database refuses what its constraints forbid, and may fail in the course of a sweep, between
-- two batches that it commits (the outage of CommandLine); failures of it elsewhere are not modelled.
--
-- Not modelled: SQL text and locking (a transaction is atomic), HTTP and JSON rendering, the
-- signals of the worker, hashing, the reading of the environment, argument parsing and the layout
-- of what a command prints, the FastAPI wiring, and migrations.
mod Prelude
pub mod Exceptions
pub mod Messages
pub mod Webhooks
pub mod Models
pub mod Ingestion
pub mod Service
pub mod Table
pub mod Retention
pub mod Pages
pub mod Export
pub mod Storage
pub mod RateLimit
pub mod Consistency
pub mod Security
pub mod Config
pub mod Configuration
pub mod Submit
pub mod Errors
pub mod Management
pub mod Delivery
pub mod Schema
pub mod Worker
pub mod CommandLine
pub mod BodyLimit
pub mod System
mod Tests
