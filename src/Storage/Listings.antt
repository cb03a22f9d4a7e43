-- ===== src/Storage/Listings.antt =====
-- The reads of hymical_forms/storage.py: single rows, pages, counts and the rows of an export.
-- `before` is the database's order on texts.
pub mod History
use forms.Prelude.{
  ℕ, String, Bool, true, false, ◌&&◌, ◌||◌, Option, none, some, List, [], ◌∷◌, map, ltb, ◌==◌,
  str_eq, if◌then◌else◌, length, take, filter, first,
}
use forms.Exceptions.{Result, ok, ◌>>=◌}
use forms.Webhooks.{DeliveryState, pending, processing, delivered, failed}
use forms.Models.{Instant, Endpoint, SubmissionRow, WebhookDelivery, DeliveryAttempt, Db}
use forms.Table.{find}
use forms.Pages.{page, newest_first}
use forms.Storage.Submissions.{carries}

-- Both bounds are exclusive.
pub record SubmissionFilter : Type 0 where
  pub endpoint_id : Option String
  pub received_after : Option Instant
  pub received_before : Option Instant

pub record SubmissionRecord : Type 0 where
  pub submission : SubmissionRow
  pub delivery : Option WebhookDelivery

abbrev pub is_for : Option String → String → Bool
is_for none id = true
is_for (some wanted) id = str_eq id wanted

abbrev pub is_later : Option Instant → Instant → Bool
is_later none at = true
is_later (some bound) at = ltb bound at

abbrev pub is_earlier : Option Instant → Instant → Bool
is_earlier none at = true
is_earlier (some bound) at = ltb at bound

unfoldable pub narrowed : SubmissionFilter → SubmissionRow → Bool
narrowed filters row =
    is_for filters.endpoint_id row.endpoint_id
    && (is_later filters.received_after row.received_at
        && is_earlier filters.received_before row.received_at)

-- A submission with the row that the outer join gives it; a submission has at most one delivery.
unfoldable pub joined : Db → SubmissionRow → SubmissionRecord
joined db row = record { submission = row; delivery = first (carries row.id) db.deliveries }

abbrev pub map_option {ℓ κ} : {A : Type ℓ} {B : Type κ} → (A → B) → Option A → Option B
map_option f none = none
map_option f (some a) = some (f a)

unfoldable pub get_submission : String → Db → Option SubmissionRecord
get_submission submission_id db =
    map_option (joined db) (find (λ r. r.id) submission_id db.submissions)

unfoldable pub get_delivery : String → Db → Option WebhookDelivery
get_delivery delivery_id db = find (λ r. r.id) delivery_id db.deliveries

unfoldable pub count_submissions : SubmissionFilter → (ceiling : ℕ) → Db → ℕ
count_submissions filters ceiling db =
    length (take ceiling (filter (narrowed filters) db.submissions))

abbrev pub state_eq : DeliveryState → DeliveryState → Bool
state_eq pending pending = true
state_eq processing processing = true
state_eq delivered delivered = true
state_eq failed failed = true
state_eq _ _ = false

abbrev pub is_in : Option DeliveryState → DeliveryState → Bool
is_in none state = true
is_in (some wanted) state = state_eq state wanted

-- ORDER BY attempt_number, id
unfoldable pub insert_in_order :
    (before : String → String → Bool)
    → DeliveryAttempt
    → List DeliveryAttempt
    → List DeliveryAttempt
insert_in_order before x [] = x ∷ []
insert_in_order before x (y ∷ ys) =
    let rest = insert_in_order before x ys in
    if ltb x.attempt_number y.attempt_number
      || x.attempt_number == y.attempt_number && before x.id y.id
    then x ∷ y ∷ ys
    else y ∷ rest

unfoldable pub in_order :
    (before : String → String → Bool) → List DeliveryAttempt → List DeliveryAttempt
unfolding insert_in_order
in_order before [] = []
in_order before (x ∷ xs) = insert_in_order before x (in_order before xs)

module _ (before : String → String → Bool) where
  unfoldable pub list_endpoints : (limit : ℕ) (after : Option String) → Db → Result (List Endpoint)
  list_endpoints limit after db =
      page before (λ e. e.id) (λ e. e.created_at) (λ e. true) limit after db.endpoints

  unfoldable pub list_submissions :
      SubmissionFilter → (limit : ℕ) (after : Option String) → Db → Result (List SubmissionRecord)
  list_submissions filters limit after db = do
    rows ←
        page before (λ s. s.id) (λ s. s.received_at) (narrowed filters) limit after db.submissions
    ok (map (joined db) rows)

  unfoldable pub stream_submissions : SubmissionFilter → (limit : ℕ) → Db → List SubmissionRow
  stream_submissions filters limit db = take limit (
      newest_first before (λ s. s.id) (λ s. s.received_at)
        (filter (narrowed filters) db.submissions))

  unfoldable pub list_deliveries :
      (limit : ℕ) (after endpoint_id : Option String) (state : Option DeliveryState)
      → Db
      → Result (List WebhookDelivery)
  list_deliveries limit after endpoint_id state db =
      page before (λ d. d.id) (λ d. d.created_at)
        (λ d. is_for endpoint_id d.endpoint_id && is_in state d.state) limit after db.deliveries

  unfoldable pub list_delivery_attempts : String → Db → List DeliveryAttempt
  list_delivery_attempts delivery_id db =
      in_order before (filter (λ a. str_eq a.delivery_id delivery_id) db.attempts)
