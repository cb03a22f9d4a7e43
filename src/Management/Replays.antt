-- ===== src/Management/Replays.antt =====
-- The answers to a replay: `replay_delivery` of hymical_forms/api/deliveries.py.
use forms.Prelude.{
  String, ◌≡◌, refl, true, false, arith, ◌==◌, none, some, eq_refl, ◌∙◌, is_some, str_eq,
  if◌then◌else◌, Bool-cases, inl, inr,
}
use forms.Exceptions.{Result, ok, err, delivery_not_replayable, delivery_submission_deleted}
use forms.Webhooks.{pending, is_failed}
use forms.Models.{Instant, WebhookDelivery, Db}
use forms.Table.{changed, row_count}
use forms.Storage.Deliveries.{requeue_failed_delivery, is_replayable, requeue}
use forms.Storage.Deliveries.ClaimLoop.{lookup}
use forms.Consistency.Replaying.{requeue_failed_delivery_exact}
use forms.Management.{DeliveryView, replay_delivery, replay_answer, contains_nul, state_name, view}

-- A delivery that starts over: due at once, unclaimed, with a whole new cycle.
unfoldable pub started_over : Instant → WebhookDelivery → WebhookDelivery
started_over now row = record row {
  state = pending;
  cycle_attempts = 0;
  next_attempt_at = now;
  claim_expires_at = none;
  claim_token = none;
  completed_at = none;
}

-- What a replay of a stored delivery answers, and the row that it leaves.
unfoldable pub outcome_for :
    String → Instant → WebhookDelivery → Result DeliveryView × WebhookDelivery
unfolding started_over
outcome_for id now row =
    if is_some row.submission_id
    then if is_failed row.state
      then (ok (view (started_over now row)), started_over now row)
      else (err (delivery_not_replayable id (state_name row.state)), row)
    else (err (delivery_submission_deleted id (state_name row.state)), row)

replayable :
    (row : WebhookDelivery)
    → is_replayable row ≡ true
    → (is_failed row.state ≡ true) × (is_some row.submission_id ≡ true)
replayable row y = (ground arith, ground arith)

other_of :
    (row : WebhookDelivery)
    → is_some row.submission_id ≡ true
    → is_replayable row ≡ false
    → is_failed row.state ≡ false
other_of row kept n = ground arith

outcome_for_lem :
    (id : String) (now : Instant) (row : WebhookDelivery)
    → (replay_answer id
          (row_count is_replayable (some row) == 1)
          (changed is_replayable (requeue now) (some row))
        ≡ (outcome_for id now row).0)
      × (changed is_replayable (requeue now) (some row) ≡ some (outcome_for id now row).1)
unfolding replay_answer outcome_for
outcome_for_lem id now row = elim (Bool-cases (is_replayable row)) [
  | inl y ↦ let (over, kept) = replayable row y in rw y (rw (kept, over) (refl, refl))
  | inr n ↦ elim (Bool-cases (is_some row.submission_id)) [
    | inl kept ↦ rw n (rw (kept, other_of row kept n) (refl, refl))
    | inr gone ↦ rw n (rw gone (refl, refl))
  ]
]

-- A replay of a stored delivery whose id has no NUL: one that failed and has its submission starts
-- over and is returned as it then is; for any other the answer is the error that its state and its
-- submission call for, and its row is as it was. No other delivery changes.
pub replay_delivery_exact :
    (id : String) (now : Instant) (db : Db) (row : WebhookDelivery)
    → contains_nul id ≡ false
    → lookup id db.deliveries ≡ some row
    → let (answer, db') = replay_delivery id now db in
      let (wanted, after) = outcome_for id now row in
      (answer ≡ wanted)
      × (lookup id db'.deliveries ≡ some after)
      × ((j : String) → str_eq id j ≡ false → lookup j db'.deliveries ≡ lookup j db.deliveries)
unfolding replay_delivery requeue_failed_delivery
replay_delivery_exact id now db row plain found =
    let (stored, reported, counted, _) = requeue_failed_delivery_exact id now db id in
    let (answered, left) = outcome_for_lem id now row in
    rw plain (
      rw (stored, eq_refl id, found)
        (
          answered,
          left,
          λ j other. (requeue_failed_delivery_exact id now db j).0 ∙ (rw other refl),
        ))
