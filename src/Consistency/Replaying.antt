-- ===== src/Consistency/Replaying.antt =====
-- A manual replay: `requeue_failed_delivery` of hymical_forms/storage.py.
use forms.Prelude.{
  String, ◌≡◌, refl, sym, subst, ◌∙◌, true, false, ◌&&◌, none, some, List, arith, is_some, ◌==◌,
  str_eq, eq_refl, if◌then◌else◌, Bool-cases, Option-cases, inl, inr,
}
use forms.Models.{Instant, WebhookDelivery, Db}
use forms.Table.{find, update_at, find-update_at, changed, row_count}
use forms.Storage.Deliveries.{requeue_failed_delivery, is_replayable, requeue}
use forms.Storage.Deliveries.ClaimLoop.{lookup}
use forms.Consistency.{IsSound, IsConsistent, numbers, count_down}

pub lookup-requeue :
    (k : String) (now : Instant) (j : String) (t : List WebhookDelivery)
    → lookup j (update_at (λ r. r.id) k is_replayable (requeue now) t)
      ≡ (if str_eq k j then changed is_replayable (requeue now) (lookup j t) else lookup j t)
lookup-requeue k now j t = find-update_at (λ r. r.id) k is_replayable (requeue now) (λ r. refl) j t

-- A replay requeues a delivery exactly when it is stored, failed and still has its submission:
-- then it is pending and due at once, with no claim, no completion time and a whole new cycle, and
-- with its history, destination and secret as they were. Otherwise it changes no delivery. It
-- reports what is then stored.
pub requeue_failed_delivery_exact :
    (k : String) (now : Instant) (db : Db) (j : String)
    → let (outcome, db') = requeue_failed_delivery k now db in
      let old = lookup k db.deliveries in
      (lookup j db'.deliveries ≡ (
        if str_eq k j
        then changed is_replayable (requeue now) (lookup j db.deliveries)
        else lookup j db.deliveries))
      × (outcome.delivery ≡ lookup k db'.deliveries)
      × (outcome.requeued ≡ (row_count is_replayable old == 1))
      × (db'.attempts ≡ db.attempts)
unfolding requeue_failed_delivery
requeue_failed_delivery_exact k now db j = (lookup-requeue k now j db.deliveries, refl, refl, refl)

-- Of two replays of one delivery, the second requeues nothing.
pub requeue_twice :
    (k : String) (now later : Instant) (db : Db)
    → (requeue_failed_delivery k later (requeue_failed_delivery k now db).1).0.requeued ≡ false
unfolding requeue_failed_delivery
requeue_twice k now later db = elim (Option-cases (lookup k db.deliveries)) [
  | inl e ↦ rw (lookup-requeue k now k db.deliveries, eq_refl k, e) refl
  | inr (r, e) ↦ elim (Bool-cases (is_replayable r)) [
    | inl y ↦ rw (lookup-requeue k now k db.deliveries, eq_refl k, e, y) refl
    | inr n ↦ rw (lookup-requeue k now k db.deliveries, eq_refl k, e, n, n) refl
  ]
]

requeue-IsSound :
    (now : Instant) (r : WebhookDelivery)
    → is_replayable r ≡ true
    → IsSound r
    → IsSound (requeue now r)
requeue-IsSound now r y h = ground arith

pub requeue_keeps :
    (P : String → WebhookDelivery → Type 0) (k : String) (now : Instant) (t : List WebhookDelivery)
    → ((j : String) (r : WebhookDelivery) → is_replayable r ≡ true → P j r → P j (requeue now r))
    → ((j : String) (r : WebhookDelivery) → lookup j t ≡ some r → P j r)
    → (j : String) (r : WebhookDelivery)
    → lookup j (update_at (λ x. x.id) k is_replayable (requeue now) t) ≡ some r
    → P j r
requeue_keeps P k now t step before j r e =
    let e' = sym (lookup-requeue k now j t) ∙ e in
    elim (Option-cases (lookup j t)) [
      | inl missing ↦ ground (arith, missing, e')
      | inr (old, was) ↦ elim (Bool-cases (str_eq k j && is_replayable old)) [
        | inl both ↦
            let same : requeue now old ≡ r = ground (arith, was, e', both) in
            subst (P j) same (step j old (ground (arith, both)) (before j old was))
        | inr other ↦
            let same : old ≡ r = ground (arith, was, e', other) in
            subst (P j) same (before j old was)
      ]
    ]

requeue-none :
    (k : String) (now : Instant) (t : List WebhookDelivery) (j : String)
    → lookup j (update_at (λ x. x.id) k is_replayable (requeue now) t) ≡ none
    → lookup j t ≡ none
requeue-none k now t j e = ground (arith, lookup-requeue k now j t)

-- A replay keeps the store consistent.
pub requeue_failed_delivery-IsConsistent :
    (k : String) (now : Instant) (db : Db)
    → IsConsistent db
    → IsConsistent (requeue_failed_delivery k now db).1
unfolding requeue_failed_delivery
requeue_failed_delivery-IsConsistent k now db h = record {
  sound =
      requeue_keeps (λ j r. IsSound r) k now db.deliveries (λ j r y s. requeue-IsSound now r y s)
        h.sound;
  audit =
      requeue_keeps (λ j r. numbers j db.attempts ≡ count_down r.attempts) k now db.deliveries
        (λ j r y s. s) h.audit;
  unborn = λ j e. h.unborn j (requeue-none k now db.deliveries j e);
  unique = h.unique;
  linked = λ j r s.
      requeue_keeps
        (λ j x. x.submission_id ≡ some s → is_some (find (λ y. y.id) s db.submissions) ≡ true) k now
        db.deliveries (λ j x y keep. keep) (λ j x was. h.linked j x s was) j r;
}
