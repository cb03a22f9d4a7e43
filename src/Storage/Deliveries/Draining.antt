-- ===== src/Storage/Deliveries/Draining.antt =====
-- A claim that may take every due delivery leaves none: `claim_due_deliveries` of
-- hymical_forms/storage.py.
use forms.Prelude.{
  ℕ, suc, ◌+◌, ◌<◌, ◌≤◌, String, ◌≡◌, refl, sym, ap, subst, ◌∙◌, Bool, true, false, ◌||◌, Option,
  none, some, List, [], ◌∷◌, arith, str_eq, length, take, take-all, filter, any, insert_by, sort_by,
  Bool-cases, inl, inr,
}
use forms.Webhooks.{processing}
use forms.Storage.Deliveries.Claims.{claim_due_deliveries-Fate}
use forms.Models.{Instant, WebhookDelivery, Db}
use forms.Table.{find, update_at, find-update_at, changed}
use forms.Storage.Deliveries.{due_condition, take_claim, claim_each, claim_due_deliveries}
use forms.Storage.Deliveries.ClaimLoop.{lookup, Fate, kept, taken, fate-claim_each}

module _ {ℓ} {A : Type ℓ} (p : A → Bool) (f : A → ℕ) where
  any-insert_by : (x : A) (xs : List A) → any p (insert_by f x xs) ≡ (p x || any p xs)
  any-insert_by x [] = refl
  any-insert_by x (y ∷ ys) = ground (arith, any-insert_by x ys)

  any-sort_by : (xs : List A) → any p (sort_by f xs) ≡ any p xs
  any-sort_by [] = refl
  any-sort_by (x ∷ xs) = any-insert_by x (sort_by f xs) ∙ ap (λ b. p x || b) (any-sort_by xs)

  length-insert_by : (x : A) (xs : List A) → length (insert_by f x xs) ≡ length xs + 1
  length-insert_by x [] = omega arith
  length-insert_by x (y ∷ ys) = ground (arith, length-insert_by x ys)

  length-sort_by : (xs : List A) → length (sort_by f xs) ≡ length xs
  length-sort_by [] = refl
  length-sort_by (x ∷ xs) = omega (arith, length-insert_by x (sort_by f xs), length-sort_by xs)

abbrev is_of : String → WebhookDelivery → Bool
is_of j c = str_eq c.id j

due-candidate :
    (now : Instant) (j : String) (t : List WebhookDelivery) (r : WebhookDelivery)
    → lookup j t ≡ some r
    → due_condition now r ≡ true
    → any (is_of j) (filter (due_condition now) t) ≡ true
unfolding find
due-candidate now j [] r h due = cc
due-candidate now j (x ∷ t) r h due = elim (Bool-cases (str_eq x.id j)) [
  | inl here ↦
      let same : x ≡ r = ground (arith, h, here) in
      let due' : due_condition now x ≡ true =
        subst (λ y. due_condition now y ≡ true) (sym same) due in
      rw (due', here) refl
  | inr other ↦ ground (arith, other, due-candidate now j t r (rw other at h) due)
]

module _ (mint : ℕ → String) (now expires_at : Instant) (lease : now < expires_at) where
  take_claim-undue :
      (token : String) (r : WebhookDelivery)
      → due_condition now (take_claim expires_at token r) ≡ false
  unfolding due_condition
  take_claim-undue token r = ground (arith, lease)

  fate-undue :
      (a b : Option WebhookDelivery) (r : WebhookDelivery)
      → Fate now expires_at a b
      → ((x : WebhookDelivery) → a ≡ some x → due_condition now x ≡ false)
      → b ≡ some r
      → due_condition now r ≡ false
  fate-undue a b r (kept same) undue h = undue r (sym same ∙ h)
  fate-undue a b r (taken old token was due is) undue h = cc (undue old was, due)

  claimed_undue :
      (i : ℕ) (cs t : List WebhookDelivery) (j : String) (r : WebhookDelivery)
      → any (is_of j) cs ≡ true
      → lookup j (claim_each mint now expires_at i cs t).1 ≡ some r
      → due_condition now r ≡ false
  unfolding claim_each
  claimed_undue i [] t j r h e = cc
  claimed_undue i (c ∷ cs) t j r h e =
      let t' = update_at (λ x. x.id) c.id (due_condition now) (take_claim expires_at (mint i)) t in
      elim (Bool-cases (str_eq c.id j)) [
        | inr other ↦ claimed_undue (suc i) cs t' j r (rw other at h) e
        | inl here ↦
            let step =
              find-update_at (λ (x : WebhookDelivery). x.id) c.id (due_condition now)
                (take_claim expires_at (mint i)) (λ x. refl) j t in
            fate-undue (lookup j t') _ r (fate-claim_each mint now expires_at lease (suc i) cs t' j)
              (λ x was. changed_undue (mint i) (lookup j t) x (sym (step ∙ rw here refl) ∙ was)) e
      ]
    where
      changed_undue :
          (token : String) (o : Option WebhookDelivery) (x : WebhookDelivery)
          → changed (due_condition now) (take_claim expires_at token) o ≡ some x
          → due_condition now x ≡ false
      changed_undue token none x h = cc
      changed_undue token (some y) x h = elim (Bool-cases (due_condition now y)) [
        | inl due ↦
            let same : take_claim expires_at token y ≡ x = ground (arith, h, due) in
            subst (λ z. due_condition now z ≡ false) same (take_claim-undue token y)
        | inr undue ↦
            let same : y ≡ x = ground (arith, h, undue) in
            subst (λ z. due_condition now z ≡ false) same undue
      ]

none_due :
    (mint : ℕ → String) (now lease limit : ℕ) (db : Db) (j : String) (r : WebhookDelivery)
    → 0 < lease
    → length (filter (due_condition now) db.deliveries) ≤ limit
    → lookup j (claim_due_deliveries mint now lease limit db.deliveries db).1.deliveries ≡ some r
    → due_condition now r ≡ false
unfolding claim_due_deliveries
none_due mint now lease limit db j r pos room e =
    let due = filter (due_condition now) db.deliveries in
    let sorted = sort_by (λ x. x.next_attempt_at) due in
    let later : now < now + lease = omega (arith, pos) in
    let fits : length sorted ≤ limit =
      omega (
        arith,
        room,
        length-sort_by {A = WebhookDelivery} (is_of j) (λ x. x.next_attempt_at) due,
      ) in
    let whole : take limit sorted ≡ sorted = take-all limit sorted fits in
    elim (Bool-cases (any (is_of j) due)) [
      | inl in_scan ↦
          claimed_undue mint now (now + lease) later 0 (take limit sorted) db.deliveries j r
            (ap (any (is_of j)) whole
              ∙ any-sort_by (is_of j) (λ x. x.next_attempt_at) due
              ∙ in_scan)
            e
      | inr not_due ↦
          fate-undue mint now (now + lease) later (lookup j db.deliveries) _ r
            (fate-claim_each mint now (now + lease) later 0 (take limit sorted) db.deliveries j)
            (λ x was. elim (Bool-cases (due_condition now x)) [
              | inl yes_due ↦ cc (due-candidate now j db.deliveries x was yes_due, not_due)
              | inr undue ↦ undue
            ])
            e
    ]

-- A worker whose lease is positive, whose scan sees the table as it is, and whose limit is at least
-- the number of due deliveries, leaves none due: each that was due, whatever the order of their due
-- times, is now processing under a token until the end of the lease, and otherwise as it was.
pub claim_due_deliveries-drains :
    (mint : ℕ → String) (now lease limit : ℕ) (db : Db) (j : String)
    → 0 < lease
    → length (filter (due_condition now) db.deliveries) ≤ limit
    → let after = (claim_due_deliveries mint now lease limit db.deliveries db).1.deliveries in
      ((r : WebhookDelivery) → lookup j after ≡ some r → due_condition now r ≡ false)
      × ((old : WebhookDelivery)
          → lookup j db.deliveries ≡ some old
          → due_condition now old ≡ true
          → (token : String) × (lookup j after
              ≡ some (record old {
                state = processing;
                claim_token = some token;
                claim_expires_at = some (now + lease);
              })))
claim_due_deliveries-drains mint now lease limit db j pos room = (
  λ r. none_due mint now lease limit db j r pos room,
  λ old was due.
      go old was due (claim_due_deliveries-Fate mint now lease limit db.deliveries db j pos),
)
  where
    after : List WebhookDelivery
    after = (claim_due_deliveries mint now lease limit db.deliveries db).1.deliveries

    go :
        (old : WebhookDelivery)
        → lookup j db.deliveries ≡ some old
        → due_condition now old ≡ true
        → Fate now (now + lease) (lookup j db.deliveries) (lookup j after)
        → (token : String) × (lookup j after ≡ some (take_claim (now + lease) token old))
    go old was due (kept same) =
        cc (none_due mint now lease limit db j old pos room (same ∙ was), due)
    go old was due (taken x token found is_due is) =
        let e : x ≡ old = cc (found, was) in
        (token, is ∙ ap (λ y. some (take_claim (now + lease) token y)) e)
