-- ===== src/Storage/Deliveries/Claims.antt =====
-- What a claim does to the queue: `claim_due_deliveries` of hymical_forms/storage.py.
use forms.Prelude.{
  ℕ, ◌+◌, ◌≤◌, ◌<◌, String, ◌≡◌, ◌≢◌, sym, ap, ◌∙◌, some, List, arith, length, take, filter,
  sort_by, length-take-le, All, All-map, All-both,
}
use forms.Models.{Instant, WebhookDelivery, Db}
use forms.Storage.Deliveries.{due_condition, take_claim, claim_due_deliveries}
use forms.Storage.Deliveries.ClaimLoop.{
  lookup, due-take_claim, IsClaimed, Fate, claim_each-IsClaimed, fate-claim_each, length-claim_each,
}

module _ (mint : ℕ → String) (now lease limit : ℕ) (seen : List WebhookDelivery) (db : Db) where
  -- With a positive lease, every delivery that `claim_due_deliveries` returns was due in the
  -- table, is stored as `processing` under the token that the returned row carries and with the
  -- new lease, and is otherwise as it was; this whatever table `seen` the scan had read.
  pub claim_due_deliveries-IsClaimed :
      0 < lease
      → let (claimed, db') = claim_due_deliveries mint now lease limit seen db in
        All (IsClaimed now (now + lease) db.deliveries db'.deliveries) claimed
  unfolding claim_due_deliveries
  claim_due_deliveries-IsClaimed h =
      claim_each-IsClaimed mint now (now + lease) (omega arith) 0
        (take limit (sort_by (λ r. r.next_attempt_at) (filter (due_condition now) seen)))
        db.deliveries

  -- A claim takes at most `limit` deliveries.
  pub length-claim_due_deliveries :
      0 < lease → length (claim_due_deliveries mint now lease limit seen db).0 ≤ limit
  unfolding claim_due_deliveries
  length-claim_due_deliveries h =
      let cs = sort_by (λ r. r.next_attempt_at) (filter (due_condition now) seen) in
      omega (
        arith,
        length-claim_each mint now (now + lease) (omega arith) 0 (take limit cs) db.deliveries,
        length-take-le limit cs,
      )

  pub claim_due_deliveries-Fate :
      (j : String)
      → 0 < lease
      → Fate now
          (now + lease)
          (lookup j db.deliveries)
          (lookup j (claim_due_deliveries mint now lease limit seen db).1.deliveries)
  unfolding claim_due_deliveries
  claim_due_deliveries-Fate j h =
      fate-claim_each mint now (now + lease) (omega arith) 0
        (take limit (sort_by (λ r. r.next_attempt_at) (filter (due_condition now) seen)))
        db.deliveries j

-- What a claim stored is not due to another worker before the lease runs out.
held_elsewhere :
    (now expires_at later : Instant) (t0 t1 since t2 : List WebhookDelivery) (c d : WebhookDelivery)
    (later_end : Instant)
    → later < expires_at
    → IsClaimed now expires_at t0 t1 c × (lookup c.id since ≡ lookup c.id t1)
    → IsClaimed later later_end since t2 d
    → c.id ≢ d.id
held_elsewhere now expires_at later t0 t1 since t2 c d later_end h (first, kept) second same =
    let e : some second.old ≡ some (take_claim expires_at first.token first.old) =
      sym second.was ∙ ap (λ k. lookup k since) (sym same) ∙ kept ∙ first.holds in
    ground (arith, due-take_claim later expires_at first.token first.old h, e, second.due)

-- A claim, and a later one before the lease of the first has run out, with a lease of its own and
-- whatever either worker's scan had read, have no delivery in common, where the deliveries of the
-- first are still as it left them; any others may have changed.
pub claims_disjoint :
    (mint mint' : ℕ → String) (now later lease lease' limit limit' : ℕ)
    (seen seen' : List WebhookDelivery) (db since : Db)
    → 0 < lease
    → 0 < lease'
    → later < now + lease
    → let (first, db1) = claim_due_deliveries mint now lease limit seen db in
      let (second, db2) = claim_due_deliveries mint' later lease' limit' seen' since in
      All (λ c. lookup c.id since.deliveries ≡ lookup c.id db1.deliveries) first
      → All (λ c. All (λ d. c.id ≢ d.id) second) first
claims_disjoint mint mint' now later lease lease' limit limit' seen seen' db since pos pos' before
      kept =
    let (first, db1) = claim_due_deliveries mint now lease limit seen db in
    let (second, db2) = claim_due_deliveries mint' later lease' limit' seen' since in
    let Claimed = IsClaimed now (now + lease) db.deliveries db1.deliveries in
    let Kept = λ (c : WebhookDelivery). lookup c.id since.deliveries ≡ lookup c.id db1.deliveries in
    All-map (λ c. Claimed c × Kept c) (λ c. All (λ d. c.id ≢ d.id) second) first
      (λ c first_claim.
        All-map (IsClaimed later (later + lease') since.deliveries db2.deliveries)
          (λ d. c.id ≢ d.id) second
          (λ d.
            held_elsewhere now (now + lease) later db.deliveries db1.deliveries since.deliveries
              db2.deliveries c d (later + lease') before first_claim)
          (claim_due_deliveries-IsClaimed mint' later lease' limit' seen' since pos'))
      (All-both Claimed Kept first (claim_due_deliveries-IsClaimed mint now lease limit seen db pos)
        kept)
