-- ===== src/Consistency/Claiming.antt =====
-- Claims keep the store consistent.
use forms.Prelude.{
  ℕ, ◌+◌, ◌<◌, String, ◌≡◌, sym, subst, ◌∙◌, Option, none, some, List, arith, is_some, true,
}
use forms.Models.{Instant, WebhookDelivery, Db}
use forms.Table.{find}
use forms.Storage.Deliveries.{due_condition, take_claim, claim_due_deliveries}
use forms.Storage.Deliveries.ClaimLoop.{Fate, kept, taken}
use forms.Storage.Deliveries.Claims.{claim_due_deliveries-Fate}
use forms.Consistency.{IsSound, IsConsistent, numbers, count_down}

take_claim-IsSound :
    (now expires_at : Instant) (token : String) (r : WebhookDelivery)
    → due_condition now r ≡ true
    → IsSound r
    → IsSound (take_claim expires_at token r)
unfolding due_condition
take_claim-IsSound now expires_at token r due h = ground arith

-- A property of rows that a claim of a due row keeps, at the row of one key.
pub fate_keeps :
    {now expires_at : Instant} {a b : Option WebhookDelivery} (P : WebhookDelivery → Type 0)
    → ((old : WebhookDelivery) (token : String)
        → due_condition now old ≡ true
        → P old
        → P (take_claim expires_at token old))
    → Fate now expires_at a b
    → ((r : WebhookDelivery) → a ≡ some r → P r)
    → (r : WebhookDelivery) → b ≡ some r
    → P r
fate_keeps P step (kept same) before r e = before r (sym same ∙ e)
fate_keeps {expires_at = x} P step (taken old token was due is) before r e =
    let same : take_claim x token old ≡ r = cc (is, e) in
    subst P same (step old token due (before old was))

fate_none :
    {now expires_at : Instant} {a b : Option WebhookDelivery}
    → Fate now expires_at a b
    → b ≡ none
    → a ≡ none
fate_none (kept same) e = sym same ∙ e
fate_none (taken old token was due is) e = cc

-- A claim with a positive lease, whatever table its scan had read, keeps the store consistent.
pub claim_due_deliveries-IsConsistent :
    (mint : ℕ → String) (now lease limit : ℕ) (seen : List WebhookDelivery) (db : Db)
    → 0 < lease
    → IsConsistent db
    → IsConsistent (claim_due_deliveries mint now lease limit seen db).1
unfolding claim_due_deliveries
claim_due_deliveries-IsConsistent mint now lease limit seen db pos h =
    let fate = λ (j : String). claim_due_deliveries-Fate mint now lease limit seen db j pos in
    record {
      sound = λ j r e.
          fate_keeps IsSound
            (λ old token due s. take_claim-IsSound now (now + lease) token old due s) (fate j)
            (h.sound j) r e;
      audit = λ j r e.
          fate_keeps (λ x. numbers j db.attempts ≡ count_down x.attempts) (λ old token due s. s)
            (fate j) (h.audit j) r e;
      unborn = λ j e. h.unborn j (fate_none (fate j) e);
      unique = h.unique;
      linked = λ j r s e.
          fate_keeps
            (λ x. x.submission_id ≡ some s → is_some (find (λ y. y.id) s db.submissions) ≡ true)
            (λ old token due keep. keep) (fate j) (λ x was. h.linked j x s was) r e;
    }
