-- ===== src/System/Durability.antt =====
-- What becomes of one stored delivery and of the submission that it carries, under the
-- transactions of hymical_forms/storage.py.
pub mod Storing
pub mod Completing
pub mod Claiming
pub mod Sweeping
pub mod Lasting
use forms.Prelude.{◌≤◌, String, ◌≡◌, refl, ◌∙◌, true, false, some, arith, Bool-cases, inl, inr}
use forms.Retention.{is_protected}
use forms.Models.{WebhookDelivery, SubmissionRow, Db}
use forms.Table.{find}
use forms.Storage.Deliveries.ClaimLoop.{lookup}

-- What a delivery may have become: it goes to the same place under the same secret, its history
-- only grows, and once it was delivered it stays delivered.
pub record IsLater (a b : WebhookDelivery) : Type 0 where
  pub endpoint : b.endpoint_id ≡ a.endpoint_id
  pub destination : b.destination_url ≡ a.destination_url
  pub secret : b.signing_secret ≡ a.signing_secret
  pub history : a.attempts ≤ b.attempts
  pub settled : is_protected a.state ≡ false → is_protected b.state ≡ false

pub IsLater-refl : (a : WebhookDelivery) → IsLater a a
IsLater-refl a = record {
  endpoint = refl;
  destination = refl;
  secret = refl;
  history = omega arith;
  settled = λ h. h;
}

IsLater-trans : (a b c : WebhookDelivery) → IsLater a b → IsLater b c → IsLater a c
IsLater-trans a b c h k = record {
  endpoint = k.endpoint ∙ h.endpoint;
  destination = k.destination ∙ h.destination;
  secret = k.secret ∙ h.secret;
  history = omega (arith, h.history, k.history);
  settled = λ done. k.settled (h.settled done);
}

-- A row names a submission, which is stored as it was.
abbrev pub Holds : WebhookDelivery → SubmissionRow → Db → Type 0
Holds row x db = (row.submission_id ≡ some x.id) × (find (λ s. s.id) x.id db.submissions ≡ some x)

-- The delivery of key j, which was `a` with the submission `x`, is still stored; and unless it was
-- delivered it still names that submission, which is stored as it was.
pub record IsOwed (j : String) (a : WebhookDelivery) (x : SubmissionRow) (db : Db) : Type 0 where
  pub row : WebhookDelivery
  pub stored : lookup j db.deliveries ≡ some row
  pub later : IsLater a row
  pub holds : is_protected row.state ≡ true → Holds row x db

module _ (j : String) (a : WebhookDelivery) (x : SubmissionRow) where
  pub onward :
      {db db' : Db} (o : IsOwed j a x db) (row' : WebhookDelivery)
      → lookup j db'.deliveries ≡ some row'
      → IsLater o.row row'
      → (is_protected o.row.state ≡ true → Holds o.row x db → Holds row' x db')
      → IsOwed j a x db'
  onward o row' found later keeps = record {
    row = row';
    stored = found;
    later = IsLater-trans a o.row row' o.later later;
    holds = λ p. elim (Bool-cases (is_protected o.row.state)) [
      | inl q ↦ keeps q (o.holds q)
      | inr q ↦ cc (later.settled q, p)
    ];
  }

  -- A step that leaves the row of the delivery as it is.
  pub same_row :
      {db db' : Db} (o : IsOwed j a x db)
      → lookup j db'.deliveries ≡ lookup j db.deliveries
      → (Holds o.row x db → Holds o.row x db')
      → IsOwed j a x db'
  same_row o same keeps = onward o o.row (same ∙ o.stored) (IsLater-refl o.row) (λ p h. keeps h)
