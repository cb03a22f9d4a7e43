-- ===== src/Submit/Refusals.antt =====
-- A public submission that is refused stores nothing: `submit` of hymical_forms/api/submissions.py.
use forms.Prelude.{String, ◌≡◌, refl, ap, ◌∙◌, Bool, false}
use forms.Exceptions.{Result, ok, err, is_ok}
use forms.Models.{Instant, Endpoint, Db}
use forms.Config.{Settings}
use forms.Submit.Charging.{SameRecords, charge_address-SameRecords, charge_endpoint-SameRecords}
use forms.Submit.{
  Library, Request, charge_address, charge_endpoint, with_state, and_then, accept, routed, submit,
  resolve_endpoint,
}

abbrev UnlessOk {ℓ} : {B : Type ℓ} → Db → Result B × Db → Type 0
UnlessOk db r = is_ok r.0 ≡ false → SameRecords db r.1

charge-SameRecords {ℓ} :
    {B : Type ℓ} (db : Db) (c : Result (Unit {0}) × Db) (g : Db → Result B × Db)
    → SameRecords db c.1
    → UnlessOk c.1 (g c.1)
    → UnlessOk db (and_then c g)
charge-SameRecords db (ok u, db1) g same h bad =
    let reset : Db → Db = λ d. record d { counters = db.counters } in ap reset (h bad) ∙ same
charge-SameRecords db (err e, db1) g same h bad = same

finished-SameRecords {ℓ} :
    {B : Type ℓ} (db : Db) (r : Result (B × Db)) → UnlessOk db (with_state db r)
finished-SameRecords db (ok a) bad = cc
finished-SameRecords db (err e) bad = refl

module _ (lib : Library) (settings : Settings) (request : Request) (sweeps : Bool) (seen : Db)
    (delivery_id submission_id : String) (now received_at : Instant) where
  accept-SameRecords :
      (form : Endpoint) (db : Db)
      → UnlessOk db (
          accept lib settings request sweeps seen delivery_id submission_id now received_at form db)
  unfolding accept charge_endpoint
  accept-SameRecords form db =
      let charge = charge_endpoint sweeps settings form.id now db in
      charge-SameRecords db charge _ (charge_endpoint-SameRecords sweeps settings form.id now db)
        (finished-SameRecords charge.1 _)

  routed-SameRecords :
      (db : Db) (found : Result Endpoint)
      → UnlessOk db (
          routed lib settings request sweeps seen delivery_id submission_id now received_at db
            found)
  routed-SameRecords db (ok form) bad = accept-SameRecords form db bad
  routed-SameRecords db (err e) bad = refl

  -- A submission attempt that is refused, for whatever reason, leaves every record of the database
  -- as it was but the rate limit counters: no submission and no delivery is stored.
  pub submit-refused :
      (endpoint_id : String) (db : Db)
      → let (answer, db') =
          submit lib settings request sweeps seen delivery_id submission_id now received_at
            endpoint_id db in
        is_ok answer ≡ false → record db' { counters = db.counters } ≡ db
  unfolding submit charge_address
  submit-refused endpoint_id db =
      let charge = charge_address lib settings request now db in
      charge-SameRecords db charge _ (charge_address-SameRecords lib settings request now db)
        (routed-SameRecords charge.1 (resolve_endpoint endpoint_id charge.1))
