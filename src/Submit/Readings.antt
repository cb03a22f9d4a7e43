-- ===== src/Submit/Readings.antt =====
-- What an accepted request was read as, and that reading it again gives the same submission but for
-- its identifier and time: the steps of `submit` in hymical_forms/api/submissions.py.
use forms.Prelude.{
  ℕ, String, ◌≡◌, refl, sym, ap, ◌∙◌, Bool, true, false, Option, none, some, List, [], arith, ltb,
  length, Bool-cases, inl, inr, not,
}
use forms.Table.{find-key}
use forms.Exceptions.{
  Exception, Result, ok, err, refuse, ◌>>=◌, ◌>>◌, endpoint_inactive, unsupported_media_type,
}
use forms.Models.{Instant, Fields, Endpoint, Db}
use forms.Config.{Settings}
use forms.Ingestion.{
  Submission, build_submission, collect, is_empty, is_valid_endpoint_id, too_many_fields,
  empty_submission,
}
use forms.Storage.Endpoints.{get_endpoint}
use forms.Storage.Submissions.{StoredSubmission}
use forms.Submit.Forms.{parse_form, media_type, is_supported}
use forms.Submit.{
  Request, SubmissionAccepted, checked_key, read_submission, answered, acknowledge, with_state,
  and_then, resolve_endpoint, found_or_404,
}

-- The parts of a computation that returned.
pub bind-ok {ℓ κ} :
    {A : Type ℓ} {B : Type κ} {out : B} (r : Result A) (rest : A → Result B)
    → (do x ← r; rest x) ≡ ok out
    → (x : A) × (rest x ≡ ok out) × (r ≡ ok x)
bind-ok (err raised) rest done = cc
bind-ok (ok x) rest done = (x, done, refl)

pub and_then-ok {ℓ κ} :
    {A : Type ℓ} {B : Type κ} (c : Result A × Db) (g : Db → Result B × Db) {b : B} {db' : Db}
    → and_then c g ≡ (ok b, db')
    → g c.1 ≡ (ok b, db')
and_then-ok (ok a, db) g h = h
and_then-ok (err e, db) g h = cc

pub with_state-ok {ℓ} :
    {A : Type ℓ} (db : Db) (r : Result (A × Db)) {a : A} {db' : Db}
    → with_state db r ≡ (ok a, db')
    → r ≡ ok (a, db')
with_state-ok db (ok x) h = cc
with_state-ok db (err e) h = cc

pub answered-ok :
    (r : Result (StoredSubmission × Db)) {ack : SubmissionAccepted} {db' : Db}
    → answered r ≡ ok (ack, db')
    → (stored : StoredSubmission) × (r ≡ ok (stored, db')) × (acknowledge stored ≡ ack)
answered-ok (ok (stored, db)) h = (stored, cc, cc)
answered-ok (err e) h = cc

-- The steps of the normalization, of which only the last knows the identifier and the time.
built-ok :
    (b : Bool) (d e : Exception) (c : Result Fields) (mk : Fields → Submission) {s : Submission}
    → (do refuse b d; fields ← c; refuse (is_empty fields) e; ok (mk fields)) ≡ ok s
    → (fields : Fields) × (mk fields ≡ s)
      × ((mk' : Fields → Submission)
          → (do refuse b d; fields ← c; refuse (is_empty fields) e; ok (mk' fields))
            ≡ ok (mk' fields))
built-ok true d e c mk h = cc
built-ok false d e (err x) mk h = cc
built-ok false d e (ok fields) mk h = elim (Bool-cases (is_empty fields)) [
  | inl bare ↦ cc (rw bare at h)
  | inr full ↦ (fields, cc (rw full at h), λ mk'. rw full refl)
]

abbrev pub submission_of : (id endpoint_id : String) → Instant → Fields → Submission
submission_of id endpoint_id received_at fields = record {
  id = id;
  endpoint_id = endpoint_id;
  received_at = received_at;
  fields = fields;
}

build_submission-again :
    (endpoint_id : String) (items : List (String × String)) (max_fields max_name max_value : ℕ)
    (id : String) (received_at : Instant) {s : Submission}
    → build_submission endpoint_id items max_fields max_name max_value id received_at ≡ ok s
    → (fields : Fields) × (submission_of id endpoint_id received_at fields ≡ s)
      × ((id' : String) (later : Instant)
          → build_submission endpoint_id items max_fields max_name max_value id' later
            ≡ ok (submission_of id' endpoint_id later fields))
unfolding build_submission
build_submission-again endpoint_id items max_fields max_name max_value id received_at h =
    let (fields, is, again) =
      built-ok (ltb max_fields (length items)) (too_many_fields max_fields (length items))
        empty_submission (collect max_name max_value items [])
        (submission_of id endpoint_id received_at) h in
    (fields, is, λ id' later. again (submission_of id' endpoint_id later))

checked_key-ok : (key : Option String) {k : Option String} → checked_key key ≡ ok k → k ≡ key
unfolding checked_key
checked_key-ok none h = cc
checked_key-ok (some key) h = ground arith

-- The steps of the reading, of which only the last knows the identifier and the time.
abbrev reading {ℓ} :
    {A : Type ℓ}
    → (b b' : Bool) (d d' : Exception) → Result (Option String)
    → Result A
    → (A → Result Submission)
    → Result (Option String × Submission)
reading b b' d d' m n build = do
  refuse b d
  refuse b' d'
  key ← m
  items ← n
  s ← build items
  ok (key, s)

read-ok {ℓ} :
    {A : Type ℓ} (b b' : Bool) (d d' : Exception) (m : Result (Option String)) (n : Result A)
    (build : A → Result Submission) {k : Option String} {s : Submission}
    → reading b b' d d' m n build ≡ ok (k, s)
    → (items : A) × (m ≡ ok k)
      × (build items ≡ ok s)
      × ((build' : A → Result Submission) (s' : Submission)
          → build' items ≡ ok s'
          → reading b b' d d' m n build' ≡ ok (k, s'))
read-ok true b' d d' m n build h = cc
read-ok false true d d' m n build h = cc
read-ok false false d d' (err e) n build h = cc
read-ok false false d d' (ok key) (err e) build h = cc
read-ok false false d d' (ok key) (ok items) build h =
    let (s, is, built) = bind-ok (build items) _ h in (items, cc, cc, λ build' s' e. rw e (cc is))

-- What a request was read as: its key, and a submission for the endpoint; read again, at any other
-- time and from any other address, it gives the same fields.
pub read_submission-again :
    (settings : Settings) (request : Request) (form : Endpoint) (id : String)
    (received_at : Instant) {k : Option String} {s : Submission}
    → read_submission settings request form id received_at ≡ ok (k, s)
    → (fields : Fields) × (k ≡ request.idempotency_key)
      × (submission_of id form.id received_at fields ≡ s)
      × ((peer forwarded : Option (List ℕ)) (id' : String) (later : Instant)
          → read_submission settings
              (record request { peer = peer; forwarded_for = forwarded })
              form
              id'
              later
            ≡ ok (k, submission_of id' form.id later fields))
unfolding read_submission
read_submission-again settings request form id received_at {k} {s} h =
    let media = media_type request.content_type in
    let build : String → Instant → List (String × String) → Result Submission = λ i t items.
      build_submission form.id items settings.max_fields settings.max_field_name_length
        settings.max_field_value_length i t in
    let (items, keyed, built, again) =
      read-ok (not form.is_active) (not (is_supported media)) (endpoint_inactive form.id)
        (unsupported_media_type media) (checked_key request.idempotency_key)
        (parse_form request.parsers media settings) (build id received_at) {k = k} {s = s} h in
    let (fields, is, rebuilt) =
      build_submission-again form.id items settings.max_fields settings.max_field_name_length
        settings.max_field_value_length id received_at built in
    (
      fields,
      checked_key-ok request.idempotency_key keyed,
      is,
      λ peer forwarded id' later.
          again (build id' later) (submission_of id' form.id later fields) (rebuilt id' later),
    )

pub resolve_endpoint-same :
    (endpoint_id : String) (db db' : Db)
    → db'.endpoints ≡ db.endpoints
    → resolve_endpoint endpoint_id db' ≡ resolve_endpoint endpoint_id db
unfolding resolve_endpoint get_endpoint
resolve_endpoint-same endpoint_id db db' same = rw same refl

found-id :
    (endpoint_id : String) (db : Db) (o : Option Endpoint) {form : Endpoint}
    → get_endpoint endpoint_id db ≡ o
    → found_or_404 endpoint_id o ≡ ok form
    → form.id ≡ endpoint_id
unfolding get_endpoint
found-id endpoint_id db none e h = cc
found-id endpoint_id db (some x) {form} e h =
    let same : x ≡ form = cc in
    ap (λ r. r.id) (sym same) ∙ find-key (λ r. r.id) endpoint_id db.endpoints e

pub resolve_endpoint-id :
    (endpoint_id : String) (db : Db) {form : Endpoint}
    → resolve_endpoint endpoint_id db ≡ ok form
    → form.id ≡ endpoint_id
unfolding resolve_endpoint
resolve_endpoint-id endpoint_id db h =
    let (_, found, _) = bind-ok (refuse (not (is_valid_endpoint_id endpoint_id)) _) _ h in
    found-id endpoint_id db (get_endpoint endpoint_id db) refl found
