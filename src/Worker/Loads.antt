-- ===== src/Worker/Loads.antt =====
-- A tick that returns: `load_submissions` of hymical_forms/storage.py and `process_batch` of
-- hymical_forms/worker.py.
use forms.Prelude.{
  ltb, ◌<◌, ◌+◌, ℕ, String, ◌≡◌, suc, refl, sym, ap, subst, ◌∙◌, true, false, arith, some, List, [],
  ◌∷◌, ◌==◌, str_eq, eq_refl, is_some, length, filter, take, sort_by, ◌+◌, All, All-map, All-take,
  All-sort_by, All-passing, Bool-cases, Option-cases, if◌then◌else◌, inl, inr,
}
use forms.Exceptions.{Result, ok, err, key_error, is_ok, value_or, Result-cases, ◌>>=◌}
use forms.Webhooks.{RetryPolicy}
use forms.Ingestion.{Submission}
use forms.Models.{instant_limit, SubmissionRow, WebhookDelivery, Db}
use forms.Table.{find, update_at, row_count}
use forms.Storage.Deliveries.{due_condition, take_claim, claim_each, claim_due_deliveries}
use forms.Storage.Submissions.{to_domain}
use forms.Delivery.{Wire, build_payload, serialize_payload}
use forms.Worker.{
  Circumstances, Dict, get_item, last_of, carried, load_carried, load_submissions, bodies,
  process_batch,
}

-- The submission of a job is stored.
abbrev pub HasSubmission : Db → WebhookDelivery → Type 0
HasSubmission db job =
    (s : String) × (job.submission_id ≡ some s)
    × (is_some (find (λ r. r.id) s db.submissions) ≡ true)

-- Every entry names a stored submission.
abbrev IsLoadable : Db → Dict String → Type 0
IsLoadable db entries =
    All (λ (entry : String × String). is_some (find (λ r. r.id) entry.1 db.submissions) ≡ true)
      entries

carried-IsLoadable :
    (db : Db) (jobs : List WebhookDelivery)
    → All (HasSubmission db) jobs
    → IsLoadable db (carried jobs)
unfolding carried
carried-IsLoadable db [] h = tt
carried-IsLoadable db (job ∷ rest) ((s, names, stored), others) =
    rw names (stored, carried-IsLoadable db rest others)

-- The text of a stored submission can be encoded.
abbrev pub IsEncodable : Wire → Submission → Type 0
IsEncodable wire s = is_ok (serialize_payload wire.dumps (build_payload wire.rfc3339 s)) ≡ true

find-All :
    (P : SubmissionRow → Type 0) (s : String) (t : List SubmissionRow) (r : SubmissionRow)
    → All P t
    → find (λ x. x.id) s t ≡ some r
    → P r
unfolding find
find-All P s [] r h e = cc
find-All P s (x ∷ t) r (p, others) e = elim (Bool-cases (str_eq x.id s)) [
  | inl same ↦ let is : x ≡ r = ground (arith, e, same) in subst P is p
  | inr other ↦ find-All P s t r others (rw other at e)
]

-- The keys of a dictionary that is loaded are those that were asked for.
encoded_item :
    (wire : Wire) (job_id k : String) (s x : Submission) (others : Result Submission)
    → IsEncodable wire s
    → ((y : Submission) → others ≡ ok y → IsEncodable wire y)
    → last_of others (if str_eq job_id k then ok s else err key_error) ≡ ok x
    → IsEncodable wire x
encoded_item wire job_id k s x (ok y) here each got = each x got
encoded_item wire job_id k s x (err e) here each got = elim (Bool-cases (str_eq job_id k)) [
  | inl same ↦ let is : s ≡ x = ap (value_or s) (rw same at got) in subst (IsEncodable wire) is here
  | inr other ↦ cc (rw other at got)
]

load_carried_ok :
    (wire : Wire) (db : Db) (entries : Dict String)
    → All (λ row. IsEncodable wire (to_domain row)) db.submissions
    → IsLoadable db entries
    → (loaded : Dict Submission) × (load_carried db entries ≡ ok loaded)
      × ((k : String) → is_ok (get_item k loaded) ≡ is_ok (get_item k entries))
      × ((k : String) (s : Submission) → get_item k loaded ≡ ok s → IsEncodable wire s)
unfolding load_carried get_item
load_carried_ok wire db [] fine h = ([], refl, λ k. refl, λ k s e. cc)
load_carried_ok wire db ((job_id, s) ∷ rest) fine (stored, others) =
    let (loaded, done, same, each) = load_carried_ok wire db rest fine others in
    elim (Option-cases (find (λ r. r.id) s db.submissions)) [
      | inl missing ↦ ground (arith, missing, stored)
      | inr (row, e) ↦ (
        (job_id, to_domain row) ∷ loaded,
        rw (e, done) refl,
        λ k. ground (arith, same k),
        λ k x got.
            encoded_item wire job_id k (to_domain row) x (get_item k loaded)
              (find-All (λ r. IsEncodable wire (to_domain r)) s db.submissions row fine e) (each k)
              got,
      )
    ]

carried_more :
    (k : String) (job : WebhookDelivery) (rest : List WebhookDelivery)
    → is_ok (get_item k (carried rest)) ≡ true
    → is_ok (get_item k (carried (job ∷ rest))) ≡ true
unfolding carried get_item
carried_more k job rest h = elim (Option-cases job.submission_id) [
  | inl none_named ↦ rw none_named h
  | inr (s, names) ↦
      rw names
        (kept (if str_eq job.id k then ok s else err key_error) (get_item k (carried rest)) h)
]
  where
    kept : (other r : Result String) → is_ok r ≡ true → is_ok (last_of r other) ≡ true
    kept other (ok a) h = refl
    kept other (err e) h = cc

carried_here :
    (job : WebhookDelivery) (rest : List WebhookDelivery) (db : Db)
    → HasSubmission db job
    → is_ok (get_item job.id (carried (job ∷ rest))) ≡ true
unfolding carried get_item
carried_here job rest db (s, names, stored) =
    rw (names, eq_refl job.id) (either (get_item job.id (carried rest)))
  where
    either : (r : Result String) → is_ok (last_of r (ok s)) ≡ true
    either (ok a) = refl
    either (err e) = refl

carried_each :
    (jobs : List WebhookDelivery) (db : Db)
    → All (HasSubmission db) jobs
    → All (λ job. is_ok (get_item job.id (carried jobs)) ≡ true) jobs
carried_each [] db h = tt
carried_each (job ∷ rest) db (named, others) = (
  carried_here job rest db named,
  All-map (λ x. is_ok (get_item x.id (carried rest)) ≡ true)
      (λ x. is_ok (get_item x.id (carried (job ∷ rest))) ≡ true) rest
      (λ x. carried_more x.id job rest) (carried_each rest db others),
)

bodies_ok :
    (wire : Wire) (submissions : Dict Submission) (jobs : List WebhookDelivery)
    → ((k : String) (s : Submission) → get_item k submissions ≡ ok s → IsEncodable wire s)
    → All (λ job. is_ok (get_item job.id submissions) ≡ true) jobs
    → is_ok (bodies wire submissions jobs) ≡ true
unfolding bodies
bodies_ok wire submissions [] fine h = refl
bodies_ok wire submissions (job ∷ rest) fine (found, others) =
    let done = bodies_ok wire submissions rest fine others in
    elim (Result-cases (get_item job.id submissions)) [
      | inr (e, raised) ↦ cc (rw raised at found)
      | inl (submission, got) ↦ elim (Result-cases (bodies wire submissions rest)) [
        | inr (e, raised) ↦ cc (rw raised at done)
        | inl (sent, made) ↦
            elim (Result-cases
              (serialize_payload wire.dumps (build_payload wire.rfc3339 submission))) [
                | inr (e, raised) ↦
                    let good = fine job.id submission got in
                    let bad : false ≡ true = ap is_ok (sym raised) ∙ good in cc bad
                | inl (body, rendered) ↦ rw (got, rendered, made) refl
              ]
      ]
    ]

-- The bodies of jobs whose submissions are stored can be made.
batch_ok :
    (wire : Wire) (db : Db) (jobs : List WebhookDelivery)
    → All (λ row. IsEncodable wire (to_domain row)) db.submissions
    → All (HasSubmission db) jobs
    → is_ok (load_submissions db jobs >>= λ submissions. bodies wire submissions jobs) ≡ true
unfolding load_submissions
batch_ok wire db jobs fine h =
    let (loaded, done, same, each) =
      load_carried_ok wire db (carried jobs) fine (carried-IsLoadable db jobs h) in
    rw done (
      bodies_ok wire loaded jobs each (
        All-map (λ x. is_ok (get_item x.id (carried jobs)) ≡ true)
          (λ x. is_ok (get_item x.id loaded) ≡ true) jobs (λ x found. same x.id ∙ found)
          (carried_each jobs db h)))

-- What a condition on the rows that were seen says of those that are claimed.
claimed-HasSubmission :
    (db : Db) (mint : ℕ → String) (now expires_at i : ℕ) (candidates table : List WebhookDelivery)
    → All (HasSubmission db) candidates
    → All (HasSubmission db) (claim_each mint now expires_at i candidates table).0
unfolding claim_each
claimed-HasSubmission db mint now expires_at i [] table h = tt
claimed-HasSubmission db mint now expires_at i (c ∷ rest) table (named, others) =
    let table' =
      update_at (λ r. r.id) c.id (due_condition now) (take_claim expires_at (mint i)) table in
    let later = claimed-HasSubmission db mint now expires_at (suc i) rest table' others in
    elim (Bool-cases (row_count (due_condition now) (find (λ r. r.id) c.id table) == 1)) [
      | inl won ↦ rw won (named, later)
      | inr lost ↦ rw lost later
    ]

claimed_named :
    (mint : ℕ → String) (now lease limit : ℕ) (seen : List WebhookDelivery) (db loaded : Db)
    → All (λ row. due_condition now row ≡ true → HasSubmission loaded row) seen
    → All (HasSubmission loaded) (claim_due_deliveries mint now lease limit seen db).0
unfolding claim_due_deliveries
claimed_named mint now lease limit seen db loaded h =
    let P = HasSubmission loaded in
    let due = filter (due_condition now) seen in
    let f = λ (r : WebhookDelivery). r.next_attempt_at in
    claimed-HasSubmission loaded mint now (now + lease) 0 (take limit (sort_by f due)) db.deliveries
      (All-take P limit (sort_by f due)
        (All-sort_by P f due (All-passing P (due_condition now) seen h)))

-- A tick returns the number of deliveries that it claimed, and does not raise, whatever the
-- destinations answer and whatever becomes of the recording, where every delivery that its scan
-- read as due still has its submission stored when the submissions are loaded, the text of every
-- stored submission can then be encoded, and the lease ends before the year 10000.
pub process_batch_returns :
    (around : Circumstances) (now lease limit deadline : ℕ) (policy : RetryPolicy)
    (seen : List WebhookDelivery) (db : Db)
    → now + lease < instant_limit
    → let (claimed, claims) = claim_due_deliveries around.mint now lease limit seen db in
      All (λ row. due_condition now row ≡ true → HasSubmission (around.meanwhile 0 claims) row) seen
      → All (λ row. IsEncodable around.wire (to_domain row)) (around.meanwhile 0 claims).submissions
      → (process_batch around now lease limit deadline policy seen db).0 ≡ ok (length claimed)
unfolding process_batch
process_batch_returns around now lease limit deadline policy seen db early h encodable =
    let (claimed, claims) = claim_due_deliveries around.mint now lease limit seen db in
    let loaded = around.meanwhile 0 claims in
    let sent =
      load_submissions loaded claimed >>= λ submissions. bodies around.wire submissions claimed in
    let fine : is_ok sent ≡ true =
      batch_ok around.wire loaded claimed encodable
        (claimed_named around.mint now lease limit seen db loaded h) in
    let fits : ltb (now + lease) instant_limit ≡ true = ground (arith, early) in
    elim (Bool-cases (length claimed == 0)) [
      | inl idle ↦ rw (fits, idle) (ap ok (ground (arith, idle)))
      | inr busy ↦ elim (Result-cases sent) [
        | inl (requests, e) ↦ rw (fits, busy, e) refl
        | inr (raised, e) ↦ cc (rw e at fine)
      ]
    ]
