-- ===== src/Configuration/Destinations.antt =====
-- Where stored endpoints send to: the handlers of hymical_forms/api/endpoints.py that create and
-- change an endpoint, with `validate_webhook_url` of hymical_forms/webhooks.py.
use forms.Prelude.{
  String, true, false, ◌≡◌, sym, subst, ◌∙◌, Option, none, some, List, [], ◌∷◌, opt_eq, str_eq,
  is_some, All, All-map, Bool-cases, Option-cases, inl, inr,
}
use forms.Exceptions.{ok, Result-cases, committed}
use forms.Models.{Instant, Endpoint, Db}
use forms.Table.{find, update_at}
use forms.Ingestion.{is_valid_endpoint_id}
use forms.Storage.Submissions.{same_null}
use forms.Storage.Endpoints.{get_endpoint, configured, insert_endpoint, flushed}
use forms.Storage.Endpoints as Storage
use forms.Webhooks.Destinations.{
  UrlLibrary, validate_webhook_url, IsExternal, validate_webhook_url-IsExternal,
}
use forms.Configuration.{
  Resolved, CreateEndpointRequest, UpdateEndpointRequest, resolve, new_destination, update_route,
  create_route, value_of,
}

module _ (validate : String → Option String) where
  -- The URL, where there is one, is accepted.
  abbrev pub Accepts : Option String → Type 0
  Accepts wanted = (url : String) → wanted ≡ some url → validate url ≡ none

  abbrev pub AllAccepted : Db → Type 0
  AllAccepted db = All (λ e. Accepts e.webhook_url) db.endpoints

  -- One request that creates or changes an endpoint, committed or refused.
  pub data ConfigStep : Db → Db → Type 0 where
    creating :
        (db : Db) (new_secret : String) (payload : CreateEndpointRequest) (now : Instant)
        → ConfigStep db (committed db (create_route validate new_secret payload now db))
    updating :
        (db : Db) (new_secret endpoint_id : String) (payload : UpdateEndpointRequest)
        → ConfigStep db (committed db (update_route validate new_secret endpoint_id payload db))

  pub data ConfigReach (start : Db) : Db → Type 0 where
    here : ConfigReach start start
    next : {db db' : Db} → ConfigReach start db → ConfigStep db db' → ConfigReach start db'

  new_destination-Accepts :
      (new_secret : String) (wanted : Option String) (r : Resolved)
      → new_destination validate new_secret wanted ≡ ok r
      → Accepts r.webhook_url × (r.webhook_url ≡ wanted)
  unfolding new_destination
  new_destination-Accepts new_secret none r h = (λ url e. cc, cc)
  new_destination-Accepts new_secret (some wanted) r h = elim (Option-cases (validate wanted)) [
    | inl fine ↦
        let is = rw fine at h in
        (λ url e. subst (λ u. validate u ≡ none) (let same : wanted ≡ url = cc in same) fine, cc)
    | inr (reason, refused) ↦ cc (rw refused at h)
  ]

  resolve-Accepts :
      (new_secret : String) (wanted : Option (Option String)) (url secret : Option String)
      (r : Resolved)
      → resolve validate new_secret wanted url secret ≡ ok r
      → Accepts url
      → Accepts r.webhook_url
  unfolding resolve
  resolve-Accepts new_secret none url secret r h before =
      let same : url ≡ r.webhook_url = cc in λ u is. before u (same ∙ is)
  resolve-Accepts new_secret (some wanted) url secret r h before =
      elim (Bool-cases (opt_eq wanted url)) [
        | inl same ↦
            let kept = rw same at h in
            let unchanged : url ≡ r.webhook_url = cc in λ u is. before u (unchanged ∙ is)
        | inr other ↦ (new_destination-Accepts new_secret wanted r (rw other at h)).0
      ]

  find-Accepts :
      (id : String) (t : List Endpoint) (e : Endpoint)
      → All (λ x. Accepts x.webhook_url) t
      → find (λ x. x.id) id t ≡ some e
      → Accepts e.webhook_url
  unfolding find
  find-Accepts id [] e h found = cc
  find-Accepts id (x ∷ t) e (first, rest) found = elim (Bool-cases (str_eq x.id id)) [
    | inl this ↦
        let is = rw this at found in
        let same : x ≡ e = cc in subst (λ y. Accepts y.webhook_url) same first
    | inr other ↦ find-Accepts id t e rest (rw other at found)
  ]

  update_at-Accepts :
      (id : String) (write : Endpoint → Endpoint) (t : List Endpoint)
      → ((x : Endpoint) → Accepts (write x).webhook_url)
      → All (λ x. Accepts x.webhook_url) t
      → All (λ x. Accepts x.webhook_url) (update_at (λ x. x.id) id (λ x. true) write t)
  unfolding update_at
  update_at-Accepts id write [] h k = tt
  update_at-Accepts id write (x ∷ t) h (first, rest) = elim (Bool-cases (str_eq x.id id)) [
    | inl this ↦ rw this (h x, rest)
    | inr other ↦ rw other (first, update_at-Accepts id write t h rest)
  ]

  created-AllAccepted :
      (new_secret : String) (payload : CreateEndpointRequest) (now : Instant) (db : Db)
      → AllAccepted db
      → AllAccepted (committed db (create_route validate new_secret payload now db))
  unfolding create_route Storage.create_endpoint insert_endpoint flushed
  created-AllAccepted new_secret payload now db h =
      elim (Bool-cases (is_valid_endpoint_id payload.id)) [
        | inr bad ↦ rw bad h
        | inl good ↦ elim (Result-cases (new_destination validate new_secret payload.webhook_url)) [
          | inr (e, raised) ↦ rw (good, raised) h
          | inl (r, made) ↦ elim (Bool-cases (is_some (find (λ x. x.id) payload.id db.endpoints))) [
            | inl taken ↦ rw (good, made, taken) h
            | inr free ↦ elim (Bool-cases (same_null payload.webhook_url r.webhook_secret)) [
              | inr odd ↦ rw (good, made, free, odd) h
              | inl paired ↦
                  let (fine, is) = new_destination-Accepts new_secret payload.webhook_url r made in
                  rw (good, made, free, paired) (λ url e. fine url (is ∙ e), h)
            ]
          ]
        ]
      ]

  updated-AllAccepted :
      (new_secret id : String) (payload : UpdateEndpointRequest) (db : Db)
      → AllAccepted db
      → AllAccepted (committed db (update_route validate new_secret id payload db))
  unfolding update_route Storage.update_endpoint get_endpoint configured
  updated-AllAccepted new_secret id payload db h = elim (Bool-cases (is_valid_endpoint_id id)) [
    | inr bad ↦ rw bad h
    | inl good ↦ elim (Option-cases (find (λ x. x.id) id db.endpoints)) [
      | inl missing ↦ rw (good, missing) h
      | inr (e, found) ↦
          elim (Result-cases
            (resolve validate new_secret payload.webhook_url e.webhook_url e.webhook_secret)) [
              | inr (raised, refused) ↦ rw (good, found, refused) h
              | inl (r, done) ↦ elim (Bool-cases (same_null r.webhook_url r.webhook_secret)) [
                | inr odd ↦ rw (good, found, done, odd) h
                | inl paired ↦
                    let fine =
                      resolve-Accepts new_secret payload.webhook_url e.webhook_url e.webhook_secret
                        r done (find-Accepts id db.endpoints e h found) in
                    rw (good, found, done, paired)
                      (update_at-Accepts e.id
                        (configured (value_of e.name payload.name)
                          (value_of e.is_active payload.is_active) r.webhook_url r.webhook_secret)
                        db.endpoints (λ x. fine) h)
              ]
            ]
    ]
  ]

  -- Whatever requests create and change endpoints, in whatever order, every stored webhook URL is
  -- one that the validator accepted.
  ConfigReach-AllAccepted :
      (start db : Db) → AllAccepted start → ConfigReach start db → AllAccepted db
  ConfigReach-AllAccepted start db h here = h
  ConfigReach-AllAccepted start db h (next r (creating before new_secret payload now)) =
      created-AllAccepted new_secret payload now before (ConfigReach-AllAccepted start before h r)
  ConfigReach-AllAccepted start db h (next r (updating before new_secret id payload)) =
      updated-AllAccepted new_secret id payload before (ConfigReach-AllAccepted start before h r)

-- From a store without endpoints, whatever requests create and change endpoints, in whatever
-- order and with whatever outcome, where private targets are not allowed: every stored webhook URL
-- splits into an http or https scheme and a host that is not empty and not internal, has at most
-- 2048 characters, and contains no space and no control character.
pub ConfigReach-IsExternal :
    (lib : UrlLibrary) (start db : Db)
    → start.endpoints ≡ []
    → ConfigReach (validate_webhook_url lib false) start db
    → All (λ e. (url : String) → e.webhook_url ≡ some url → IsExternal lib url) db.endpoints
ConfigReach-IsExternal lib start db none_yet r =
    All-map (λ e. Accepts (validate_webhook_url lib false) e.webhook_url)
      (λ e. (url : String) → e.webhook_url ≡ some url → IsExternal lib url) db.endpoints
      (λ e fine url is. validate_webhook_url-IsExternal lib url (fine url is))
      (ConfigReach-AllAccepted (validate_webhook_url lib false) start db
        (subst (λ t. All (λ e. Accepts (validate_webhook_url lib false) e.webhook_url) t)
          (sym none_yet) tt)
        r)
