-- ===== src/Storage/Deliveries/ClaimLoop.antt =====
-- The loop of `claim_due_deliveries` in hymical_forms/storage.py, update by update.
use forms.Prelude.{
  ℕ, suc, ◌≤◌, ◌<◌, String, ◌≡◌, refl, true, false, Option, some, List, [], ◌∷◌, arith, str_eq,
  eq_refl, if◌then◌else◌, length, All, All-map, Bool-cases, Option-cases, inl, inr,
}
use forms.Webhooks.{processing}
use forms.Models.{Instant, WebhookDelivery}
use forms.Table.{find, update_at, changed, find-update_at}
use forms.Storage.Deliveries.{due_condition, take_claim, claim_each}

abbrev pub lookup : String → List WebhookDelivery → Option WebhookDelivery
lookup j t = find (λ r. r.id) j t

-- A claimed delivery is not due again before its lease runs out.
pub due-take_claim :
    (now expires_at : Instant) (token : String) (r : WebhookDelivery)
    → now < expires_at
    → due_condition now (take_claim expires_at token r) ≡ false
unfolding due_condition
due-take_claim now expires_at token r h = ground arith

-- One conditional update of the loop, read by lookup.
pub lookup-claim :
    (now expires_at : Instant) (token : String) (k j : String) (t : List WebhookDelivery)
    → lookup j (update_at (λ r. r.id) k (due_condition now) (take_claim expires_at token) t) ≡ (
        if str_eq k j
        then changed (due_condition now) (take_claim expires_at token) (lookup j t)
        else lookup j t)
lookup-claim now expires_at token k j t =
    find-update_at (λ r. r.id) k (due_condition now) (take_claim expires_at token) (λ r. refl) j t

module _ (mint : ℕ → String) (now expires_at : Instant) where
  undue-claim_each :
      (i : ℕ) (cs t : List WebhookDelivery) (j : String) (r : WebhookDelivery)
      → lookup j t ≡ some r
      → due_condition now r ≡ false
      → lookup j (claim_each mint now expires_at i cs t).1 ≡ some r
  unfolding claim_each
  undue-claim_each i [] t j r found undue = found
  undue-claim_each i (c ∷ cs) t j r found undue =
      undue-claim_each (suc i) cs
        (update_at (λ x. x.id) c.id (due_condition now) (take_claim expires_at (mint i)) t) j r
        (ground (arith, lookup-claim now expires_at (mint i) c.id j t)) undue

  -- A row that is due after one update was there before it, and was not touched.
  untouched :
      (token k j : String) (t : List WebhookDelivery) (old : WebhookDelivery)
      → now < expires_at
      → lookup j (update_at (λ r. r.id) k (due_condition now) (take_claim expires_at token) t)
        ≡ some old
      → due_condition now old ≡ true
      → lookup j t ≡ some old
  untouched token k j t old lease found due = elim (Option-cases (lookup j t)) [
    | inl e ↦ ground (arith, lookup-claim now expires_at token k j t)
    | inr (r, e) ↦ ground (
      arith,
      lookup-claim now expires_at token k j t,
      due-take_claim now expires_at token r lease,
    )
  ]

-- The delivery that a worker was handed was due, and is now held under the token it carries.
pub record IsClaimed (now expires_at : Instant) (before after : List WebhookDelivery)
    (c : WebhookDelivery) : Type 0 where
  pub token : String
  pub old : WebhookDelivery
  pub was : lookup c.id before ≡ some old
  pub due : due_condition now old ≡ true
  pub holds : lookup c.id after ≡ some (take_claim expires_at token old)
  pub carries : c.claim_token ≡ some token
  pub state : c.state ≡ processing

module _ (mint : ℕ → String) (now expires_at : Instant) (lease : now < expires_at) where
  IsClaimed-now :
      (i : ℕ) (c : WebhookDelivery) (cs t : List WebhookDelivery) (old : WebhookDelivery)
      → lookup c.id t ≡ some old
      → due_condition now old ≡ true
      → IsClaimed now expires_at t
          (claim_each mint now expires_at i (c ∷ cs) t).1
          (take_claim expires_at (mint i) c)
  unfolding claim_each
  IsClaimed-now i c cs t old found due = record {
    token = mint i;
    old = old;
    was = found;
    due = due;
    holds =
        undue-claim_each mint now expires_at (suc i) cs
          (update_at (λ r. r.id) c.id (due_condition now) (take_claim expires_at (mint i)) t) c.id
          (take_claim expires_at (mint i) old)
          (ground (arith, lookup-claim now expires_at (mint i) c.id c.id t, eq_refl c.id))
          (due-take_claim now expires_at (mint i) old lease);
    carries = refl;
    state = refl;
  }

  IsClaimed-later :
      (i : ℕ) (c : WebhookDelivery) (t after : List WebhookDelivery) (x : WebhookDelivery)
      → IsClaimed now expires_at
          (update_at (λ r. r.id) c.id (due_condition now) (take_claim expires_at (mint i)) t)
          after
          x
      → IsClaimed now expires_at t after x
  IsClaimed-later i c t after x h = record {
    token = h.token;
    old = h.old;
    was = untouched mint now expires_at (mint i) c.id x.id t h.old lease h.was h.due;
    due = h.due;
    holds = h.holds;
    carries = h.carries;
    state = h.state;
  }

  pub claim_each-IsClaimed :
      (i : ℕ) (cs t : List WebhookDelivery)
      → All
          (IsClaimed now expires_at t (claim_each mint now expires_at i cs t).1)
          (claim_each mint now expires_at i cs t).0
  unfolding claim_each
  claim_each-IsClaimed i [] t = tt
  claim_each-IsClaimed i (c ∷ cs) t =
      let t' = update_at (λ r. r.id) c.id (due_condition now) (take_claim expires_at (mint i)) t in
      let rest =
        All-map (IsClaimed now expires_at t' (claim_each mint now expires_at (suc i) cs t').1)
          (IsClaimed now expires_at t (claim_each mint now expires_at (suc i) cs t').1)
          (claim_each mint now expires_at (suc i) cs t').0
          (IsClaimed-later i c t (claim_each mint now expires_at (suc i) cs t').1)
          (claim_each-IsClaimed (suc i) cs t') in
      elim (Option-cases (lookup c.id t)) [
        | inl e ↦ rw e rest
        | inr (old, e) ↦ elim (Bool-cases (due_condition now old)) [
          | inl due ↦ rw (e, due) (IsClaimed-now i c cs t old e due, rest)
          | inr undue ↦ rw (e, undue) rest
        ]
      ]

-- What a claim does to the row of one key: nothing, or it takes a row that was due.
pub data Fate (now expires_at : Instant) (a b : Option WebhookDelivery) : Type 0 where
  kept : b ≡ a → Fate now expires_at a b
  taken :
      (old : WebhookDelivery) (token : String)
      → a ≡ some old
      → due_condition now old ≡ true
      → b ≡ some (take_claim expires_at token old)
      → Fate now expires_at a b

module _ (mint : ℕ → String) (now expires_at : Instant) (lease : now < expires_at) where
  fate_step :
      (token k j : String) (t : List WebhookDelivery) (b : Option WebhookDelivery)
      → Fate now expires_at
          (lookup j (update_at (λ r. r.id) k (due_condition now) (take_claim expires_at token) t))
          b
      → Fate now expires_at (lookup j t) b
  fate_step token k j t b (taken old tok was due is) =
      taken old tok (untouched mint now expires_at token k j t old lease was due) due is
  fate_step token k j t b (kept same) = elim (Option-cases (lookup j t)) [
    | inl e ↦ kept (ground (arith, lookup-claim now expires_at token k j t))
    | inr (r, e) ↦ elim (Bool-cases (due_condition now r)) [
      | inl due ↦ elim (Bool-cases (str_eq k j)) [
        | inl here ↦ taken r token e due (ground (arith, lookup-claim now expires_at token k j t))
        | inr other ↦ kept (ground (arith, lookup-claim now expires_at token k j t))
      ]
      | inr undue ↦ kept (ground (arith, lookup-claim now expires_at token k j t))
    ]
  ]

  pub fate-claim_each :
      (i : ℕ) (cs t : List WebhookDelivery) (j : String)
      → Fate now expires_at (lookup j t) (lookup j (claim_each mint now expires_at i cs t).1)
  unfolding claim_each
  fate-claim_each i [] t j = kept refl
  fate-claim_each i (c ∷ cs) t j =
      let t' = update_at (λ r. r.id) c.id (due_condition now) (take_claim expires_at (mint i)) t in
      fate_step (mint i) c.id j t (lookup j (claim_each mint now expires_at (suc i) cs t').1)
        (fate-claim_each (suc i) cs t' j)

  pub length-claim_each :
      (i : ℕ) (cs t : List WebhookDelivery)
      → length (claim_each mint now expires_at i cs t).0 ≤ length cs
  unfolding claim_each
  length-claim_each i [] t = omega arith
  length-claim_each i (c ∷ cs) t = ground (
    arith,
    length-claim_each (suc i) cs
        (update_at (λ r. r.id) c.id (due_condition now) (take_claim expires_at (mint i)) t),
  )
