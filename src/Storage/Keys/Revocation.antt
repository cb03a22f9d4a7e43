-- ===== src/Storage/Keys/Revocation.antt =====
-- A revocation is kept: `revoke_management_key` of hymical_forms/storage.py.
use forms.Prelude.{
  String, ◌≡◌, refl, sym, ap, subst, ◌∙◌, Bool, true, false, Option, none, some, List, [], ◌∷◌,
  arith, is_some, str_eq, eq_iff, eq_refl, first, any, Bool-cases, Option-cases, inl, inr,
}
use forms.Exceptions.{committed}
use forms.Models.{Instant, ManagementApiKey, Db}
use forms.Table.{find, update_at}
use forms.Storage.Keys.{
  revoke_row, revoke_management_key, find_management_key_by_digest, record_management_key_use,
  create_management_key,
}

abbrev pub has_digest : String → ManagementApiKey → Bool
has_digest digest r = str_eq r.key_digest digest

pub first-holds :
    (p : ManagementApiKey → Bool) (t : List ManagementApiKey) {r : ManagementApiKey}
    → first p t ≡ some r
    → p r ≡ true
first-holds p [] h = cc
first-holds p (x ∷ t) {r} h = elim (Bool-cases (p x)) [
  | inl y ↦ let same : x ≡ r = ground (arith, h, y) in subst (λ z. p z ≡ true) same y
  | inr n ↦ first-holds p t (rw n at h)
]

-- Where a key is the one of its identifier and the one of its digest, a change at the identifier
-- that keeps the digest is seen at the digest.
pub digest-update_at :
    (digest : String) (f : ManagementApiKey → ManagementApiKey) (key : ManagementApiKey)
    (t : List ManagementApiKey)
    → has_digest digest (f key) ≡ true
    → first (has_digest digest) t ≡ some key
    → find (λ r. r.id) key.id t ≡ some key
    → first (has_digest digest) (update_at (λ r. r.id) key.id (λ r. true) f t) ≡ some (f key)
unfolding find update_at
digest-update_at digest f key [] keeps h g = cc
digest-update_at digest f key (r ∷ t) keeps h g = elim (Bool-cases (str_eq r.id key.id)) [
  | inl here ↦
      let same : key ≡ r = ground (arith, g, here) in
      let moved : has_digest digest (f r) ≡ true =
        subst (λ k. has_digest digest (f k) ≡ true) same keeps in
      rw (here, moved) (ap (λ k. some (f k)) (sym same))
  | inr elsewhere ↦ elim (Bool-cases (str_eq r.key_digest digest)) [
    | inl y ↦
        let same : r ≡ key = ground (arith, h, y) in
        cc (subst (λ k. str_eq k.id key.id ≡ false) same elsewhere, eq_refl key.id)
    | inr n ↦
        rw (elsewhere, n) (digest-update_at digest f key t keeps (rw n at h) (rw elsewhere at g))
  ]
]

abbrev revoked : Option ManagementApiKey → Bool
revoked none = false
revoked (some key) = is_some key.revoked_at

-- Is the key that a digest names revoked?
abbrev pub withdrawn : String → List ManagementApiKey → Bool
withdrawn digest t = revoked (first (has_digest digest) t)

withdrawn-update_at :
    (digest k : String) (f : ManagementApiKey → ManagementApiKey) (t : List ManagementApiKey)
    → ((r : ManagementApiKey) → has_digest digest (f r) ≡ has_digest digest r)
    → ((r : ManagementApiKey) → is_some r.revoked_at ≡ true → is_some (f r).revoked_at ≡ true)
    → withdrawn digest t ≡ true
    → withdrawn digest (update_at (λ r. r.id) k (λ r. true) f t) ≡ true
unfolding update_at
withdrawn-update_at digest k f [] same stays h = h
withdrawn-update_at digest k f (r ∷ t) same stays h = elim (Bool-cases (str_eq r.id k)) [
  | inl here ↦ elim (Bool-cases (has_digest digest r)) [
    | inl y ↦ rw (here, same r, y) (stays r (rw y at h))
    | inr n ↦ rw (here, same r, n) (rw n at h)
  ]
  | inr elsewhere ↦ elim (Bool-cases (has_digest digest r)) [
    | inl y ↦ rw (elsewhere, y) (rw y at h)
    | inr n ↦ rw (elsewhere, n) (withdrawn-update_at digest k f t same stays (rw n at h))
  ]
]

any-first :
    (p : ManagementApiKey → Bool) (t : List ManagementApiKey) → any p t ≡ false → first p t ≡ none
any-first p [] h = refl
any-first p (x ∷ t) h = ground (arith, h, any-first p t)

-- One committed transaction on the keys, by whichever process.
pub data KeyStep : Db → Db → Type 0 where
  create_key :
      (db : Db) (key_id name display_prefix key_digest : String) (now : Instant)
      → KeyStep db
          (committed db (create_management_key key_id name display_prefix key_digest now db))
  use_key :
      (db : Db) (key_id : String) (now : Instant)
      → KeyStep db (record_management_key_use key_id now db)
  revoke_key :
      (db : Db) (key_id : String) (now : Instant)
      → KeyStep db (revoke_management_key key_id now db).1

pub data KeyReach (start : Db) : Db → Type 0 where
  here : KeyReach start start
  next : {db db' : Db} → KeyReach start db → KeyStep db db' → KeyReach start db'

created-withdrawn :
    (digest key_id name display_prefix key_digest : String) (now : Instant) (db : Db)
    → withdrawn digest db.keys ≡ true
    → withdrawn digest
        (committed db (create_management_key key_id name display_prefix key_digest now db)).keys
      ≡ true
unfolding create_management_key
created-withdrawn digest key_id name prefix key_digest now db h =
    elim (Bool-cases (is_some (find (λ r. r.id) key_id db.keys))) [
      | inl y ↦ rw y h
      | inr n ↦ elim (Bool-cases (any (λ r. str_eq r.key_digest key_digest) db.keys)) [
        | inl y ↦ rw (n, y) h
        | inr m ↦ elim (Bool-cases (str_eq key_digest digest)) [
          | inr other ↦ rw (n, m, other) h
          | inl clash ↦
              let fresh : first (has_digest digest) db.keys ≡ none =
                subst (λ d. first (has_digest d) db.keys ≡ none)
                  ((eq_iff key_digest digest).0 clash)
                  (any-first (has_digest key_digest) db.keys m) in
              cc (ap revoked fresh, h)
        ]
      ]
    ]

KeyStep-withdrawn :
    {db db' : Db} (digest : String)
    → KeyStep db db'
    → withdrawn digest db.keys ≡ true
    → withdrawn digest db'.keys ≡ true
unfolding record_management_key_use revoke_management_key revoke_row
KeyStep-withdrawn digest (create_key db k n p d now) h = created-withdrawn digest k n p d now db h
KeyStep-withdrawn digest (use_key db k now) h =
    withdrawn-update_at digest k (λ (r : ManagementApiKey). record r { last_used_at = some now })
      db.keys (λ r. refl) (λ r e. e) h
KeyStep-withdrawn digest (revoke_key db k now) h =
    elim (Option-cases (find (λ r. r.id) k db.keys)) [
      | inl e ↦ rw e h
      | inr (r, e) ↦ elim (Bool-cases (is_some r.revoked_at)) [
        | inl y ↦ rw (e, y) h
        | inr n ↦
            rw (e, n)
              (withdrawn-update_at digest k
                (λ (x : ManagementApiKey). record x { revoked_at = some now }) db.keys (λ x. refl)
                (λ x y. refl) h)
      ]
    ]

pub KeyReach-withdrawn :
    {start db : Db} (digest : String)
    → KeyReach start db
    → withdrawn digest start.keys ≡ true
    → withdrawn digest db.keys ≡ true
KeyReach-withdrawn digest here h = h
KeyReach-withdrawn digest (next r st) h =
    KeyStep-withdrawn digest st (KeyReach-withdrawn digest r h)

pub revoke-withdrawn :
    (digest : String) (now : Instant) (key : ManagementApiKey) (db : Db)
    → find_management_key_by_digest digest db ≡ some key
    → find (λ r. r.id) key.id db.keys ≡ some key
    → withdrawn digest (revoke_management_key key.id now db).1.keys ≡ true
unfolding revoke_management_key find_management_key_by_digest revoke_row
revoke-withdrawn digest now key db h g = elim (Bool-cases (is_some key.revoked_at)) [
  | inl y ↦ rw (g, y) (ap revoked h ∙ y)
  | inr n ↦
      rw (g, n)
        (ap revoked (
          digest-update_at digest (λ (x : ManagementApiKey). record x { revoked_at = some now }) key
            db.keys (first-holds (has_digest digest) db.keys h) h g))
]
