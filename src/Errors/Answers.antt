-- ===== src/Errors/Answers.antt =====
-- What the answer to a refused credential of hymical_forms/api/security.py tells.
use forms.Prelude.{String, ◌≡◌, sym, ap, ◌∙◌, Option, some, arith, inl, inr, Bool-cases}
use forms.Exceptions.{Exception, err, invalid_api_key}
use forms.Models.{ManagementApiKey, Db}
use forms.Security.{authenticate, check_record, is_valid_management_key}
use forms.Storage.Keys.{find_management_key_by_digest}
use forms.Errors.{answer}

check_record-refusal :
    (digest : String) (o : Option ManagementApiKey) (e : Exception)
    → check_record digest o ≡ err e
    → e ≡ invalid_api_key
unfolding check_record
check_record-refusal digest o e h = ground arith

authenticate-refusal :
    (digest_key : String → String) (supplied : String) (db : Db) (e : Exception)
    → authenticate digest_key (some supplied) db ≡ err e
    → e ≡ invalid_api_key
unfolding authenticate
authenticate-refusal digest_key supplied db e h =
    elim (Bool-cases (is_valid_management_key supplied)) [
      | inl good ↦
          check_record-refusal (digest_key supplied)
            (find_management_key_by_digest (digest_key supplied) db) e (rw good at h)
      | inr bad ↦ cc (rw bad at h)
    ]

-- Two management credentials that are refused, be they malformed, unknown or revoked, each against
-- any database, are answered with the same 401: what is wrong with one is not told.
pub refused_alike :
    (digest_key : String → String) (supplied other : String) (db db' : Db) (e e' : Exception)
    → authenticate digest_key (some supplied) db ≡ err e
    → authenticate digest_key (some other) db' ≡ err e'
    → (answer e ≡ answer e') × ((answer e).status_code ≡ 401)
unfolding answer
refused_alike digest_key supplied other db db' e e' h h' =
    let known = authenticate-refusal digest_key supplied db e h in
    (
      ap answer (known ∙ sym (authenticate-refusal digest_key other db' e' h')),
      ap (λ x. (answer x).status_code) known,
    )
