-- ===== src/Tests/Operators.antt =====
-- The commands of an operator, and the cap on request bodies.
use forms.Prelude.{
  ltb, ◌+◌, ℕ, ◌*◌, ◌≡◌, ◌≤◌, refl, arith, String, true, false, none, some, List, [], ◌∷◌, codes,
  All,
}
use forms.Exceptions.{overflow_error, err, committed, ok}
use forms.Models.{before_epoch, Db}
use forms.Retention.{day, RetentionPolicy}
use forms.Security.{require_management_key, is_secret, is_secret_character}
use forms.Security.Generation.{new_management_key, GeneratedKey, display_prefix}
use forms.Delivery.{take_text}
use forms.Table.{find}
use forms.Storage.Keys.{create_management_key}
use forms.CommandLine.{Report, created, create_key, exit_ok, cleanup_submissions}
use forms.CommandLine.Keys.{principal, create_key-authenticates}
use forms.CommandLine.Cleanup.{
  is_allowed, chosen_days, Leaves, cutoff_of, cleanup_submissions_exact,
}
use forms.BodyLimit.{
  App, finish, receive, send, Incoming, request, response_start, call, serve, exceeds, guarded,
  is_other_start, response_body,
}
use forms.BodyLimit.Guarantees.{call_transparent, given-call, guarded_overflowed}
use forms.Tests.Samples.{empty, with_delivery, waiting, minute}

abbrev secret : String
secret = "0123456789-0123456789_0123456789abcABCxyzXY"

abbrev digest : String → String
digest key = key

abbrev minted : GeneratedKey
minted = record {
  id = "mk_1f";
  key = "hym_live_0123456789-0123456789_0123456789abcABCxyzXY";
  display_prefix = "hym_live_01234567";
  digest = "hym_live_0123456789-0123456789_0123456789abcABCxyzXY";
}

minted_lem : new_management_key digest secret "1f" ≡ minted
unfolding new_management_key display_prefix take_text
minted_lem = refl

abbrev with_key : Db
with_key = committed empty (create_key minted "local" 10 empty)

secret_shape : is_secret (some (codes secret)) ≡ true
unfolding is_secret is_secret_character
secret_shape = refl

printed :
    create_key (new_management_key digest secret "1f") "local" 10 empty
    ≡ ok ((exit_ok, created "mk_1f" "local" minted.key), with_key)
unfolding create_key create_management_key find new_management_key display_prefix take_text
printed = refl

create_key-authenticates_example :
    (require_management_key digest (some minted.key) true 20 with_key).0
    ≡ ok (principal (new_management_key digest secret "1f") "local")
create_key-authenticates_example =
    create_key-authenticates digest secret "1f" "local" "mk_1f" "local" minted.key true 10 20 empty
      with_key secret_shape printed

abbrev retention : RetentionPolicy
retention = record { days = 1 }

cleanup_submissions_exact_example :
    let now = 9000 * minute in
    let db = with_delivery waiting in
    let allowed = is_allowed retention (some 2) 500 in
    let early = ltb (now + before_epoch) (chosen_days retention (some 2) * day) in
    let (answer, db') = cleanup_submissions retention (some 2) false 500 none now db db in
    (allowed ≡ false → (report : Report) × (answer ≡ ok (1, report)) × (db' ≡ db))
    × (allowed ≡ true → early ≡ true → (answer ≡ err overflow_error) × (db' ≡ db))
    × (allowed ≡ true
        → early ≡ false
        → (report : Report) × (answer ≡ ok (0, report))
          × Leaves (cutoff_of retention (some 2) now) false 500 db db')
cleanup_submissions_exact_example =
    cleanup_submissions_exact retention (some 2) false 500 (9000 * minute) (with_delivery waiting)

-- An application that reads two messages, whatever it is given, and answers.
abbrev reader : App
reader = receive (λ first. receive (λ second. send (response_start 200) finish))

abbrev render : ℕ → List ℕ
render n = n ∷ []

abbrev parts : List Incoming
parts = request (1 ∷ 2 ∷ []) ∷ request (3 ∷ []) ∷ []

call_transparent_example : call render 3 reader true (some 3) parts ≡ serve reader parts
call_transparent_example = call_transparent render 3 reader (some 3) parts refl (omega arith)

given-call_example :
    ((call render 2 reader true none parts).given ≤ 2)
    × (exceeds 2 none ≡ true → (call render 2 reader true none parts).given ≡ 0)
given-call_example = given-call render 2 reader none parts

cut_off :
    (call render 2 reader true none parts).sent ≡ response_start 413 ∷ response_body (2 ∷ []) ∷ []
unfolding call guarded
cut_off = refl

guarded_overflowed_example :
    All
      (λ message. is_other_start message ≡ false)
      (guarded render 2
        (receive (λ first. send (response_start 200) finish))
        (record { received = 1; overflowed = false; replaced = false })
        (request (1 ∷ 2 ∷ []) ∷ [])).sent
guarded_overflowed_example =
    guarded_overflowed render 2 (λ first. send (response_start 200) finish)
      (record { received = 1; overflowed = false; replaced = false }) (1 ∷ 2 ∷ []) [] (omega arith)
