-- ===== src/Tests/Promises.antt =====
-- A submission that was acknowledged, and what the service does from then on.
use forms.Prelude.{String, false, Option, none, some, [], ◌∷◌, arith}
use forms.Exceptions.{committed}
use forms.Models.{Db}
use forms.Configuration.{UpdateEndpointRequest, update_route}
use forms.Storage.Deliveries.{claim_due_deliveries}
use forms.Storage.Sweep.{delete_expired_submissions}
use forms.Consistency.{IsConsistent}
use forms.System.Allowance.{AllWithin}
use forms.Service.{begun, also, submission}
use forms.Service.Safety.{Served-IsSafe}
use forms.Tests.Samples.{empty, form, mint, policy}
use forms.Tests.Traffic.{settings, library}
use forms.Tests.Answered.{keyed, after}

-- A worker claims the delivery, the endpoint's webhook is taken away, and a sweep runs with a
-- cutoff after the submission.
abbrev claimed : Db
claimed = (claim_due_deliveries mint 6000000 60 10 after.deliveries after).1

abbrev refused : String → Option String
refused url = some "refused"

abbrev no_webhook : UpdateEndpointRequest
no_webhook = record { name = none; is_active = some false; webhook_url = some none }

abbrev changed : Db
changed = committed claimed (update_route refused "whsec_2" "contact" no_webhook claimed)

abbrev swept : Db
swept = (delete_expired_submissions 9000000 10 10 changed).1

Served-IsSafe_example : IsConsistent after × AllWithin policy after
Served-IsSafe_example = Served-IsSafe policy (form ∷ []) after (omega arith) (
    also begun (
      submission empty library settings keyed false empty "whd_1" "sub_1" 5000000 5000000
        "contact"))
