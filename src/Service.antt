-- ===== src/Service.antt =====
-- The whole service: the handlers of hymical_forms/api/, the commands of hymical_forms/cli.py and
-- the transactions of its workers, in any order on one database.
pub mod Administration
pub mod Requests
pub mod Safety
use forms.Prelude.{ℕ, String, Bool, Option}
use forms.Exceptions.{committed}
use forms.Webhooks.{RetryPolicy}
use forms.Models.{Instant, Db}
use forms.Config.{Settings}
use forms.Security.Generation.{GeneratedKey}
use forms.Security.{require_management_key}
use forms.Retention.{RetentionPolicy}
use forms.Configuration.{CreateEndpointRequest, UpdateEndpointRequest, create_route, update_route}
use forms.Management.{replay_delivery}
use forms.CommandLine.{Arguments, dispatch}
use forms.Submit.{Library, Request, submit}
use forms.System.{Step}

-- One thing that the service does. A worker's tick, and a sweep whose count was read earlier, are
-- the transactions that they make.
pub data Event (policy : RetryPolicy) : Db → Db → Type 0 where
  submission :
      (db : Db) (lib : Library) (settings : Settings) (request : Request) (sweeps : Bool)
      (seen : Db) (delivery_id submission_id : String) (now received_at : Instant)
      (endpoint_id : String)
      → Event policy db
          (submit lib settings request sweeps seen delivery_id submission_id now received_at
            endpoint_id db).1
  replaying :
      (db : Db) (delivery_id : String) (now : Instant)
      → Event policy db (replay_delivery delivery_id now db).1
  creation :
      (db : Db) (validate : String → Option String) (new_secret : String)
      (payload : CreateEndpointRequest) (now : Instant)
      → Event policy db (committed db (create_route validate new_secret payload now db))
  change :
      (db : Db) (validate : String → Option String) (new_secret endpoint_id : String)
      (payload : UpdateEndpointRequest)
      → Event policy db (committed db (update_route validate new_secret endpoint_id payload db))
  authentication :
      (db : Db) (digest_key : String → String) (credentials : Option String) (writes : Bool)
      (now : Instant)
      → Event policy db (require_management_key digest_key credentials writes now db).1
  command :
      (db : Db) (arguments : Arguments) (retention : RetentionPolicy) (generated : GeneratedKey)
      (outage : Option ℕ) (now : Instant)
      → Event policy db (dispatch arguments retention generated outage now db db).1
  work : {db db' : Db} → Step policy db db' → Event policy db db'

pub data Served (policy : RetryPolicy) (start : Db) : Db → Type 0 where
  begun : Served policy start start
  also : {db db' : Db} → Served policy start db → Event policy db db' → Served policy start db'
