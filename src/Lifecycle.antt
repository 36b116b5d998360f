-- ===== src/Lifecycle.antt =====
-- apps/manager/internal/lifecycle/service.go: start, stop, restart and delete of a server. The provisioner is a
-- parameter: it answers, and does not touch the tables. `clock` gives the readings of the clock one after
-- another, and `message` the text of an error.
pub mod Delete
pub mod Force
use supabase_installer.Prelude.{
  ℕ, String, Bool, true, false, ◌&&◌, not, Option, none, some, same, if◌then◌else◌,
}
use supabase_installer.Contracts.{Project, ProjectStatus, HealthStatus, Operation, OperationType}
use supabase_installer.Errors.{Error, Result, ok, err, confirmation_required, unsupported_action}
use supabase_installer.Db.{Db, pure, raise, lift, attempt, ignore, ◌>>=◌, ◌>>◌}
use supabase_installer.Store.Projects.{update_project_status, delete_project}
use supabase_installer.Operation

pub data Action : Type 0 where
  start stop restart delete_runtime delete_data : Action
  other : String → Action

abbrev pub action_name : Action → String
action_name Action.start = "START"
action_name Action.stop = "STOP"
action_name Action.restart = "RESTART"
action_name Action.delete_runtime = "DELETE_RUNTIME"
action_name Action.delete_data = "DELETE_DATA"
action_name (Action.other name) = name

abbrev pub provisioner_action : Action → String
provisioner_action Action.start = "START"
provisioner_action Action.stop = "STOP"
provisioner_action Action.restart = "RESTART"
provisioner_action Action.delete_runtime = "DELETE_RUNTIME"
provisioner_action Action.delete_data = "DELETE_DATA"
provisioner_action (Action.other name) = ""

abbrev pub is_delete_data : Action → Bool
is_delete_data Action.delete_data = true
is_delete_data _ = false

abbrev pub is_delete : Action → Bool
is_delete Action.delete_data = true
is_delete Action.delete_runtime = true
is_delete _ = false

-- the idempotency key is made of the two fields that stand here
pub record LifecycleRequest : Type 0 where
  pub operation_id : String
  pub key_action : String
  pub project_id : String
  pub project_name : String
  pub slug : String
  pub action : String
  pub confirm_project_name : String

pub record Provisioner : Type 0 where
  pub lifecycle : LifecycleRequest → Result (Unit {0})
  pub inspect : String → String → Result HealthStatus

-- what Run returns: `none` is the zero Operation
pub record Ran : Type 0 where
  pub operation : Option Operation
  pub error : Option Error

abbrev pub operation_type : Action → Result OperationType
operation_type Action.start = ok OperationType.start
operation_type Action.stop = ok OperationType.stop
operation_type Action.restart = ok OperationType.restart
operation_type Action.delete_runtime = ok OperationType.delete
operation_type Action.delete_data = ok OperationType.delete
operation_type (Action.other name) = err unsupported_action

unfoldable pub queue : String → ℕ → Project → Action → String → Db Operation
queue id now project action confirmation =
    if is_delete_data action && not (same confirmation project.name)
    then raise confirmation_required
    else do typ ← lift (operation_type action); Operation.create id now project.id typ

unfoldable pub force_delete : Provisioner → String → ℕ → Project → Action → String → Db (Unit {0})
force_delete provisioner operation_id now project action confirmation =
    if not (is_delete action)
    then raise unsupported_action
    else (if is_delete_data action && not (same confirmation project.name)
        then raise confirmation_required
        else do
          lift (
              provisioner.lifecycle (record {
                operation_id = operation_id;
                key_action = action_name action;
                project_id = project.id;
                project_name = project.name;
                slug = project.slug;
                action = provisioner_action action;
                confirm_project_name = confirmation;
              }))
          if is_delete_data action
              then delete_project project.id
              else update_project_status project.id ProjectStatus.stopped HealthStatus.stopped now)

abbrev pub gave : Option Operation → Error → Db Ran
gave o e = pure (record { operation = o; error = some e })

abbrev pub latest : Result Operation → Option Operation
latest (ok o) = some o
latest (err e) = none

abbrev pub error_of : Result Operation → Option Error
error_of (ok o) = none
error_of (err e) = some e

module _ (provisioner : Provisioner) (clock : ℕ → ℕ) (message : Error → String) (project : Project)
    (action : Action) (queued : Operation) where
  abbrev pub request : LifecycleRequest
  request = record {
    operation_id = queued.id;
    key_action = action_name action;
    project_id = project.id;
    project_name = project.name;
    slug = project.slug;
    action = provisioner_action action;
    confirm_project_name = project.name;
  }

  unfoldable pub give_up : String → Error → Db Ran
  give_up step e =
      ignore (Operation.fail (clock 3) queued.id step (message e)) >> gave (some queued) e

  abbrev pub succeeded_with : Result (Unit {0}) → Db Ran
  succeeded_with (err e) = gave (some queued) e
  succeeded_with (ok _) = attempt (Operation.get queued.id) >>= λ r.
      pure (record { operation = latest r; error = error_of r })

  unfoldable pub finish : Db Ran
  finish = attempt (Operation.succeed (clock 4) queued.id) >>= succeeded_with

  abbrev pub go_on : String → Result (Unit {0}) → Db Ran
  go_on step (err e) = give_up step e
  go_on step (ok _) = finish

  unfoldable pub set_status : ProjectStatus → HealthStatus → Db Ran
  set_status status health =
      attempt (update_project_status project.id status health (clock 5)) >>= go_on "UPDATE_PROJECT"

  abbrev pub checked : Result HealthStatus → Db Ran
  checked (err e) = give_up "HEALTH_CHECK" e
  checked (ok health) = set_status ProjectStatus.running health

  unfoldable pub provisioned : Action → Db Ran
  unfolding set_status
  provisioned Action.delete_data = attempt (delete_project project.id) >>= go_on "DELETE_METADATA"
  provisioned Action.stop = set_status ProjectStatus.stopped HealthStatus.stopped
  provisioned Action.delete_runtime = set_status ProjectStatus.stopped HealthStatus.stopped
  provisioned _ = checked (provisioner.inspect project.id project.slug)

  abbrev pub answered : Result (Unit {0}) → Db Ran
  answered (err e) =
      ignore (Operation.fail (clock 2) queued.id (action_name action) (message e))
      >> (attempt (Operation.get queued.id) >>= λ r. gave (latest r) e)
  answered (ok _) =
      ignore (Operation.complete_step (clock 2) queued.id (action_name action) 90)
      >> provisioned action

  abbrev pub started_with : Result (Unit {0}) → Db Ran
  started_with (err e) = gave (some queued) e
  started_with (ok _) =
      ignore (Operation.start_step (clock 1) queued.id (action_name action) 25)
      >> answered (provisioner.lifecycle request)

  unfoldable pub run : Db Ran
  run = attempt (Operation.start (clock 0) queued.id) >>= started_with
