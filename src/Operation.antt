-- ===== src/Operation.antt =====
-- apps/manager/internal/operation/service.go: the life of an operation. Each reading of the clock
-- (`s.now()`) and each new id (`s.id()`) is an argument. A method reads the row, refuses a status
-- other than the one that it starts from, and writes the row with an event in one transaction.
pub mod Frame
pub mod Calls
pub mod Methods
pub mod Events
pub mod Traces
pub mod Invariant
pub mod Exact
pub mod Transitions
pub mod Progress
use supabase_installer.Prelude.{
  ℕ, Bool, String, Option, none, some, List, [], ◌∷◌, same, if◌then◌else◌,
}
use supabase_installer.Contracts.{
  Operation, OperationEvent, OperationType, OperationStatus, queued, running, succeeded, failed,
  rolling_back, rolled_back, Payload, raw, object, text, number, same_status,
}
use supabase_installer.Errors.{Result, ok, err, empty_id, invalid_transition}
use supabase_installer.Db.{Db, pure, raise, lift, ◌>>=◌, ◌>>◌}
use supabase_installer.Db.Schema.{OperationRow}
use supabase_installer.Store.Operations.{
  OperationUpdate, create_operation, get_operation, update_operation, operation_events_after,
  list_active_operations,
}

-- The columns that `store.OperationUpdate{…}` leaves out are zero values.
abbrev zero_update : OperationStatus → OperationUpdate
zero_update s = record {
  status = s;
  current_step = "";
  progress = 0;
  error_code = "";
  error_message = "";
  started_at = none;
  finished_at = none;
  event_type = "";
  event_payload = raw "";
  event_time = 0;
}

unfoldable pub new_queued_operation : String → ℕ → String → OperationType → Result Operation
new_queued_operation id now project_id operation_type =
    if same id ""
    then err empty_id
    else ok (record {
      id = id;
      project_id = project_id;
      type = operation_type;
      status = queued;
      current_step = "";
      progress = 0;
      error_code = "";
      error_message = "";
      started_at = none;
      finished_at = none;
      created_at = now;
    })

unfoldable pub create : String → ℕ → String → OperationType → Db Operation
create id now project_id operation_type = do
  operation ← lift (new_queued_operation id now project_id operation_type)
  create_operation operation "OPERATION_QUEUED" (raw "{\"status\":\"QUEUED\"}")
  pure operation

unfoldable pub require_status : String → OperationStatus → Db Operation
require_status id status = do
  operation ← get_operation id
  if same_status operation.status status
      then pure operation
      else raise (invalid_transition operation.status)

-- if update.StartedAt == nil { update.StartedAt = previous.StartedAt }
abbrev keep_start : Operation → OperationUpdate → OperationUpdate
keep_start previous u = elim u.started_at [
  | none ↦ record u { started_at = previous.started_at }
  | some _ ↦ u
]

unfoldable pub write_update : Operation → OperationUpdate → Db (Unit {0})
write_update previous u = update_operation previous.id (keep_start previous u)

unfoldable pub start : ℕ → String → Db (Unit {0})
start now id = do
  operation ← require_status id queued
  write_update operation (record (zero_update running) {
    started_at = some now;
    event_type = "OPERATION_STARTED";
    event_payload = raw "{\"status\":\"RUNNING\"}";
    event_time = now;
  })

abbrev step_payload : String → ℕ → String → Payload
step_payload step progress status =
    object (("progress", number progress) ∷ ("status", text status) ∷ ("step", text step) ∷ [])

unfoldable pub start_step : ℕ → String → String → ℕ → Db (Unit {0})
start_step now id step progress = do
  operation ← require_status id running
  write_update operation (record (zero_update running) {
    current_step = step;
    progress = progress;
    event_type = "STEP_STARTED";
    event_payload = step_payload step progress "RUNNING";
    event_time = now;
  })

unfoldable pub complete_step : ℕ → String → String → ℕ → Db (Unit {0})
complete_step now id step progress = do
  operation ← require_status id running
  write_update operation (record (zero_update running) {
    current_step = step;
    progress = progress;
    event_type = "STEP_COMPLETED";
    event_payload = step_payload step progress "SUCCEEDED";
    event_time = now;
  })

-- `cause` is the text of the error
unfoldable pub fail : ℕ → String → String → String → Db (Unit {0})
fail now id step cause = do
  operation ← require_status id running
  write_update operation (record (zero_update failed) {
    current_step = step;
    progress = operation.progress;
    error_code = "OPERATION_FAILED";
    error_message = cause;
    finished_at = some now;
    event_type = "OPERATION_FAILED";
    event_payload =
        object
          (("code", text "OPERATION_FAILED") ∷ ("message", text cause) ∷ ("step", text step) ∷ []);
    event_time = now;
  })

unfoldable pub begin_rollback : ℕ → String → Db (Unit {0})
begin_rollback now id = do
  operation ← require_status id failed
  write_update operation (record (zero_update rolling_back) {
    current_step = operation.current_step;
    progress = operation.progress;
    error_code = operation.error_code;
    error_message = operation.error_message;
    started_at = operation.started_at;
    event_type = "ROLLBACK_STARTED";
    event_payload = raw "{\"status\":\"ROLLING_BACK\"}";
    event_time = now;
  })

unfoldable pub complete_rollback : ℕ → String → Db (Unit {0})
complete_rollback now id = do
  operation ← require_status id rolling_back
  write_update operation (record (zero_update rolled_back) {
    current_step = operation.current_step;
    progress = operation.progress;
    error_code = operation.error_code;
    error_message = operation.error_message;
    started_at = operation.started_at;
    finished_at = some now;
    event_type = "ROLLBACK_COMPLETED";
    event_payload = raw "{\"status\":\"ROLLED_BACK\"}";
    event_time = now;
  })

unfoldable pub succeed : ℕ → String → Db (Unit {0})
succeed now id = do
  operation ← require_status id running
  write_update operation (record (zero_update succeeded) {
    current_step = operation.current_step;
    progress = 100;
    started_at = operation.started_at;
    finished_at = some now;
    event_type = "OPERATION_SUCCEEDED";
    event_payload = raw "{\"status\":\"SUCCEEDED\",\"progress\":100}";
    event_time = now;
  })

unfoldable pub events_after : String → ℕ → Db (List OperationEvent)
events_after id sequence = operation_events_after id sequence

unfoldable pub get : String → Db Operation
get id = get_operation id

unfoldable pub list_active :
    (OperationRow → OperationRow → Bool) → OperationType → Db (List Operation)
list_active before typ = list_active_operations before typ
