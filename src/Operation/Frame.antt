-- ===== src/Operation/Frame.antt =====
-- What the methods of apps/manager/internal/operation/service.go leave alone: every view of the tables that does not
-- read the operations and their events.
use supabase_installer.Prelude.{ℕ, String, List, ◌≡◌}
use supabase_installer.Contracts.{Operation, OperationEvent, OperationStatus}
use supabase_installer.Db.Schema.{Tables, OperationRow}
use supabase_installer.Db.Frame.{Keeps, frame_rules, statement_rules}
use supabase_installer.Store.Operations.{
  OperationUpdate, get_operation, update_operation, update_row, append_operation_event,
}
use supabase_installer.Operation.{
  require_status, write_update, start, start_step, complete_step, fail, begin_rollback,
  complete_rollback, succeed, get,
}

module _ {X : Type 0} (view : Tables → X)
    (apart : (t : Tables) (operations : List OperationRow) (events : List OperationEvent)
      → view (record t { operations = operations; events = events }) ≡ view t) where
  append-Keeps :
      (id event_type : String) (payload : _) (at : ℕ)
      → Keeps view (append_operation_event id event_type payload at)
  unfolding append_operation_event
  append-Keeps id event_type payload at = search (statement_rules, apart)

  update_row-Keeps : (id : String) (u : OperationUpdate) → Keeps view (update_row id u)
  unfolding update_row
  update_row-Keeps id u = search (statement_rules, apart)

  update_operation-Keeps : (id : String) (u : OperationUpdate) → Keeps view (update_operation id u)
  unfolding update_operation
  update_operation-Keeps id u = search (frame_rules, update_row-Keeps, append-Keeps) depth 8

  get_operation-Keeps : (id : String) → Keeps view (get_operation id)
  unfolding get_operation
  get_operation-Keeps id = search frame_rules

  require_status-Keeps :
      (id : String) (status : OperationStatus) → Keeps view (require_status id status)
  unfolding require_status
  require_status-Keeps id status = search (frame_rules, get_operation-Keeps)

  write_update-Keeps : (o : Operation) (u : OperationUpdate) → Keeps view (write_update o u)
  unfolding write_update
  write_update-Keeps o u = search update_operation-Keeps

  pub start-Keeps : (now : ℕ) (id : String) → Keeps view (start now id)
  unfolding start
  start-Keeps now id = search (frame_rules, require_status-Keeps, write_update-Keeps)

  pub start_step-Keeps :
      (now : ℕ) (id step : String) (progress : ℕ) → Keeps view (start_step now id step progress)
  unfolding start_step
  start_step-Keeps now id step progress =
      search (frame_rules, require_status-Keeps, write_update-Keeps)

  pub complete_step-Keeps :
      (now : ℕ) (id step : String) (progress : ℕ) → Keeps view (complete_step now id step progress)
  unfolding complete_step
  complete_step-Keeps now id step progress =
      search (frame_rules, require_status-Keeps, write_update-Keeps)

  pub fail-Keeps : (now : ℕ) (id step cause : String) → Keeps view (fail now id step cause)
  unfolding fail
  fail-Keeps now id step cause = search (frame_rules, require_status-Keeps, write_update-Keeps)

  pub begin_rollback-Keeps : (now : ℕ) (id : String) → Keeps view (begin_rollback now id)
  unfolding begin_rollback
  begin_rollback-Keeps now id = search (frame_rules, require_status-Keeps, write_update-Keeps)

  pub complete_rollback-Keeps : (now : ℕ) (id : String) → Keeps view (complete_rollback now id)
  unfolding complete_rollback
  complete_rollback-Keeps now id = search (frame_rules, require_status-Keeps, write_update-Keeps)

  pub succeed-Keeps : (now : ℕ) (id : String) → Keeps view (succeed now id)
  unfolding succeed
  succeed-Keeps now id = search (frame_rules, require_status-Keeps, write_update-Keeps)

  pub get-Keeps : (id : String) → Keeps view (get id)
  unfolding get
  get-Keeps id = search get_operation-Keeps
