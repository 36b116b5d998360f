-- ===== src/Store/Operations.antt =====
-- apps/manager/internal/store/operations.go: the rows of `operations` and `operation_events`.
-- A NULL text column reads as "" (COALESCE), and "" is written as NULL (NULLIF).
pub mod Laws
use supabase_installer.Prelude.{
  ℕ, ◌+◌, String, Bool, ◌&&◌, ◌||◌, Option, none, some, List, [], ◌∷◌, ◌++◌, ltb, leb, ◌==◌, same,
  any, find, select, update, affected, order_by, first?, if◌then◌else◌,
}
use supabase_installer.Contracts.{
  Project, Operation, OperationEvent, OperationType, OperationStatus, queued, running, Payload, raw,
  same_status, same_type,
}
use supabase_installer.Errors.{Error, Result, ok, err, not_found, driver, null_column, is_not_found}
use supabase_installer.Db.{Conn, Db, pure, raise, lift, statement, query, in_tx, ◌>>=◌, ◌>>◌}
use supabase_installer.Db.Schema.{Tables, OperationRow}

pub record OperationUpdate : Type 0 where
  pub status : OperationStatus
  pub current_step : String
  pub progress : ℕ
  pub error_code : String
  pub error_message : String
  pub started_at : Option ℕ
  pub finished_at : Option ℕ
  pub event_type : String
  pub event_payload : Payload
  pub event_time : ℕ

-- WHERE id = ?
abbrev pub has_id : String → OperationRow → Bool
has_id id row = same row.id id

-- WHERE operation_id = ?
abbrev pub of_operation : String → OperationEvent → Bool
of_operation id event = same event.operation_id id

-- COALESCE(MAX(sequence), 0)
abbrev pub max_sequence : String → List OperationEvent → ℕ
max_sequence id [] = 0
max_sequence id (event ∷ events) =
    let rest = max_sequence id events in
    if of_operation id event && ltb rest event.sequence then event.sequence else rest

-- `len(payload) == 0`
abbrev or_empty_object : Payload → Payload
or_empty_object (raw s) = if same s "" then raw "{}" else raw s
or_empty_object p = p

-- The row refers to its operation (a foreign key), and the next sequence is free in any table.
unfoldable pub append_operation_event : String → String → Payload → ℕ → Db (Unit {0})
append_operation_event id event_type payload at = statement λ t.
    if any (has_id id) t.operations
    then ok (
      tt,
      record t {
        events =
            t.events
            ++ record {
              operation_id = id;
              sequence = max_sequence id t.events + 1;
              type = event_type;
              payload = or_empty_object payload;
              created_at = at;
            }
              ∷ [];
      },
    )
    else err driver

-- INSERT INTO operations: the id is the primary key and the project must exist
unfoldable pub insert_operation : Operation → Db (Unit {0})
insert_operation operation = statement λ t.
    if any (has_id operation.id) t.operations
    then err driver
    else if any (λ (p : Project). same p.id operation.project_id) t.projects
    then ok (
      tt,
      record t {
        operations =
            t.operations
            ++ record {
              id = operation.id;
              project_id = some operation.project_id;
              type = operation.type;
              status = operation.status;
              current_step = "";
              progress = operation.progress;
              error_code = "";
              error_message = "";
              started_at = none;
              finished_at = none;
              created_at = operation.created_at;
            }
              ∷ [];
      },
    )
    else err driver

unfoldable pub create_operation : Operation → String → Payload → Db (Unit {0})
create_operation operation event_type payload = in_tx (
    insert_operation operation
    >> append_operation_event operation.id event_type payload operation.created_at)

-- Scan: a NULL project cannot be read into a string
abbrev pub scan : Option OperationRow → Result Operation
scan none = err not_found
scan (some row) = elim row.project_id [
  | none ↦ err null_column
  | some project ↦ ok (record {
    id = row.id;
    project_id = project;
    type = row.type;
    status = row.status;
    current_step = row.current_step;
    progress = row.progress;
    error_code = row.error_code;
    error_message = row.error_message;
    started_at = row.started_at;
    finished_at = row.finished_at;
    created_at = row.created_at;
  })
]

unfoldable pub get_operation : String → Db Operation
get_operation id = do row ← query (λ t. find (has_id id) t.operations); lift (scan row)

abbrev pub is_active : OperationStatus → Bool
is_active status = same_status status queued || same_status status running

-- for _, id := range ids
unfoldable pub get_operations : List OperationRow → Db (List Operation)
get_operations [] = pure []
get_operations (row ∷ rows) =
    let rest = get_operations rows in
    do operation ← get_operation row.id; operations ← rest; pure (operation ∷ operations)

-- `before` is the order of `created_at, id`, which compares the times as texts.
module _ (before : OperationRow → OperationRow → Bool) where
  unfoldable pub list_active_operations : OperationType → Db (List Operation)
  list_active_operations typ = do
    rows ← query (λ t.
        order_by before
          (select (λ row. same_type row.type typ && is_active row.status) t.operations))
    get_operations rows

  found : Option OperationRow → Db (Option Operation)
  found none = pure none
  found (some row) = do operation ← get_operation row.id; pure (some operation)

  -- the newest first: `order_by` with the order turned round
  unfoldable pub find_active_operation : String → OperationType → Db (Option Operation)
  unfolding found
  find_active_operation project typ = do
    row ← query (λ t. first? (
        order_by (λ a b. before b a)
          (select
            (λ row.
              (elim row.project_id [ none ↦ Bool.false | some p ↦ same p project ])
              && same_type row.type typ
              && is_active row.status)
            t.operations)))
    found row

abbrev pub set_columns : OperationUpdate → OperationRow → OperationRow
set_columns u row = record row {
  status = u.status;
  current_step = u.current_step;
  progress = u.progress;
  error_code = u.error_code;
  error_message = u.error_message;
  started_at = u.started_at;
  finished_at = u.finished_at;
}

unfoldable pub update_row : String → OperationUpdate → Db ℕ
update_row id u = statement λ t. ok (
  affected (has_id id) t.operations,
  record t { operations = update (has_id id) (set_columns u) t.operations },
)

unfoldable pub update_operation : String → OperationUpdate → Db (Unit {0})
update_operation id u = in_tx do
  count ← update_row id u
  if count == 0
      then raise not_found
      else append_operation_event id u.event_type u.event_payload u.event_time

unfoldable pub operation_events_after : String → ℕ → Db (List OperationEvent)
operation_events_after id sequence = query λ t.
    order_by (λ a b. ltb a.sequence b.sequence)
      (select (λ event. of_operation id event && ltb sequence event.sequence) t.events)
