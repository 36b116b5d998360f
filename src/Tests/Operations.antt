-- ===== src/Tests/Operations.antt =====
-- apps/manager/internal/operation/service.go on one server with one operation.
use supabase_installer.Prelude.{
  codes, true, false, none, some, List, [], ◌∷◌, ◌≡◌, refl, inl, find, drop,
}
use supabase_installer.Contracts.{
  ProjectStatus, HealthStatus, Preset, Services, Project, OperationType, OperationStatus, queued,
  failed, succeeded, OperationEvent, raw,
}
use supabase_installer.Errors.{ok, err, invalid_transition}
use supabase_installer.Db.{Conn, query, statement, in_tx, continue, ◌>>=◌, pure, raise}
use supabase_installer.Db.Laws.{calm}
use supabase_installer.Db.Schema.{Tables, OperationRow}
use supabase_installer.Store.Operations.{
  has_id, operation_events_after, create_operation, insert_operation, append_operation_event,
  get_operation, update_operation, update_row,
}
use supabase_installer.Operation
use supabase_installer.Operation.{events_after, new_queued_operation, require_status, write_update}
use supabase_installer.Operation.Calls.{Call}
use supabase_installer.Operation.Methods.{perform}
use supabase_installer.Operation.Events.{log, numbered}
use supabase_installer.Operation.Traces.{Request, serve, answer}
use supabase_installer.Operation.Transitions.{Effect, perform-Effect, perform_failure}
use supabase_installer.Operation.Exact.{outcome, perform_exact}
use supabase_installer.Operation.Invariant.{
  IsSound, HasFailed, serve-events_after, serve-IsSound, serve_settled, serve_failed,
}

abbrev pub row : OperationStatus → OperationRow
row s = record {
  id = "op";
  project_id = some "p";
  type = OperationType.create;
  status = s;
  current_step = "";
  progress = 0;
  error_code = "";
  error_message = "";
  started_at = none;
  finished_at = none;
  created_at = 1;
}

abbrev pub services : Services
services = record {
  database = true;
  gateway = true;
  auth = true;
  rest = true;
  studio = true;
  postgres_meta = true;
  realtime = false;
  storage = false;
  imgproxy = false;
  functions = false;
  supavisor = false;
  logs = false;
  vector = false;
  direct_db = false;
}

abbrev pub project : Project
project = record {
  id = "p";
  name = "Blog";
  slug = "blog";
  domain = codes "blog.test";
  site_url = codes "https://blog.test";
  status = ProjectStatus.draft;
  health = HealthStatus.unknown;
  supabase_version = "v1";
  preset = Preset.standard;
  configuration_revision = 1;
  services = services;
  created_at = 1;
  updated_at = 1;
}

abbrev pub tables : List OperationRow → Tables
tables rows = record {
  projects = project ∷ [];
  operations = rows;
  events = [];
  allocations = [];
  reservations = [];
  secrets = [];
  admins = [];
  recovery_codes = [];
  sessions = [];
  configurations = [];
  aggregates = [];
  project_services = [];
  last_good = [];
  leases = [];
  operation_configurations = [];
}

abbrev pub waiting : Tables
waiting = tables (row queued ∷ [])

start_succeeds :
    perform "op" (Call.start 5) (calm waiting)
    ≡ outcome "op" (Call.start 5) waiting (row queued) "p"
start_succeeds = perform_exact "op" (Call.start 5) waiting (row queued) "p" refl refl

perform_exact_example :
    perform "op" (Call.succeed 9) (calm waiting) ≡ (err (invalid_transition queued), calm waiting)
perform_exact_example = perform_exact "op" (Call.succeed 9) waiting (row queued) "p" refl refl

perform-Effect_example :
    Effect "op"
      (Call.start 5)
      waiting
      (outcome "op" (Call.start 5) waiting (row queued) "p").1.tables
perform-Effect_example = perform-Effect "op" (Call.start 5) (calm waiting) start_succeeds

perform_failure_example : (calm waiting).tables ≡ waiting
perform_failure_example = perform_failure "op" (Call.succeed 9) (calm waiting) perform_exact_example

abbrev requests : List Request
requests = Request.create "op" 1 "p" OperationType.create ∷ Request.call "op" (Call.start 5) ∷ []

abbrev empty : Conn
empty = calm (tables [])

serve-IsSound_example : IsSound (serve requests empty).tables
serve-IsSound_example = serve-IsSound requests empty (λ id r found. cc)

abbrev over : Conn
over = calm (tables (row succeeded ∷ []))

serve_settled_example :
    find (has_id "op") (serve requests over).tables.operations ≡ some (row succeeded)
serve_settled_example = serve_settled "op" (row succeeded) requests over (inl refl) refl

abbrev doomed : Conn
doomed = calm (tables (row failed ∷ []))

serve_failed_example : HasFailed "op" "" (serve requests doomed).tables
serve_failed_example = serve_failed "op" "" requests doomed (row failed, refl, inl refl, refl)

abbrev second_event : OperationEvent
second_event = record {
  operation_id = "op";
  sequence = 2;
  type = "OPERATION_STARTED";
  payload = raw "{\"status\":\"RUNNING\"}";
  created_at = 5;
}

read_second :
    events_after "op" 1 (serve requests empty) ≡ (ok (second_event ∷ []), serve requests empty)
unfolding events_after operation_events_after query statement serve answer Operation.create
    new_queued_operation create_operation insert_operation append_operation_event in_tx continue
    ◌>>=◌ perform Operation.start require_status get_operation write_update update_operation
    update_row pure raise
read_second = refl

serve-events_after_example :
    (second_event ∷ [] ≡ drop 1 (log "op" (serve requests empty).tables.events))
    × (numbered "op" 0 (serve requests empty).tables.events ≡ true)
serve-events_after_example = serve-events_after "op" requests empty 1 refl read_second
