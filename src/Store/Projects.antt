-- ===== src/Store/Projects.antt =====
-- apps/manager/internal/store/projects.go: the rows of projects. Creating one, with its configuration and its
-- secrets, is not modelled here.
pub mod Effects
use supabase_installer.Prelude.{
  ℕ, String, Bool, true, false, Option, none, some, List, [], ◌∷◌, map, ◌==◌, same, if◌then◌else◌,
  find, update, delete, affected,
}
use supabase_installer.Contracts.{Project, ProjectStatus, HealthStatus}
use supabase_installer.Errors.{Error, Result, ok, err, not_found}
use supabase_installer.Db.{Db, pure, raise, lift, statement, query, ◌>>=◌}
use supabase_installer.Db.Schema.{
  Tables, OperationRow, AllocationRow, ReservationRow, SecretRow, ConfigurationRow, AggregateRow,
  ServiceRow, LastGoodRow, LeaseRow, OperationConfigurationRow,
}

abbrev pub is_project : String → Project → Bool
is_project id p = same p.id id

abbrev scan_project : Option Project → Result Project
scan_project none = err not_found
scan_project (some p) = ok p

unfoldable pub get_project : String → Db Project
get_project id = do row ← query (λ t. find (is_project id) t.projects); lift (scan_project row)

unfoldable pub update_project_status : String → ProjectStatus → HealthStatus → ℕ → Db (Unit {0})
update_project_status id status health now = do
  count ← statement λ t. ok (
    affected (is_project id) t.projects,
    record t {
      projects =
          update (is_project id)
            (λ p. record p { status = status; health = health; updated_at = now }) t.projects;
    },
  )
  if count == 0 then raise not_found else pure tt

-- ON DELETE SET NULL
abbrev pub forget_by : String → Option String → OperationRow → OperationRow
forget_by id none row = row
forget_by id (some p) row = if same p id then record row { project_id = none } else row

abbrev pub forget : String → OperationRow → OperationRow
forget id row = forget_by id row.project_id row

-- the tables without a project that is deleted: its rows go with it, and its operations stay without it
abbrev pub without : String → Tables → Tables
without id t = record t {
  projects = delete (is_project id) t.projects;
  operations = map (forget id) t.operations;
  allocations = delete (λ (row : AllocationRow). same row.project_id id) t.allocations;
  reservations = delete (λ (row : ReservationRow). same row.project_id id) t.reservations;
  secrets = delete (λ (row : SecretRow). same row.project_id id) t.secrets;
  configurations = delete (λ (row : ConfigurationRow). same row.project_id id) t.configurations;
  aggregates = delete (λ (row : AggregateRow). same row.project_id id) t.aggregates;
  project_services = delete (λ (row : ServiceRow). same row.project_id id) t.project_services;
  last_good = delete (λ (row : LastGoodRow). same row.project_id id) t.last_good;
  leases = delete (λ (row : LeaseRow). same row.project_id id) t.leases;
  operation_configurations =
      delete (λ (row : OperationConfigurationRow). same row.project_id id)
        t.operation_configurations;
}

unfoldable pub delete_row : String → Db ℕ
delete_row id = statement λ t.
    let count = affected (is_project id) t.projects in
    ok (count, if count == 0 then t else without id t)

unfoldable pub delete_project : String → Db (Unit {0})
delete_project id = do count ← delete_row id; if count == 0 then raise not_found else pure tt
