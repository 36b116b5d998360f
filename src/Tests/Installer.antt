-- ===== src/Tests/Installer.antt =====
-- apps/manager/internal/install/orchestrator.go on a server with the services of a preset.
use supabase_installer.Prelude.{
  Bool, true, false, Option, none, some, [], ◌∷◌, ◌≡◌, refl, not, is_some,
}
use supabase_installer.Contracts.{
  HealthStatus, lightweight, Operation, OperationType, queued, running,
}
use supabase_installer.Contracts.Configuration.{ProjectConfiguration}
use supabase_installer.Errors.{Error, Result, ok, err, external}
use supabase_installer.Db.{Conn, pure, raise, query, statement, attempt, ignore, in_tx, ◌>>=◌}
use supabase_installer.Db.Laws.{calm}
use supabase_installer.Db.Schema.{Tables}
use supabase_installer.Validation.Presets.{
  apply_configuration_preset, default_configuration, default_auth, apply_preset, closed_services,
  default_mailer_config,
}
use supabase_installer.Lifecycle.{Ran}
use supabase_installer.Installer.Ends.{Settled, run-Settled}
use supabase_installer.Installer.{Runtime, no_secrets}
use supabase_installer.Installer.Run.{
  Orchestrator, rollback, run, step, or_rollback, allocated, generated, persisted, check_health,
  finish, start_runtime, reconciled, hydrated, with_secrets, configured,
}
use supabase_installer.Installer.Success.{IsInstalled, run-IsInstalled}
use supabase_installer.Installer.Failure.{IsUndone, rollback-IsUndone}
use supabase_installer.Installer.Ports.{allocate_configuration_ports}
use supabase_installer.Installer.Credentials.{
  load_specs, persist_secrets, apply_configured_studio_password, hydrate, hydrate_oauth,
  hydrate_variables, hydrate_all, hydrate_configured_secrets,
}
use supabase_installer.Store.Secrets.{get_secret, put_secret}
use supabase_installer.Store.Configuration.{
  get_desired_configuration, write_canonical, insert_services, insert_port, replace_ports,
  update_canonical_projection, write_aggregate, persist_at, persist_allocated_configuration,
}
use supabase_installer.Secrets.{redact_configuration}
use supabase_installer.Ports.{reserve_many, known_ports, look, release}
use supabase_installer.Store.Ports.{reserved_port, release_port}
use supabase_installer.Store.Projects.{update_project_status}
use supabase_installer.Store.Operations.{
  get_operation, update_operation, update_row, append_operation_event,
}
use supabase_installer.Operation.{
  start, start_step, complete_step, succeed, require_status, write_update, get,
}
use supabase_installer.Tests.Operations
use supabase_installer.Tests.Configuration.{cipher}

abbrev runtime : Runtime
runtime = record {
  reconcile = λ r. ok tt;
  lifecycle = λ r. ok tt;
  inspect = λ r. ok HealthStatus.healthy;
}

abbrev orchestrator : Orchestrator
orchestrator = record {
  allocator = record { min = 8000; max = 8010; probe = λ p. true; remote = none };
  cipher = cipher;
  runtime = runtime;
  generate = ok no_secrets;
  clock = λ n. n;
  message = λ e. "failed";
}

abbrev operation : Operation
operation = record {
  id = "op";
  project_id = "p";
  type = OperationType.create;
  status = queued;
  current_step = "";
  progress = 0;
  error_code = "";
  error_message = "";
  started_at = none;
  finished_at = none;
  created_at = 1;
}

abbrev started : Tables
started = Operations.tables (Operations.row running ∷ [])

rollback-IsUndone_example :
    (ran : Ran) × (after : Tables) × (rollback orchestrator Operations.project operation
        "VALIDATE_PORTS"
        (external "no port")
        (calm started)
      ≡ (ok ran, calm after))
    × (ran.error ≡ some (external "no port"))
    × IsUndone orchestrator Operations.project operation started after
rollback-IsUndone_example =
    rollback-IsUndone orchestrator Operations.project operation "VALIDATE_PORTS"
      (external "no port") started
      (record {
        row = Operations.row running;
        project = "p";
        is_row = refl;
        of_project = refl;
        is_at = refl;
      })

-- only the database is enabled
abbrev small : ProjectConfiguration
small =
    let cfg = apply_configuration_preset lightweight in
    record cfg {
      services = record cfg.services {
        gateway = false;
        auth = false;
        rest = false;
        studio = false;
        postgres_meta = false;
      };
    }

abbrev with_configuration : Tables
with_configuration = record (Operations.tables (Operations.row queued ∷ [])) {
  configurations = record { project_id = "p"; configuration = small; updated_at = 1 } ∷ [];
  allocations = record { port = 8000; project_id = "p"; kind = "API"; created_at = 1 } ∷ [];
  aggregates = record { project_id = "p"; revision = 1; configuration = small } ∷ [];
}

abbrev ran_of : Result Ran → Ran
ran_of (ok ran) = ran
ran_of (err e) = record { operation = none; error = some e }

abbrev installed : Result Ran × Conn
installed = run orchestrator Operations.project operation (calm with_configuration)

abbrev is_clean : Result Ran → Bool
is_clean (ok ran) = not (is_some ran.error)
is_clean (err e) = false

no_error : (e : Option Error) → not (is_some e) ≡ true → e ≡ none
no_error none h = refl
no_error (some e) h = cc

clean_run :
    (r : Result Ran) (c : Conn)
    → is_clean r ≡ true
    → (◌≡◌ {A = Result Ran × Conn} (r, c) (ok (ran_of r), c)) × ((ran_of r).error ≡ none)
clean_run (ok ran) c h = (refl, no_error ran.error h)
clean_run (err e) c h = cc

installs : is_clean installed.0 ≡ true
unfolding run step or_rollback allocated generated persisted check_health finish start_runtime
    reconciled hydrated with_secrets configured allocate_configuration_ports load_specs
    persist_secrets apply_configured_studio_password hydrate hydrate_oauth hydrate_variables
    hydrate_all hydrate_configured_secrets look get_secret put_secret get_desired_configuration
    write_canonical insert_services insert_port replace_ports update_canonical_projection
    write_aggregate persist_at persist_allocated_configuration redact_configuration reserve_many
    known_ports release reserved_port release_port update_project_status get_operation
    update_operation update_row append_operation_event start start_step complete_step succeed
    require_status write_update get pure raise query statement attempt ignore in_tx ◌>>=◌
    apply_configuration_preset default_configuration default_auth default_mailer_config apply_preset
    closed_services
installs = refl

run-IsInstalled_example :
    IsInstalled orchestrator Operations.project operation with_configuration installed.1.tables
run-IsInstalled_example =
    run-IsInstalled orchestrator Operations.project operation (calm with_configuration) installed.1
      (ran_of installed.0) (clean_run installed.0 installed.1 installs).0
      (clean_run installed.0 installed.1 installs).1

run-Settled_example :
    (ran : Ran) × (after : Tables) × (run orchestrator Operations.project operation
        (calm with_configuration)
      ≡ (ok ran, calm after))
    × Settled orchestrator Operations.project operation with_configuration after ran
run-Settled_example =
    run-Settled orchestrator Operations.project operation with_configuration
      (record {
        row = Operations.row queued;
        project = "p";
        is_row = refl;
        of_project = refl;
        is_at = refl;
      })
      refl
