-- ===== src/Installer/Run.antt =====
-- Install, Run, step and rollback of apps/manager/internal/install/orchestrator.go.
use supabase_installer.Prelude.{
  ℕ, ◌+◌, String, Bool, true, false, some, List, [], ◌==◌, length, if◌then◌else◌, Text,
}
use supabase_installer.Contracts.{Project, ProjectStatus, HealthStatus, Operation, OperationType}
use supabase_installer.Contracts.Configuration.{ProjectConfiguration}
use supabase_installer.Errors.{Error, Result, ok, err, runtime_health}
use supabase_installer.Db.{Db, pure, raise, lift, attempt, ignore, ◌>>=◌, ◌>>◌}
use supabase_installer.Store.Projects.{update_project_status}
use supabase_installer.Store.Configuration.{
  ConfigurationSnapshot, get_desired_configuration, persist_allocated_configuration,
}
use supabase_installer.Operation
use supabase_installer.Ports.{Allocator}
use supabase_installer.Secrets.{Cipher}
use supabase_installer.Lifecycle.{Ran, LifecycleRequest, gave, latest, error_of}
use supabase_installer.Installer.{
  ProjectSecrets, no_secrets, persisted_project_secret_specs, ReconcileProjectRequest,
  InspectProjectRequest, Runtime, enabled_compose_services,
}
use supabase_installer.Installer.Ports.{allocate_configuration_ports}
use supabase_installer.Installer.Credentials.{
  Loaded, load_specs, persist_secrets, completed, apply_configured_studio_password,
  hydrate_configured_secrets,
}

-- what an Orchestrator holds, besides the store
pub record Orchestrator : Type 0 where
  pub allocator : Allocator
  pub cipher : Cipher
  pub runtime : Runtime
  pub generate : Result ProjectSecrets
  pub clock : ℕ → ℕ
  pub message : Error → String

module _ (o : Orchestrator) where
  unfoldable pub create_operation : String → String → Db Operation
  create_operation id project = Operation.create id (o.clock 0) project OperationType.create

  -- the action between the two events of a step
  unfoldable pub step {ℓ} : {A : Type ℓ} → ℕ → String → String → ℕ → Db A → Db A
  step tick id name progress action = do
    _ ← Operation.start_step (o.clock tick) id name progress
    a ← action
    _ ← Operation.complete_step (o.clock (tick + 1)) id name progress
    pure a

  module _ (project : Project) (queued : Operation) where
    abbrev pub lifecycle_request : String → String → LifecycleRequest
    lifecycle_request key action = record {
      operation_id = queued.id;
      key_action = key;
      project_id = project.id;
      project_name = "";
      slug = project.slug;
      action = action;
      confirm_project_name = "";
    }

    abbrev pub rolled_back_if : Result (Unit {0}) → Db (Unit {0})
    rolled_back_if (ok _) = ignore (Operation.complete_rollback (o.clock 92) queued.id)
    rolled_back_if (err e) = pure tt

    unfoldable pub rollback : String → Error → Db Ran
    rollback name cause =
        ignore (Operation.fail (o.clock 90) queued.id name (o.message cause))
        >> ignore (Operation.begin_rollback (o.clock 91) queued.id)
        >> rolled_back_if (o.runtime.lifecycle (lifecycle_request "rollback" "DELETE_RUNTIME"))
        >> ignore (
            update_project_status project.id ProjectStatus.failed HealthStatus.unknown (o.clock 93))
        >> (attempt (Operation.get queued.id) >>= λ r. gave (latest r) cause)

    -- if err != nil { return rollback(...) }
    abbrev pub answer {ℓ} : {A : Type ℓ} → String → (A → Db Ran) → Result A → Db Ran
    answer name next (ok a) = next a
    answer name next (err e) = rollback name e

    unfoldable pub or_rollback {ℓ} : {A : Type ℓ} → String → Db A → (A → Db Ran) → Db Ran
    or_rollback name m next = attempt m >>= answer name next

    unfoldable pub allocated : ProjectConfiguration → Db ProjectConfiguration
    allocated cfg = do
      ports ← allocate_configuration_ports o.allocator project.id (o.clock 11) cfg
      _ ← persist_allocated_configuration project.id ports (o.clock 12)
      pure ports

    abbrev pub is_complete : Loaded → Bool
    is_complete loaded = length loaded.found == length persisted_project_secret_specs

    unfoldable pub generated : Loaded → Db ProjectSecrets
    generated loaded = if is_complete loaded then pure loaded.secrets else do
      fresh ← lift o.generate
      pure (completed persisted_project_secret_specs fresh loaded)

    unfoldable pub persisted : Loaded → ProjectSecrets → Db (Unit {0})
    persisted loaded secrets =
        if is_complete loaded
        then pure tt
        else persist_secrets o.cipher project.id persisted_project_secret_specs secrets loaded.found

    abbrev pub request :
        ProjectConfiguration → ProjectSecrets → List (String × Text) → ReconcileProjectRequest
    request cfg secrets runtime = record {
      operation_id = queued.id;
      project_id = project.id;
      project_name = project.name;
      slug = project.slug;
      api_port = cfg.network.api_port;
      configuration = cfg;
      secrets = secrets;
      runtime_secrets = runtime;
    }

    abbrev pub inspection : ProjectConfiguration → InspectProjectRequest
    inspection cfg = record {
      project_id = project.id;
      slug = project.slug;
      enabled_services = enabled_compose_services cfg.services;
    }

    abbrev pub is_healthy : HealthStatus → Bool
    is_healthy HealthStatus.healthy = true
    is_healthy _ = false

    unfoldable pub check_health : ProjectConfiguration → Db (Unit {0})
    check_health cfg = do
      health ← lift (o.runtime.inspect (inspection cfg))
      if is_healthy health then pure tt else raise (runtime_health health)

    abbrev pub got : Result (Unit {0}) → Db Ran
    got (err e) = gave (some queued) e
    got (ok _) = attempt (Operation.get queued.id) >>= λ r.
        pure (record { operation = latest r; error = error_of r })

    unfoldable pub finish : Db Ran
    finish = attempt (Operation.succeed (o.clock 70) queued.id) >>= got

    unfoldable pub start_runtime : ProjectConfiguration → Db Ran
    start_runtime cfg =
        or_rollback "START_AUTH"
          (step 50 queued.id "START_RUNTIME" 70
            (lift (o.runtime.lifecycle (lifecycle_request "start" "START"))))
          λ _.
            or_rollback "FINAL_HEALTH_CHECK"
              (step 60 queued.id "FINAL_HEALTH_CHECK" 95 (check_health cfg))
              λ _.
                or_rollback "MARK_RUNNING"
                  (update_project_status project.id ProjectStatus.running HealthStatus.healthy
                    (o.clock 69))
                  λ _. finish

    unfoldable pub reconciled :
        ProjectConfiguration → ProjectSecrets → List (String × Text) → Db Ran
    reconciled cfg secrets runtime =
        or_rollback "RECONCILE_RUNTIME"
          (step 40 queued.id "RECONCILE_RUNTIME" 35
            (lift (o.runtime.reconcile (request cfg secrets runtime))))
          λ _. start_runtime cfg

    unfoldable pub hydrated : ProjectConfiguration → ProjectSecrets → Db Ran
    hydrated cfg secrets =
        or_rollback "HYDRATE_SECRETS"
          (apply_configured_studio_password o.cipher project.id cfg secrets)
          λ shown.
            or_rollback "HYDRATE_SECRETS"
              (hydrate_configured_secrets (some o.cipher) project.id cfg)
              λ runtime. reconciled cfg shown runtime

    unfoldable pub with_secrets : ProjectConfiguration → Loaded → Db Ran
    with_secrets cfg loaded = or_rollback "GENERATE_SECRETS" (generated loaded) λ secrets.
        or_rollback "GENERATE_SECRETS"
          (step 30 queued.id "GENERATE_SECRETS" 15 (persisted loaded secrets))
          λ _. hydrated cfg secrets

    unfoldable pub configured : ConfigurationSnapshot → Db Ran
    configured snapshot =
        or_rollback "VALIDATE_PORTS"
          (step 10 queued.id "VALIDATE_PORTS" 5
            (allocated (record snapshot.configuration { revision = 1 })))
          λ cfg.
            or_rollback "LOAD_SECRETS"
              (load_specs o.cipher project.id persisted_project_secret_specs
                (record { secrets = no_secrets; found = [] }))
              λ loaded. with_secrets cfg loaded

    abbrev pub started_with : Result (Unit {0}) → Db Ran
    started_with (err e) = gave (some queued) e
    started_with (ok _) =
        ignore (
          update_project_status project.id ProjectStatus.installing HealthStatus.starting
            (o.clock 2))
        >> or_rollback "LOAD_CONFIGURATION" (get_desired_configuration project.id) configured

    unfoldable pub run : Db Ran
    run = attempt (Operation.start (o.clock 1) queued.id) >>= started_with

  unfoldable pub install : String → Project → Db Ran
  install id project = do created ← create_operation id project.id; run project created
