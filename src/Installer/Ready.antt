-- ===== src/Installer/Ready.antt =====
-- What Run of apps/manager/internal/install/orchestrator.go has done, part by part, when it returns no error.
use supabase_installer.Prelude.{String, true, some, List, ◌≡◌, refl, sym, ap, ◌∙◌, Text, find}
use supabase_installer.Contracts.{Project, ProjectStatus, HealthStatus, Operation, OperationStatus}
use supabase_installer.Contracts.Configuration.{ProjectConfiguration}
use supabase_installer.Errors.{Result, ok, err, runtime_health}
use supabase_installer.Db.{Conn, pure, lift}
use supabase_installer.Db.Laws.{>>=-eq-ok, pure-ok}
use supabase_installer.Db.Guards.{then-ok, lift-ok, lift->>=-ok, attempt->>=-ok}
use supabase_installer.Db.Schema.{Tables, OperationRow}
use supabase_installer.Store.Projects.{is_project, update_project_status}
use supabase_installer.Store.Projects.Effects.{
  WasThere, update_project_status-WasThere, with_status,
}
use supabase_installer.Store.Operations.{has_id}
use supabase_installer.Store.Operations.Laws.{get_operation-Reads}
use supabase_installer.Store.Configuration.{ConfigurationSnapshot, get_desired_configuration}
use supabase_installer.Operation
use supabase_installer.Operation.Calls.{Call}
use supabase_installer.Operation.Methods.{perform}
use supabase_installer.Operation.Transitions.{perform-Effect}
use supabase_installer.Lifecycle.{Ran}
use supabase_installer.Installer.{ProjectSecrets}
use supabase_installer.Installer.Run.{
  Orchestrator, step, lifecycle_request, or_rollback, request, inspection, is_healthy, check_health,
  got, finish, start_runtime, reconciled, hydrated, with_secrets, configured, started_with, run,
}
use supabase_installer.Installer.Chain.{NoError, gave-error, some-none, step-ok, or_rollback-ok}

module _ (o : Orchestrator) where
  module _ (project : Project) (queued : Operation) where
    -- the state that Run leaves behind
    pub record IsFinished (after : Tables) : Type 0 where
      pub row : OperationRow
      pub is_row : find (has_id queued.id) after.operations ≡ some row
      pub succeeded : row.status ≡ OperationStatus.succeeded
      pub server : Project
      pub is_server : find (is_project project.id) after.projects ≡ some server
      pub running : server.status ≡ ProjectStatus.running
      pub healthy : server.health ≡ HealthStatus.healthy

    pub record IsReady (after : Tables) : Type 0 where
      pub configuration : ProjectConfiguration
      pub secrets : ProjectSecrets
      pub runtime_secrets : List (String × Text)
      pub is_reconciled :
          o.runtime.reconcile (request o project queued configuration secrets runtime_secrets)
          ≡ ok tt
      pub is_started :
          o.runtime.lifecycle (lifecycle_request o project queued "start" "START") ≡ ok tt
      pub is_inspected :
          o.runtime.inspect (inspection o project queued configuration) ≡ ok HealthStatus.healthy
      pub finished : IsFinished after

    got-ok :
        (r : Result (Unit {0})) (before c d : Conn) {ran : Ran} {c' : Conn}
        → perform queued.id (Call.succeed (o.clock 70)) c ≡ (r, d)
        → got o project queued r d ≡ (ok ran, c')
        → NoError ran
        → WasThere project.id ProjectStatus.running HealthStatus.healthy
            (o.clock 69)
            before.tables
            c.tables
        → IsFinished c'.tables
    unfolding Operation.get
    got-ok (err e) before c d done h clean marked =
        absurd (some-none (gave-error (some queued) e d h) clean)
    got-ok (ok _) before c d {c' = c'} done h clean marked =
        let effect = perform-Effect queued.id (Call.succeed (o.clock 70)) c done in
        let tried = attempt->>=-ok (Operation.get queued.id) _ d h in
        let (_, stay) = pure-ok _ tried.middle tried.rest in
        let kept : c'.tables ≡ d.tables =
          ap (λ (x : Conn). x.tables) stay
          ∙ ap (λ (p : Result Operation × Conn). p.1.tables) (sym tried.first)
          ∙ (get_operation-Reads queued.id).keeps d in
        record {
          row = effect.new;
          is_row = ap (λ (t : Tables). find (has_id queued.id) t.operations) kept ∙ effect.is;
          succeeded = effect.transition.reached;
          server =
              with_status ProjectStatus.running HealthStatus.healthy (o.clock 69) marked.server;
          is_server =
              ap (λ (t : Tables). find (is_project project.id) t.projects) kept
              ∙ ap (λ (t : Tables). find (is_project project.id) t.projects) effect.rest
              ∙ marked.is;
          running = refl;
          healthy = refl;
        }

    finish-ok :
        (before c : Conn) {ran : Ran} {c' : Conn}
        → finish o project queued c ≡ (ok ran, c')
        → NoError ran
        → WasThere project.id ProjectStatus.running HealthStatus.healthy
            (o.clock 69)
            before.tables
            c.tables
        → IsFinished c'.tables
    unfolding finish perform
    finish-ok before c h clean marked =
        let tried =
          attempt->>=-ok (Operation.succeed (o.clock 70) queued.id) (got o project queued) c h in
        got-ok tried.value before c tried.middle tried.first tried.rest clean marked

    healthy_only :
        (health : HealthStatus)
        → is_healthy o project queued health ≡ true
        → health ≡ HealthStatus.healthy
    healthy_only HealthStatus.healthy h = refl
    healthy_only HealthStatus.degraded h = cc
    healthy_only HealthStatus.starting h = cc
    healthy_only HealthStatus.stopped h = cc
    healthy_only HealthStatus.unhealthy h = cc
    healthy_only HealthStatus.unknown h = cc

    check_health-ok :
        (cfg : ProjectConfiguration) (c : Conn) {u : Unit {0}} {c' : Conn}
        → check_health o project queued cfg c ≡ (ok u, c')
        → o.runtime.inspect (inspection o project queued cfg) ≡ ok HealthStatus.healthy
    unfolding check_health
    check_health-ok cfg c h =
        let inspected = lift->>=-ok (o.runtime.inspect (inspection o project queued cfg)) _ c h in
        let (good, _) =
          then-ok (is_healthy o project queued inspected.value) (pure tt)
            (runtime_health inspected.value) c inspected.rest in
        inspected.given ∙ ap ok (healthy_only inspected.value good)

    record IsStarted (cfg : ProjectConfiguration) (after : Tables) : Type 0 where
      started : o.runtime.lifecycle (lifecycle_request o project queued "start" "START") ≡ ok tt
      inspected : o.runtime.inspect (inspection o project queued cfg) ≡ ok HealthStatus.healthy
      finished : IsFinished after

    start_runtime-ok :
        (cfg : ProjectConfiguration) (c : Conn) {ran : Ran} {c' : Conn}
        → start_runtime o project queued cfg c ≡ (ok ran, c')
        → NoError ran
        → IsStarted cfg c'.tables
    unfolding start_runtime
    start_runtime-ok cfg c h clean =
        let ask = o.runtime.lifecycle (lifecycle_request o project queued "start" "START") in
        let start =
          or_rollback-ok o project queued "START_AUTH"
            (step o 50 queued.id "START_RUNTIME" 70 (lift ask)) _ c h clean in
        let (d, _, asked) = step-ok o 50 queued.id "START_RUNTIME" 70 (lift ask) c start.first in
        let (started, _) = lift-ok ask d asked in
        let final =
          or_rollback-ok o project queued "FINAL_HEALTH_CHECK"
            (step o 60 queued.id "FINAL_HEALTH_CHECK" 95 (check_health o project queued cfg)) _
            start.middle start.rest clean in
        let (d2, _, checked) =
          step-ok o 60 queued.id "FINAL_HEALTH_CHECK" 95 (check_health o project queued cfg)
            start.middle final.first in
        let mark =
          or_rollback-ok o project queued "MARK_RUNNING"
            (update_project_status project.id ProjectStatus.running HealthStatus.healthy
              (o.clock 69))
            _ final.middle final.rest clean in
        let marked =
          update_project_status-WasThere project.id ProjectStatus.running HealthStatus.healthy
            (o.clock 69) final.middle mark.middle mark.first in
        record {
          started = started ∙ refl;
          inspected = check_health-ok cfg d2 checked;
          finished = finish-ok final.middle mark.middle mark.rest clean marked;
        }

    reconciled-ok :
        (cfg : ProjectConfiguration) (secrets : ProjectSecrets) (runtime : List (String × Text))
        (c : Conn) {ran : Ran} {c' : Conn}
        → reconciled o project queued cfg secrets runtime c ≡ (ok ran, c')
        → NoError ran
        → IsReady c'.tables
    unfolding reconciled
    reconciled-ok cfg secrets runtime c h clean =
        let ask = o.runtime.reconcile (request o project queued cfg secrets runtime) in
        let went =
          or_rollback-ok o project queued "RECONCILE_RUNTIME"
            (step o 40 queued.id "RECONCILE_RUNTIME" 35 (lift ask)) _ c h clean in
        let (d, _, asked) = step-ok o 40 queued.id "RECONCILE_RUNTIME" 35 (lift ask) c went.first in
        let (answered, _) = lift-ok ask d asked in
        let rest = start_runtime-ok cfg went.middle went.rest clean in
        record {
          configuration = cfg;
          secrets = secrets;
          runtime_secrets = runtime;
          is_reconciled = answered;
          is_started = rest.started;
          is_inspected = rest.inspected;
          finished = rest.finished;
        }

    configured-ok :
        (snapshot : ConfigurationSnapshot) (c : Conn) {ran : Ran} {c' : Conn}
        → configured o project queued snapshot c ≡ (ok ran, c')
        → NoError ran
        → IsReady c'.tables
    unfolding configured with_secrets hydrated
    configured-ok snapshot c h clean =
        let ports = or_rollback-ok o project queued "VALIDATE_PORTS" _ _ c h clean in
        let loaded =
          or_rollback-ok o project queued "LOAD_SECRETS" _ _ ports.middle ports.rest clean in
        let fresh =
          or_rollback-ok o project queued "GENERATE_SECRETS" _ _ loaded.middle loaded.rest clean in
        let kept =
          or_rollback-ok o project queued "GENERATE_SECRETS" _ _ fresh.middle fresh.rest clean in
        let shown =
          or_rollback-ok o project queued "HYDRATE_SECRETS" _ _ kept.middle kept.rest clean in
        let runtime =
          or_rollback-ok o project queued "HYDRATE_SECRETS" _ _ shown.middle shown.rest clean in
        reconciled-ok ports.value shown.value runtime.value runtime.middle runtime.rest clean

    started_with-ok :
        (r : Result (Unit {0})) (c : Conn) {ran : Ran} {c' : Conn}
        → started_with o project queued r c ≡ (ok ran, c')
        → NoError ran
        → IsReady c'.tables
    started_with-ok (err e) c h clean = absurd (some-none (gave-error (some queued) e c h) clean)
    started_with-ok (ok _) c h clean =
        let marked =
          >>=-eq-ok _
            (λ _.
              or_rollback o project queued "LOAD_CONFIGURATION"
                (get_desired_configuration project.id) (configured o project queued))
            c h in
        let found =
          or_rollback-ok o project queued "LOAD_CONFIGURATION"
            (get_desired_configuration project.id) (configured o project queued) marked.middle
            marked.second clean in
        configured-ok found.value found.middle found.rest clean

    pub run-IsReady :
        (c c' : Conn) {ran : Ran}
        → run o project queued c ≡ (ok ran, c')
        → NoError ran
        → IsReady c'.tables
    unfolding run
    run-IsReady c c' h clean =
        let tried =
          attempt->>=-ok (Operation.start (o.clock 1) queued.id) (started_with o project queued) c
            h in
        started_with-ok tried.value tried.middle tried.rest clean
