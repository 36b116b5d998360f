-- ===== src/Installer/Ends.antt =====
-- How Run of apps/manager/internal/install/orchestrator.go ends on a connection where no statement fails: whatever the
-- provisioner, the generator, the cipher and the tables make of it.
use supabase_installer.Prelude.{
  String, true, none, some, List, [], ◌∷◌, ◌≡◌, ◌≢◌, refl, sym, ap, ◌∙◌, subst, find, any, affected,
  arith,
}
use supabase_installer.Contracts.{Project, ProjectStatus, HealthStatus, Operation, OperationStatus}
use supabase_installer.Contracts.Configuration.{ProjectConfiguration}
use supabase_installer.Errors.{Error, Result, ok, err}
use supabase_installer.Db.{Conn, Db, pure, attempt, ignore, continue, ◌>>=◌}
use supabase_installer.Db.Laws.{calm}
use supabase_installer.Db.Schema.{Tables, OperationRow}
use supabase_installer.Db.Frame.{Keeps-lift}
use supabase_installer.Store.Projects.{is_project, update_project_status}
use supabase_installer.Store.Projects.Effects.{with_status, find-marked}
use supabase_installer.Store.Operations.{scan}
use supabase_installer.Store.Configuration.{ConfigurationSnapshot, get_desired_configuration}
use supabase_installer.Operation
use supabase_installer.Operation.Calls.{Call}
use supabase_installer.Operation.Methods.{perform}
use supabase_installer.Operation.Progress.{IsAt}
use supabase_installer.Operation.Exact.{get_operation-calm}
use supabase_installer.Lifecycle.{Ran, latest, error_of}
use supabase_installer.Installer.{ProjectSecrets}
use supabase_installer.Installer.Credentials.{Loaded}
use supabase_installer.Installer.Run.{
  Orchestrator, lifecycle_request, rollback, answer, or_rollback, got, finish, start_runtime,
  reconciled, hydrated, with_secrets, configured, started_with, run,
}
use supabase_installer.Installer.Aside.{aside, get_desired_configuration-Keeps}
use supabase_installer.Installer.Kept.{
  load_specs-Keeps, apply_configured_studio_password-Keeps, hydrate_configured_secrets-Keeps,
  allocated-Keeps, generated-Keeps, persisted-Keeps, check_health-Keeps,
}
use supabase_installer.Installer.Bystanders.{update_project_status-Keeps, run-Keeps}
use supabase_installer.Installer.Failure.{settled_by, rollback-IsUndone}
use supabase_installer.Installer.Success.{IsInstalled, run-IsInstalled}
use supabase_installer.Installer.UnderWay.{
  calm_again, IsUnderWay, Safe, passed, Safe-Keeps, Safe-step,
}

affected-any :
    (id : String) (rows : List Project)
    → any (is_project id) rows ≡ true
    → affected (is_project id) rows ≢ 0
affected-any id [] h = cc
affected-any id (p ∷ rows) h = ground (arith, affected-any id rows)

scanned :
    (row : OperationRow) (project : String)
    → row.project_id ≡ some project
    → error_of (scan (some row)) ≡ none
scanned row project h = rw h refl

module _ (o : Orchestrator) (project : Project) (queued : Operation) where
  -- the operation is rolled back as far as the runtime lets it, and the server is marked as failed
  pub record IsRolledBack (after : Tables) : Type 0 where
    pub operation :
        IsAt queued.id
          (settled_by o project queued
            (o.runtime.lifecycle (lifecycle_request o project queued "rollback" "DELETE_RUNTIME")))
          after
    pub server : Project
    pub is_server : find (is_project project.id) after.projects ≡ some server
    pub failed : server.status ≡ ProjectStatus.failed
    pub unknown : server.health ≡ HealthStatus.unknown

  -- no error, or an error with all of the rollback behind it
  pub data Outcome (ran : Ran) (after : Tables) : Type 0 where
    clean : ran.error ≡ none → Outcome ran after
    undone : (e : Error) → ran.error ≡ some e → IsRolledBack after → Outcome ran after

  abbrev Ended : Result Ran × Conn → Type 0
  Ended p = (ran : Ran) × (p.0 ≡ ok ran) × Outcome ran p.1.tables

  abbrev Ends : (Conn → Result Ran × Conn) → Type 0
  Ends m = (c : Conn) → IsUnderWay project queued OperationStatus.running c → Ended (m c)

  Ends-rollback : (name : String) (cause : Error) → Ends (rollback o project queued name cause)
  Ends-rollback name cause c u =
      let (ran, after, done, error, undoing) =
        rollback-IsUndone o project queued name cause c.tables u.here in
      let (server, was, is) =
        find-marked project.id ProjectStatus.failed HealthStatus.unknown (o.clock 93)
          c.tables.projects (affected-any project.id c.tables.projects u.known) in
      subst Ended
        (sym (ap (rollback o project queued name cause) (calm_again c u.faultless) ∙ done))
        (
          ran,
          refl,
          undone cause error (record {
            operation = undoing.operation;
            server = with_status ProjectStatus.failed HealthStatus.unknown (o.clock 93) server;
            is_server = ap (find (is_project project.id)) undoing.projects ∙ is;
            failed = refl;
            unknown = refl;
          }),
        )

  Ends-answer {ℓ} :
      {A : Type ℓ} (name : String) (next : A → Db Ran) (r : Result A)
      → ((a : A) → Ends (next a))
      → Ends (answer o project queued name next r)
  Ends-answer name next (ok a) k = k a
  Ends-answer name next (err e) k = Ends-rollback name e

  Ends-or_rollback {ℓ} :
      {A : Type ℓ} (name : String) (m : Db A) (next : A → Db Ran)
      → Safe project queued m
      → ((a : A) → Ends (next a))
      → Ends (or_rollback o project queued name m next)
  unfolding or_rollback attempt ◌>>=◌ continue
  Ends-or_rollback name m next safe k c u = Ends-answer name next (m c).0 k (m c).1 (safe c u)

  read_again :
      (c : Conn)
      → IsUnderWay project queued OperationStatus.succeeded c
      → error_of (Operation.get queued.id c).0 ≡ none
  unfolding Operation.get
  read_again c u =
      ap (λ (d : Conn). error_of (Operation.get queued.id d).0) (calm_again c u.faultless)
      ∙ ap (λ (p : Result Operation × Conn). error_of p.0) (get_operation-calm queued.id c.tables)
      ∙ ap (λ row. error_of (scan row)) u.here.is_row
      ∙ scanned u.here.row u.here.project u.here.of_project

  Ends-got :
      (r : Result (Unit {0})) (c : Conn)
      → r ≡ ok tt
      → IsUnderWay project queued OperationStatus.succeeded c
      → Ended (got o project queued r c)
  unfolding attempt pure ◌>>=◌ continue Operation.get
  Ends-got (ok _) c is u =
      let found = Operation.get queued.id c in
      (
        record { operation = latest found.0; error = error_of found.0 },
        refl,
        clean (read_again c u),
      )
  Ends-got (err e) c is u = cc

  Ends-finish : Ends (finish o project queued)
  unfolding finish attempt ◌>>=◌ continue perform
  Ends-finish c u =
      let p = passed project queued (Call.succeed (o.clock 70)) c u in
      Ends-got (Operation.succeed (o.clock 70) queued.id c).0
        (Operation.succeed (o.clock 70) queued.id c).1 p.answer p.after

  Ends-start_runtime : (cfg : ProjectConfiguration) → Ends (start_runtime o project queued cfg)
  unfolding start_runtime
  Ends-start_runtime cfg =
      Ends-or_rollback "START_AUTH" _ _
        (Safe-step project queued o 50 "START_RUNTIME" 70 _ (Keeps-lift (aside project.id) _))
        (λ _.
          Ends-or_rollback "FINAL_HEALTH_CHECK" _ _
            (Safe-step project queued o 60 "FINAL_HEALTH_CHECK" 95 _
              (check_health-Keeps o project queued cfg))
            (λ _.
              Ends-or_rollback "MARK_RUNNING" _ _
                (Safe-Keeps project queued _ (
                  update_project_status-Keeps project.id ProjectStatus.running HealthStatus.healthy
                    (o.clock 69)))
                (λ _. Ends-finish)))

  Ends-hydrated :
      (cfg : ProjectConfiguration) (secrets : ProjectSecrets)
      → Ends (hydrated o project queued cfg secrets)
  unfolding hydrated reconciled
  Ends-hydrated cfg secrets =
      Ends-or_rollback "HYDRATE_SECRETS" _ _
        (Safe-Keeps project queued _
          (apply_configured_studio_password-Keeps project.id o.cipher project.id cfg secrets))
        (λ shown.
          Ends-or_rollback "HYDRATE_SECRETS" _ _
            (Safe-Keeps project queued _
              (hydrate_configured_secrets-Keeps project.id (some o.cipher) project.id cfg))
            (λ runtime.
              Ends-or_rollback "RECONCILE_RUNTIME" _ _
                (Safe-step project queued o 40 "RECONCILE_RUNTIME" 35 _
                  (Keeps-lift (aside project.id) _))
                (λ _. Ends-start_runtime cfg)))

  Ends-with_secrets :
      (cfg : ProjectConfiguration) (loaded : Loaded)
      → Ends (with_secrets o project queued cfg loaded)
  unfolding with_secrets
  Ends-with_secrets cfg loaded =
      Ends-or_rollback "GENERATE_SECRETS" _ _
        (Safe-Keeps project queued _ (generated-Keeps o project queued loaded))
        (λ secrets.
          Ends-or_rollback "GENERATE_SECRETS" _ _
            (Safe-step project queued o 30 "GENERATE_SECRETS" 15 _
              (persisted-Keeps o project queued loaded secrets))
            (λ _. Ends-hydrated cfg secrets))

  Ends-configured : (snapshot : ConfigurationSnapshot) → Ends (configured o project queued snapshot)
  unfolding configured
  Ends-configured snapshot =
      Ends-or_rollback "VALIDATE_PORTS" _ _
        (Safe-step project queued o 10 "VALIDATE_PORTS" 5 _ (allocated-Keeps o project queued _))
        (λ cfg.
          Ends-or_rollback "LOAD_SECRETS" _ _
            (Safe-Keeps project queued _ (load_specs-Keeps project.id o.cipher project.id _ _))
            (λ loaded. Ends-with_secrets cfg loaded))

  Ends-started_with :
      (r : Result (Unit {0})) (c : Conn)
      → r ≡ ok tt
      → IsUnderWay project queued OperationStatus.running c
      → Ended (started_with o project queued r c)
  unfolding ignore ◌>>=◌ continue
  Ends-started_with (ok _) c is u =
      Ends-or_rollback "LOAD_CONFIGURATION" (get_desired_configuration project.id)
        (configured o project queued)
        (Safe-Keeps project queued _ (get_desired_configuration-Keeps project.id project.id))
        Ends-configured
        (update_project_status project.id ProjectStatus.installing HealthStatus.starting (o.clock 2)
          c).1
        (Safe-Keeps project queued _
          (update_project_status-Keeps project.id ProjectStatus.installing HealthStatus.starting
            (o.clock 2))
          c u)
  Ends-started_with (err e) c is u = cc

  ended :
      (c : Conn)
      → IsUnderWay project queued OperationStatus.queued c
      → Ended (run o project queued c)
  unfolding run attempt ◌>>=◌ continue perform
  ended c u =
      let p = passed project queued (Call.start (o.clock 1)) c u in
      Ends-started_with (Operation.start (o.clock 1) queued.id c).0
        (Operation.start (o.clock 1) queued.id c).1 p.answer p.after

  -- how an installation of a queued operation ends: installed, or rolled back
  pub data Settled (before after : Tables) (ran : Ran) : Type 0 where
    installed :
        ran.error ≡ none → IsInstalled o project queued before after → Settled before after ran
    rolled_back : (e : Error) → ran.error ≡ some e → IsRolledBack after → Settled before after ran

  settled :
      (c c' : Conn) (ran : Ran)
      → run o project queued c ≡ (ok ran, c')
      → Outcome ran c'.tables
      → Settled c.tables c'.tables ran
  settled c c' ran h (clean none_) =
      installed none_ (run-IsInstalled o project queued c c' ran h none_)
  settled c c' ran h (undone e is undoing) = rolled_back e is undoing

  -- On a connection where no statement fails, an installation whose operation is queued and whose server has its row comes
  -- to an end, whatever the provisioner, the generator and the cipher answer: either it returns no error and the server is
  -- installed, or it returns the error, the operation has been rolled back (or is rolling back, if the runtime could not be
  -- deleted), and the server is marked as failed.
  pub run-Settled :
      (t : Tables)
      → IsAt queued.id OperationStatus.queued t
      → any (is_project project.id) t.projects ≡ true
      → (ran : Ran) × (after : Tables) × (run o project queued (calm t) ≡ (ok ran, calm after))
        × Settled t after ran
  run-Settled t here known =
      let c = calm t in
      let c' = (run o project queued c).1 in
      let (ran, returned, outcome) =
        ended c (record { faultless = refl; here = here; known = known }) in
      let h : run o project queued c ≡ (ok ran, c') = λ i. (returned i, c') in
      (
        ran,
        c'.tables,
        h ∙ (λ i. (ok ran, calm_again c' ((run-Keeps o project queued).calms c refl) i)),
        settled c c' ran h outcome,
      )
