-- ===== src/Installer/Bystanders.antt =====
-- Run of apps/manager/internal/install/orchestrator.go leaves the other servers alone, and neither makes nor deletes
-- the row of its own.
use supabase_installer.Prelude.{ℕ, ◌+◌, String, Bool, Option, List, ◌≡◌, refl, ap}
use supabase_installer.Contracts.{Project, ProjectStatus, HealthStatus, Operation, OperationEvent}
use supabase_installer.Contracts.Configuration.{ProjectConfiguration}
use supabase_installer.Errors.{Error, Result, ok, err}
use supabase_installer.Db.{Db}
use supabase_installer.Db.Schema.{Tables, OperationRow}
use supabase_installer.Db.Frame.{
  Keeps, Keeps-lift, Keeps-pure, Keeps-bind, Keeps-statement, Kept, frame_rules,
}
use supabase_installer.Store.Projects.{update_project_status}
use supabase_installer.Store.Projects.Effects.{with_status}
use supabase_installer.Operation.Frame.{
  start-Keeps, start_step-Keeps, complete_step-Keeps, fail-Keeps, begin_rollback-Keeps,
  complete_rollback-Keeps, succeed-Keeps, get-Keeps,
}
use supabase_installer.Lifecycle.{Ran, gave}
use supabase_installer.Store.Configuration.{ConfigurationSnapshot}
use supabase_installer.Installer.{ProjectSecrets}
use supabase_installer.Installer.Run.{
  Orchestrator, step, rolled_back_if, rollback, answer, or_rollback, got, finish, start_runtime,
  reconciled, hydrated, with_secrets, configured, started_with, run,
}
use supabase_installer.Installer.Aside.{
  beside, aside, beside-update, get_desired_configuration-Keeps,
}
use supabase_installer.Installer.Kept.{
  load_specs-Keeps, apply_configured_studio_password-Keeps, hydrate_configured_secrets-Keeps,
  allocated-Keeps, generated-Keeps, persisted-Keeps, check_health-Keeps,
}

of_aside {ℓ} : {A : Type ℓ} (id : String) (m : Db A) → Keeps (aside id) m → Keeps (beside id) m
of_aside id m k = record { keeps = λ c. ap (λ v. v.1) (k.keeps c); calms = k.calms }

pub update_project_status-Keeps :
    (id : String) (status : ProjectStatus) (health : HealthStatus) (now : ℕ)
    → Keeps (aside id) (update_project_status id status health now)
unfolding update_project_status
update_project_status-Keeps id status health now =
    Keeps-bind (aside id) _ _
      (Keeps-statement (aside id) _ (λ t. Kept.done _ _ (λ i.
        (t.operations, beside-update id (with_status status health now) (λ p. refl) t.projects i))))
      (λ count. search frame_rules)

module _ (o : Orchestrator) (project : Project) (queued : Operation) where
  abbrev view : Tables → Bool × List Project
  view = beside project.id

  apart :
      (t : Tables) (operations : List OperationRow) (events : List OperationEvent)
      → view (record t { operations = operations; events = events }) ≡ view t
  apart t operations events = refl

  step-Keeps {ℓ} :
      {A : Type ℓ} (tick : ℕ) (name : String) (progress : ℕ) (action : Db A)
      → Keeps (aside project.id) action
      → Keeps view (step o tick queued.id name progress action)
  unfolding step
  step-Keeps tick name progress action k =
      Keeps-bind view _ _ (start_step-Keeps view apart (o.clock tick) queued.id name progress) (λ _.
        Keeps-bind view action _ (of_aside project.id action k) (λ a.
          Keeps-bind view _ _
            (complete_step-Keeps view apart (o.clock (tick + 1)) queued.id name progress)
            (λ _. Keeps-pure view a)))

  status-Keeps :
      (status : ProjectStatus) (health : HealthStatus) (now : ℕ)
      → Keeps view (update_project_status project.id status health now)
  status-Keeps status health now =
      of_aside project.id _ (update_project_status-Keeps project.id status health now)

  gave-Keeps : (operation : Option Operation) (e : Error) → Keeps view (gave operation e)
  gave-Keeps operation e = search frame_rules

  rolled_back_if-Keeps : (r : Result (Unit {0})) → Keeps view (rolled_back_if o project queued r)
  rolled_back_if-Keeps (ok _) = search (frame_rules, complete_rollback-Keeps, apart)
  rolled_back_if-Keeps (err e) = search frame_rules

  rollback-Keeps :
      (name : String) (cause : Error) → Keeps view (rollback o project queued name cause)
  unfolding rollback
  rollback-Keeps name cause =
      search
        (
          frame_rules, fail-Keeps, begin_rollback-Keeps, rolled_back_if-Keeps, status-Keeps,
          get-Keeps, apart,
        )
        depth 9

  answer-Keeps {ℓ} :
      {A : Type ℓ} (name : String) (next : A → Db Ran) (r : Result A)
      → ((a : A) → Keeps view (next a))
      → Keeps view (answer o project queued name next r)
  answer-Keeps name next (ok a) k = k a
  answer-Keeps name next (err e) k = rollback-Keeps name e

  or_rollback-Keeps {ℓ} :
      {A : Type ℓ} (name : String) (m : Db A) (next : A → Db Ran)
      → Keeps view m
      → ((a : A) → Keeps view (next a))
      → Keeps view (or_rollback o project queued name m next)
  unfolding or_rollback
  or_rollback-Keeps name m next km k = search (frame_rules, answer-Keeps)

  got-Keeps : (r : Result (Unit {0})) → Keeps view (got o project queued r)
  got-Keeps (ok _) = search (frame_rules, get-Keeps, apart)
  got-Keeps (err e) = gave-Keeps _ e

  finish-Keeps : Keeps view (finish o project queued)
  unfolding finish
  finish-Keeps = search (frame_rules, succeed-Keeps, got-Keeps, apart)

  start_runtime-Keeps :
      (cfg : ProjectConfiguration) → Keeps view (start_runtime o project queued cfg)
  unfolding start_runtime
  start_runtime-Keeps cfg =
      search
        (or_rollback-Keeps, step-Keeps, Keeps-lift, check_health-Keeps, status-Keeps, finish-Keeps)
        depth 9

  hydrated-Keeps :
      (cfg : ProjectConfiguration) (secrets : ProjectSecrets)
      → Keeps view (hydrated o project queued cfg secrets)
  unfolding hydrated reconciled
  hydrated-Keeps cfg secrets =
      search
        (
          or_rollback-Keeps, of_aside, apply_configured_studio_password-Keeps,
          hydrate_configured_secrets-Keeps, step-Keeps, Keeps-lift, start_runtime-Keeps,
        )
        depth 9

  configured-Keeps :
      (snapshot : ConfigurationSnapshot) → Keeps view (configured o project queued snapshot)
  unfolding configured with_secrets
  configured-Keeps snapshot =
      search
        (
          or_rollback-Keeps, of_aside, load_specs-Keeps, allocated-Keeps, generated-Keeps,
          persisted-Keeps, step-Keeps, hydrated-Keeps,
        )
        depth 9

  started_with-Keeps : (r : Result (Unit {0})) → Keeps view (started_with o project queued r)
  started_with-Keeps (ok _) =
      search
        (
          frame_rules, status-Keeps, or_rollback-Keeps, of_aside, get_desired_configuration-Keeps,
          configured-Keeps,
        )
        depth 8
  started_with-Keeps (err e) = gave-Keeps _ e

  pub run-Keeps : Keeps view (run o project queued)
  unfolding run
  run-Keeps = search (frame_rules, start-Keeps, started_with-Keeps, apart)
