-- ===== src/Tests/Servers.antt =====
-- apps/manager/internal/lifecycle/service.go and apps/provisioner/internal/health/inspect.go on one server.
use supabase_installer.Prelude.{ℕ, String, none, List, [], ◌∷◌, map, ◌≡◌, refl, codes}
use supabase_installer.Contracts.{HealthStatus, Operation, OperationType, queued}
use supabase_installer.Errors.{Error, ok, err, confirmation_required}
use supabase_installer.Db.{Conn, statement, ◌>>=◌, pure, raise}
use supabase_installer.Db.Laws.{calm}
use supabase_installer.Store.Projects.{delete_row, delete_project}
use supabase_installer.Lifecycle.{Action, Provisioner, run, force_delete}
use supabase_installer.Lifecycle.Delete.{Fails, run-delete_data}
use supabase_installer.Lifecycle.Force.{Deleted, force_delete-Deleted}
use supabase_installer.Health.{Container, Source, ProjectRef, service_state, project}
use supabase_installer.Health.Summary.{overall, project-overall}
use supabase_installer.Tests.Operations

abbrev provisioner : Provisioner
provisioner = record { lifecycle = λ r. ok tt; inspect = λ id slug. ok HealthStatus.healthy }

abbrev clock : ℕ → ℕ
clock k = k

abbrev message : Error → String
message e = "failed"

abbrev operation : Operation
operation = record {
  id = "op";
  project_id = "p";
  type = OperationType.delete;
  status = queued;
  current_step = "";
  progress = 0;
  error_code = "";
  error_message = "";
  started_at = none;
  finished_at = none;
  created_at = 1;
}

abbrev c : Conn
c = calm Operations.waiting

run-delete_data_example :
    Fails (run provisioner clock message Operations.project Action.delete_data operation) c
run-delete_data_example =
    run-delete_data provisioner clock message Operations.project operation c
      (Operations.row queued, refl, refl)

abbrev deleted : Conn
deleted = (force_delete provisioner "f" 9 Operations.project Action.delete_data "Blog" c).1

deletes :
    force_delete provisioner "f" 9 Operations.project Action.delete_data "Blog" c ≡ (ok tt, deleted)
unfolding force_delete delete_project delete_row statement ◌>>=◌ pure raise
deletes = refl

force_delete-Deleted_example :
    Deleted provisioner "f" 9 Operations.project "Blog" Operations.waiting deleted.tables
      Action.delete_data
force_delete-Deleted_example =
    force_delete-Deleted provisioner "f" 9 Operations.project "Blog" Action.delete_data c deletes

unconfirmed :
    force_delete provisioner "f" 9 Operations.project Action.delete_data "Bog" c
    ≡ (err confirmation_required, c)
unfolding force_delete raise
unconfirmed = refl

abbrev containers : List Container
containers =
    record { service = "db"; state = "running"; health = "healthy" }
    ∷ record { service = "storage"; state = "exited"; health = "" }
    ∷ []

abbrev server : ProjectRef
server = record { slug = codes "blog"; enabled = "db" ∷ "storage" ∷ [] }

project-overall_example :
    project (Source.plain (λ name. ok containers)) server 7
    ≡ ok (record {
      health = overall containers server.enabled;
      services = map (service_state containers) server.enabled;
      checked_at = 7;
    })
project-overall_example = project-overall (Source.plain (λ name. ok containers)) server 7 refl
