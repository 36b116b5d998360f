-- ===== src/Installer/Failure.antt =====
-- What rollback of apps/manager/internal/install/orchestrator.go leaves behind.
use supabase_installer.Prelude.{
  String, Bool, true, false, some, ◌≡◌, refl, ap, ◌∙◌, find, update, affected, if◌then◌else◌, ◌==◌,
}
use supabase_installer.Contracts.{Project, ProjectStatus, HealthStatus, Operation, OperationStatus}
use supabase_installer.Errors.{Error, Result, ok, err, not_found}
use supabase_installer.Db.{Conn, Db, pure, raise, attempt, ignore, statement, ◌>>=◌, continue}
use supabase_installer.Db.Laws.{calm}
use supabase_installer.Db.Schema.{Tables}
use supabase_installer.Store.Projects.{is_project, update_project_status}
use supabase_installer.Store.Projects.Effects.{with_status, marked}
use supabase_installer.Store.Operations.{has_id, scan}
use supabase_installer.Operation
use supabase_installer.Operation.Calls.{Call}
use supabase_installer.Operation.Methods.{perform}
use supabase_installer.Operation.Progress.{IsAt, perform-Advanced}
use supabase_installer.Lifecycle.{Ran, gave, latest}
use supabase_installer.Installer.Run.{Orchestrator, lifecycle_request, rolled_back_if, rollback}
use supabase_installer.Operation.Exact.{get_operation-calm}

update_project_status-calm :
    (b : Bool) (c : Conn) → ((if b then raise {A = Unit {0}} not_found else pure tt) c).1 ≡ c
unfolding raise pure
update_project_status-calm true c = refl
update_project_status-calm false c = refl

marking :
    (id : String) (status : ProjectStatus) (health : HealthStatus) (now : _) (t : Tables)
    → (update_project_status id status health now (calm t)).1 ≡ calm (marked id status health now t)
unfolding update_project_status statement ◌>>=◌
marking id status health now t =
    update_project_status-calm (affected (is_project id) t.projects == 0)
      (calm (marked id status health now t))

module _ (o : Orchestrator) (project : Project) (queued : Operation) where
  -- how far the operation gets: to the end if the runtime could be deleted
  abbrev pub settled_by : Result (Unit {0}) → OperationStatus
  settled_by (ok _) = OperationStatus.rolled_back
  settled_by (err e) = OperationStatus.rolling_back

  pub record IsUndone (before after : Tables) : Type 0 where
    pub operation :
        IsAt queued.id
          (settled_by
            (o.runtime.lifecycle (lifecycle_request o project queued "rollback" "DELETE_RUNTIME")))
          after
    pub projects :
        after.projects
        ≡ update
            (is_project project.id)
            (with_status ProjectStatus.failed HealthStatus.unknown (o.clock 93))
            before.projects

  record Ended (r : Result (Unit {0})) (t : Tables) : Type 0 where
    after : Tables
    done : rolled_back_if o project queued r (calm t) ≡ (ok tt, calm after)
    reached : IsAt queued.id (settled_by r) after
    same_projects : after.projects ≡ t.projects

  ended :
      (r : Result (Unit {0})) (t : Tables)
      → IsAt queued.id OperationStatus.rolling_back t
      → Ended r t
  unfolding ignore perform pure
  ended (ok _) t here =
      let last = perform-Advanced queued.id (Call.complete_rollback (o.clock 92)) t here in
      record {
        after = last.after;
        done = ap (λ (p : Result (Unit {0}) × Conn). (ok tt, p.1)) last.done;
        reached = last.reached;
        same_projects = last.projects;
      }
  ended (err e) t here = record { after = t; done = refl; reached = here; same_projects = refl }

  -- On a connection where no statement fails, the rollback of a running installation ends: it reports the cause, marks the
  -- server as failed, and leaves the operation as rolled back, or as rolling back if the runtime could not be deleted.
  pub rollback-IsUndone :
      (name : String) (cause : Error) (t : Tables)
      → IsAt queued.id OperationStatus.running t
      → (ran : Ran) × (after : Tables) × (rollback o project queued name cause (calm t)
          ≡ (ok ran, calm after))
        × (ran.error ≡ some cause)
        × IsUndone t after
  unfolding rollback ignore attempt ◌>>=◌ perform pure Operation.get
  rollback-IsUndone name cause t here =
      let failed =
        perform-Advanced queued.id (Call.fail (o.clock 90) name (o.message cause)) t here in
      let begun =
        perform-Advanced queued.id (Call.begin_rollback (o.clock 91)) failed.after failed.reached in
      let answer =
        o.runtime.lifecycle (lifecycle_request o project queued "rollback" "DELETE_RUNTIME") in
      let end = ended answer begun.after begun.reached in
      let status =
        marking project.id ProjectStatus.failed HealthStatus.unknown (o.clock 93) end.after in
      let after =
        marked project.id ProjectStatus.failed HealthStatus.unknown (o.clock 93) end.after in
      let mark : Db (Unit {0}) =
        ignore (
          update_project_status project.id ProjectStatus.failed HealthStatus.unknown
            (o.clock 93)) in
      let tail : Db Ran = attempt (Operation.get queued.id) >>= λ r. gave (latest r) cause in
      let both : Result (Unit {0}) × Conn → Result Ran × Conn = λ p.
        continue (continue p.0 (λ _. mark) p.1).0 (λ _. tail) (continue p.0 (λ _. mark) p.1).1 in
      (
        record {
          operation = latest (scan (find (has_id queued.id) after.operations));
          error = some cause;
        },
        after,
        ap
              (λ (p : Result (Unit {0}) × Conn). both (
                rolled_back_if o project queued answer
                  (Operation.begin_rollback (o.clock 91) queued.id p.1).1))
              failed.done
            ∙ ap
                (λ (p : Result (Unit {0}) × Conn).
                  both (rolled_back_if o project queued answer p.1))
                begun.done
            ∙ ap both end.done
            ∙ ap tail status
            ∙ ap (λ (p : Result Operation × Conn). gave (latest p.0) cause p.1)
                (get_operation-calm queued.id after),
        refl,
        record {
          operation = record {
            row = end.reached.row;
            project = end.reached.project;
            is_row = end.reached.is_row;
            of_project = end.reached.of_project;
            is_at = end.reached.is_at;
          };
          projects =
              ap
                (update (is_project project.id)
                  (with_status ProjectStatus.failed HealthStatus.unknown (o.clock 93)))
                (end.same_projects ∙ begun.projects ∙ failed.projects);
        },
      )
