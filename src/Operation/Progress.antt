-- ===== src/Operation/Progress.antt =====
-- A call of apps/manager/internal/operation/service.go that the status of its operation allows, on a connection where
-- no statement fails.
use supabase_installer.Prelude.{String, true, some, ◌≡◌, refl, sym, ap, ◌∙◌, find, if◌then◌else◌}
use supabase_installer.Contracts.{OperationStatus, same_status}
use supabase_installer.Errors.{ok, err, invalid_transition}
use supabase_installer.Db.Laws.{calm}
use supabase_installer.Db.Schema.{Tables, OperationRow}
use supabase_installer.Store.Operations.{has_id}
use supabase_installer.Store.Operations.Laws.{written}
use supabase_installer.Operation.{keep_start}
use supabase_installer.Operation.Calls.{Call}
use supabase_installer.Operation.Methods.{perform, source, target, change, as_operation}
use supabase_installer.Operation.Exact.{perform_exact}
use supabase_installer.Operation.Transitions.{perform-Effect}

-- the operation of a project, with its status
pub record IsAt (id : String) (status : OperationStatus) (t : Tables) : Type 0 where
  pub row : OperationRow
  pub project : String
  pub is_row : find (has_id id) t.operations ≡ some row
  pub of_project : row.project_id ≡ some project
  pub is_at : row.status ≡ status

pub record Advanced (id : String) (call : Call) (t : Tables) : Type 0 where
  pub after : Tables
  pub done : perform id call (calm t) ≡ (ok tt, calm after)
  pub reached : IsAt id (target call) after
  pub projects : after.projects ≡ t.projects

same_source : (call : Call) → same_status (source call) (source call) ≡ true
same_source (Call.start now) = refl
same_source (Call.start_step now step progress) = refl
same_source (Call.complete_step now step progress) = refl
same_source (Call.fail now step cause) = refl
same_source (Call.begin_rollback now) = refl
same_source (Call.complete_rollback now) = refl
same_source (Call.succeed now) = refl

some_injective : {x y : OperationRow} → some x ≡ some y → x ≡ y
some_injective h = cc h

pub perform-Advanced :
    (id : String) (call : Call) (t : Tables) → IsAt id (source call) t → Advanced id call t
perform-Advanced id call t here =
    let o = as_operation here.row here.project in
    let after = written id (keep_start o (change call o)) t in
    let done : perform id call (calm t) ≡ (ok tt, calm after) =
      perform_exact id call t here.row here.project here.is_row here.of_project
      ∙ ap
          (λ b.
            if b then (ok tt, calm after) else (err (invalid_transition here.row.status), calm t))
          (ap (λ s. same_status s (source call)) here.is_at ∙ same_source call) in
    let effect = perform-Effect id call (calm t) done in
    let same_row = some_injective (sym effect.was ∙ here.is_row) in
    record {
      after = after;
      done = done;
      reached = record {
        row = effect.new;
        project = here.project;
        is_row = effect.is;
        of_project =
            effect.transition.project_id
            ∙ ap (λ (r : OperationRow). r.project_id) same_row
            ∙ here.of_project;
        is_at = effect.transition.reached;
      };
      projects = ap (λ (x : Tables). x.projects) effect.rest;
    }
