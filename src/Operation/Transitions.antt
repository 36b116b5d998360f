-- ===== src/Operation/Transitions.antt =====
-- One call of apps/manager/internal/operation/service.go: the row of its operation, and the other rows.
use supabase_installer.Prelude.{
  ℕ, String, same_self, same-ne, Option, none, some, ◌≡◌, ◌≢◌, refl, sym, subst, arith, find,
}
use supabase_installer.Errors.{Error, ok, err}
use supabase_installer.Db.{Conn}
use supabase_installer.Db.Schema.{Tables, OperationRow}
use supabase_installer.Store.Operations.{has_id, set_columns}
use supabase_installer.Store.Operations.Laws.{written, find-update}
use supabase_installer.Operation.{keep_start}
use supabase_installer.Operation.Calls.{Call}
use supabase_installer.Operation.Methods.{
  perform, source, target, change, as_operation, perform-ok, perform-Atomic,
}

abbrev pub started : Call → Option ℕ → Option ℕ
started (Call.start now) old = some now
started _ old = old

abbrev pub finished : Call → Option ℕ
finished (Call.fail now _ _) = some now
finished (Call.complete_rollback now) = some now
finished (Call.succeed now) = some now
finished _ = none

abbrev pub progress_after : Call → ℕ → ℕ
progress_after (Call.start _) old = 0
progress_after (Call.start_step _ _ progress) old = progress
progress_after (Call.complete_step _ _ progress) old = progress
progress_after (Call.succeed _) old = 100
progress_after _ old = old

abbrev pub message_after : Call → String → String
message_after (Call.fail _ _ cause) old = cause
message_after (Call.begin_rollback _) old = old
message_after (Call.complete_rollback _) old = old
message_after _ old = ""

-- the row before a call and the row after it
pub record Transition (call : Call) (before after : OperationRow) : Type 0 where
  pub left : before.status ≡ source call
  pub reached : after.status ≡ target call
  pub id : after.id ≡ before.id
  pub project_id : after.project_id ≡ before.project_id
  pub type : after.type ≡ before.type
  pub created_at : after.created_at ≡ before.created_at
  pub started_at : after.started_at ≡ started call before.started_at
  pub finished_at : after.finished_at ≡ finished call
  pub progress : after.progress ≡ progress_after call before.progress
  pub error_message : after.error_message ≡ message_after call before.error_message

new_row : Call → OperationRow → String → OperationRow
new_row call row project =
    let o = as_operation row project in set_columns (keep_start o (change call o)) row

new_row-Transition :
    (call : Call) (row : OperationRow) (project : String)
    → row.status ≡ source call
    → Transition call row (new_row call row project)
unfolding new_row
new_row-Transition call row project h = ground arith

-- everything that the success of a call tells
pub record Effect (id : String) (call : Call) (before after : Tables) : Type 0 where
  pub old : OperationRow
  pub new : OperationRow
  pub was : find (has_id id) before.operations ≡ some old
  pub is : find (has_id id) after.operations ≡ some new
  pub transition : Transition call old new
  pub others :
      (j : String) (row : OperationRow)
      → id ≢ j
      → find (has_id j) before.operations ≡ some row
      → find (has_id j) after.operations ≡ some row
  pub rest : after ≡ record before { operations = after.operations; events = after.events }

pub Effect-of :
    (id : String) (call : Call) (row : OperationRow) (project : String) (t : Tables)
    → find (has_id id) t.operations ≡ some row
    → row.status ≡ source call
    → let o = as_operation row project in
      Effect id call t (written id (keep_start o (change call o)) t)
unfolding new_row
Effect-of id call row project t found from =
    let o = as_operation row project in
    let u = keep_start o (change call o) in
    record {
      old = row;
      new = new_row call row project;
      was = found;
      is = rw (find-update id id u t.operations row found, same_self id);
      transition = new_row-Transition call row project from;
      others = λ j r differ h. rw (find-update id j u t.operations r h, same-ne id j differ);
      rest = refl;
    }

-- A call that succeeds found the row of its operation in the status that it requires, moved it along
-- its transition, and left the rows of the other operations and all other tables as they were.
pub perform-Effect :
    (id : String) (call : Call) (c : Conn) {c' : Conn}
    → perform id call c ≡ (ok tt, c')
    → Effect id call c.tables c'.tables
perform-Effect id call c h =
    let done = perform-ok id call c h in
    subst (Effect id call c.tables) (sym done.effect)
      (Effect-of id call done.row done.project c.tables done.is_row done.from)

-- A call that fails, because the operation is missing, has lost its project or is in another
-- status, or because a statement fails in the driver, changes no table.
pub perform_failure :
    (id : String) (call : Call) (c : Conn) {e : Error} {c' : Conn}
    → perform id call c ≡ (err e, c')
    → c'.tables ≡ c.tables
perform_failure id call c h = (perform-Atomic id call).undoes c h
