-- ===== src/Operation/Methods.antt =====
-- The methods of apps/manager/internal/operation/service.go as a read that requires a status, and an update.
use supabase_installer.Prelude.{
  String, same_iff, true, some, List, [], ◌∷◌, ◌≡◌, refl, ◌∙◌, sym, ap, inl, inr, arith, find,
  Bool-cases, if◌then◌else◌,
}
use supabase_installer.Contracts.{
  Operation, OperationStatus, queued, running, succeeded, failed, rolling_back, rolled_back, raw,
  object, text, same_status,
}
use supabase_installer.Errors.{ok, invalid_transition}
use supabase_installer.Db.{Conn, Db, pure, raise, ◌>>=◌}
use supabase_installer.Db.Laws.{>>=-eq-ok}
use supabase_installer.Db.Reads.{
  Reads, Atomic, Reads-bind, Atomic-bind, Reads-if, Reads-pure, Reads-raise,
}
use supabase_installer.Db.Schema.{OperationRow}
use supabase_installer.Store.Operations.{OperationUpdate, has_id, scan, get_operation}
use supabase_installer.Store.Operations.Laws.{
  written, Read, get_operation-ok, get_operation-Reads, update_operation-ok,
  update_operation-Atomic,
}
use supabase_installer.Operation.Calls.{Call}
use supabase_installer.Operation.{
  zero_update, require_status, keep_start, write_update, start, start_step, complete_step, fail,
  begin_rollback, complete_rollback, succeed, step_payload,
}

unfoldable pub perform : String → Call → Db (Unit {0})
perform id (Call.start now) = start now id
perform id (Call.start_step now step progress) = start_step now id step progress
perform id (Call.complete_step now step progress) = complete_step now id step progress
perform id (Call.fail now step cause) = fail now id step cause
perform id (Call.begin_rollback now) = begin_rollback now id
perform id (Call.complete_rollback now) = complete_rollback now id
perform id (Call.succeed now) = succeed now id

-- the status that a call starts from, and the one that it leads to
abbrev pub source : Call → OperationStatus
source (Call.start _) = queued
source (Call.begin_rollback _) = failed
source (Call.complete_rollback _) = rolling_back
source _ = running

abbrev pub target : Call → OperationStatus
target (Call.start _) = running
target (Call.start_step _ _ _) = running
target (Call.complete_step _ _ _) = running
target (Call.fail _ _ _) = failed
target (Call.begin_rollback _) = rolling_back
target (Call.complete_rollback _) = rolled_back
target (Call.succeed _) = succeeded

-- the columns that a call writes
abbrev pub change : Call → Operation → OperationUpdate
change (Call.start now) o = record (zero_update running) {
  started_at = some now;
  event_type = "OPERATION_STARTED";
  event_payload = raw "{\"status\":\"RUNNING\"}";
  event_time = now;
}
change (Call.start_step now step progress) o = record (zero_update running) {
  current_step = step;
  progress = progress;
  event_type = "STEP_STARTED";
  event_payload = step_payload step progress "RUNNING";
  event_time = now;
}
change (Call.complete_step now step progress) o = record (zero_update running) {
  current_step = step;
  progress = progress;
  event_type = "STEP_COMPLETED";
  event_payload = step_payload step progress "SUCCEEDED";
  event_time = now;
}
change (Call.fail now step cause) o = record (zero_update failed) {
  current_step = step;
  progress = o.progress;
  error_code = "OPERATION_FAILED";
  error_message = cause;
  finished_at = some now;
  event_type = "OPERATION_FAILED";
  event_payload =
      object
        (("code", text "OPERATION_FAILED") ∷ ("message", text cause) ∷ ("step", text step) ∷ []);
  event_time = now;
}
change (Call.begin_rollback now) o = record (zero_update rolling_back) {
  current_step = o.current_step;
  progress = o.progress;
  error_code = o.error_code;
  error_message = o.error_message;
  started_at = o.started_at;
  event_type = "ROLLBACK_STARTED";
  event_payload = raw "{\"status\":\"ROLLING_BACK\"}";
  event_time = now;
}
change (Call.complete_rollback now) o = record (zero_update rolled_back) {
  current_step = o.current_step;
  progress = o.progress;
  error_code = o.error_code;
  error_message = o.error_message;
  started_at = o.started_at;
  finished_at = some now;
  event_type = "ROLLBACK_COMPLETED";
  event_payload = raw "{\"status\":\"ROLLED_BACK\"}";
  event_time = now;
}
change (Call.succeed now) o = record (zero_update succeeded) {
  current_step = o.current_step;
  progress = 100;
  started_at = o.started_at;
  finished_at = some now;
  event_type = "OPERATION_SUCCEEDED";
  event_payload = raw "{\"status\":\"SUCCEEDED\",\"progress\":100}";
  event_time = now;
}

abbrev pub method : String → Call → Db (Unit {0})
method id call =
    require_status id (source call) >>= λ operation. write_update operation (change call operation)

pub perform-method : (id : String) (call : Call) → perform id call ≡ method id call
unfolding perform start start_step complete_step fail begin_rollback complete_rollback succeed
perform-method id (Call.start now) = refl
perform-method id (Call.start_step now step progress) = refl
perform-method id (Call.complete_step now step progress) = refl
perform-method id (Call.fail now step cause) = refl
perform-method id (Call.begin_rollback now) = refl
perform-method id (Call.complete_rollback now) = refl
perform-method id (Call.succeed now) = refl

same_status-eq : (a b : OperationStatus) → same_status a b ≡ true → a ≡ b
same_status-eq a b h = ground arith

abbrev checked : OperationStatus → Operation → Db Operation
checked s o = if same_status o.status s then pure o else raise (invalid_transition o.status)

checked-ok :
    (s : OperationStatus) (x : Operation) (c : Conn) {o : Operation} {c' : Conn}
    → checked s x c ≡ (ok o, c')
    → (x ≡ o) × (c ≡ c') × (x.status ≡ s)
unfolding pure raise
checked-ok s x c h = elim (Bool-cases (same_status x.status s)) [
  | inl e ↦ let k = rw e at h in (cc k, cc k, same_status-eq x.status s e)
  | inr e ↦ absurd (let k = rw e at h in cc k)
]

require_status-Reads : (id : String) (s : OperationStatus) → Reads (require_status id s)
unfolding require_status
require_status-Reads id s = Reads-bind (get_operation id) (checked s) (get_operation-Reads id) (λ o.
    Reads-if (same_status o.status s) (pure o) (raise (invalid_transition o.status)) (Reads-pure o)
      (Reads-raise (invalid_transition o.status)))

require_status-ok :
    (id : String) (s : OperationStatus) (c : Conn) {o : Operation} {c' : Conn}
    → require_status id s c ≡ (ok o, c')
    → Read id c o c' × (o.status ≡ s)
unfolding require_status pure raise
require_status-ok id s c {o} {c'} h =
    let steps = >>=-eq-ok (get_operation id) (checked s) c h in
    let last = checked-ok s steps.value steps.middle steps.second in
    let read = get_operation-ok id c steps.first in
    (rw (last.0, last.1) at read, sym (ap (λ (x : Operation). x.status) last.0) ∙ last.2)

pub perform-Atomic : (id : String) (call : Call) → Atomic (perform id call)
perform-Atomic id call = rw perform-method (
    Atomic-bind (require_status id (source call)) (λ o. write_update o (change call o))
      (require_status-Reads id (source call))
      (λ o. unfold write_update in update_operation-Atomic o.id (keep_start o (change call o))))

pub find-id :
    (id : String) (rows : List OperationRow) (row : OperationRow)
    → find (has_id id) rows ≡ some row
    → row.id ≡ id
find-id id [] row h = cc
find-id id (x ∷ xs) row h = ground (arith, same_iff x.id id, find-id id xs row)

-- the operation that a row with this project is read as
abbrev pub as_operation : OperationRow → String → Operation
as_operation row project = record {
  id = row.id;
  project_id = project;
  type = row.type;
  status = row.status;
  current_step = row.current_step;
  progress = row.progress;
  error_code = row.error_code;
  error_message = row.error_message;
  started_at = row.started_at;
  finished_at = row.finished_at;
  created_at = row.created_at;
}

pub scan-ok :
    (row : OperationRow) (o : Operation)
    → scan (some row) ≡ ok o
    → (row.project_id ≡ some o.project_id) × (o ≡ as_operation row o.project_id)
scan-ok row o h = ground arith

-- what a call that succeeds has found and done
pub record Performed (id : String) (call : Call) (c c' : Conn) : Type 0 where
  pub row : OperationRow
  pub project : String
  pub is_row : find (has_id id) c.tables.operations ≡ some row
  pub has_project : row.project_id ≡ some project
  pub from : row.status ≡ source call
  pub effect :
      let o = as_operation row project in
      c'.tables ≡ written id (keep_start o (change call o)) c.tables

Performed-of :
    (id : String) (call : Call) (c m : Conn) (o : Operation) {c' : Conn}
    → Read id c o m
    → o.status ≡ source call
    → write_update o (change call o) m ≡ (ok tt, c')
    → Performed id call c c'
unfolding write_update
Performed-of id call c m o read from w =
    let (p, q) = scan-ok read.row o read.is_operation in
    let same_id : o.id ≡ id =
      ap (λ (x : Operation). x.id) q ∙ find-id id c.tables.operations read.row read.is_row in
    record {
      row = read.row;
      project = o.project_id;
      is_row = read.is_row;
      has_project = p;
      from = sym (ap (λ (x : Operation). x.status) q) ∙ from;
      effect =
          update_operation-ok o.id (keep_start o (change call o)) m w
          ∙ (λ i. written (same_id i) (keep_start (q i) (change call (q i))) (read.same_tables i));
    }

pub perform-ok :
    (id : String) (call : Call) (c : Conn) {c' : Conn}
    → perform id call c ≡ (ok tt, c')
    → Performed id call c c'
perform-ok id call c h =
    let k = sym (ap (λ (m : Db (Unit {0})). m c) (perform-method id call)) ∙ h in
    let steps =
      >>=-eq-ok (require_status id (source call)) (λ o. write_update o (change call o)) c k in
    let (read, from) = require_status-ok id (source call) c steps.first in
    Performed-of id call c steps.middle steps.value read from steps.second
