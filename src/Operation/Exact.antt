-- ===== src/Operation/Exact.antt =====
-- The methods of apps/manager/internal/operation/service.go on a connection where no statement fails.
use supabase_installer.Prelude.{String, some, ◌≡◌, refl, sym, subst, arith, find, if◌then◌else◌}
use supabase_installer.Contracts.{Operation, OperationStatus, same_status}
use supabase_installer.Errors.{Result, ok, err, invalid_transition}
use supabase_installer.Db.{Conn, pure, raise, ◌>>=◌, statement, query, in_tx}
use supabase_installer.Db.Laws.{calm}
use supabase_installer.Db.Schema.{Tables, OperationRow}
use supabase_installer.Store.Operations.{
  OperationUpdate, has_id, scan, get_operation, update_operation, update_row,
  append_operation_event,
}
use supabase_installer.Store.Operations.Laws.{written, any-find, any-update, affected-find}
use supabase_installer.Operation.{require_status, keep_start, write_update}
use supabase_installer.Operation.Calls.{Call}
use supabase_installer.Operation.Methods.{
  perform, perform-method, source, change, as_operation, find-id,
}

pub get_operation-calm :
    (id : String) (t : Tables)
    → get_operation id (calm t) ≡ (scan (find (has_id id) t.operations), calm t)
unfolding get_operation query statement ◌>>=◌
get_operation-calm id t = refl

update_operation-calm :
    (id : String) (u : OperationUpdate) (t : Tables) (row : OperationRow)
    → find (has_id id) t.operations ≡ some row
    → update_operation id u (calm t) ≡ (ok tt, calm (written id u t))
unfolding update_operation update_row append_operation_event statement in_tx raise ◌>>=◌
update_operation-calm id u t row h = ground (
  arith,
  affected-find id t.operations row h,
  any-find id t.operations row h,
  any-update id id u t.operations,
)

require_status-calm :
    (id : String) (s : OperationStatus) (t : Tables) (row : OperationRow) (project : String)
    → find (has_id id) t.operations ≡ some row
    → row.project_id ≡ some project
    → require_status id s (calm t) ≡ (
        if same_status row.status s
        then (ok (as_operation row project), calm t)
        else (err (invalid_transition row.status), calm t))
unfolding require_status pure raise ◌>>=◌
require_status-calm id s t row project h p = ground (arith, get_operation-calm id t)

write_update-calm :
    (o : Operation) (u : OperationUpdate) (t : Tables) (row : OperationRow)
    → find (has_id o.id) t.operations ≡ some row
    → write_update o u (calm t) ≡ (ok tt, calm (written o.id (keep_start o u) t))
unfolding write_update
write_update-calm o u t row h = update_operation-calm o.id (keep_start o u) t row h

-- the result of a call, and the tables that it leaves
abbrev pub outcome : String → Call → Tables → OperationRow → String → Result (Unit {0}) × Conn
outcome id call t row project =
    if same_status row.status (source call)
    then (let o = as_operation row project in
        (ok tt, calm (written id (keep_start o (change call o)) t)))
    else (err (invalid_transition row.status), calm t)

perform_here :
    (id : String) (call : Call) (t : Tables) (row : OperationRow) (project : String)
    → find (has_id row.id) t.operations ≡ some row
    → find (has_id id) t.operations ≡ some row
    → row.project_id ≡ some project
    → perform id call (calm t) ≡ outcome row.id call t row project
unfolding ◌>>=◌
perform_here id call t row project here h p =
    let o = as_operation row project in
    rw (perform-method id call) (
      ground (
        arith,
        require_status-calm id (source call) t row project h p,
        write_update-calm o (change call o) t row here,
      ))

-- On a connection where no statement fails, a call on an operation that has its project writes the
-- row and one event if the row's status is the one that the call requires, and otherwise is refused
-- with that status and changes nothing.
pub perform_exact :
    (id : String) (call : Call) (t : Tables) (row : OperationRow) (project : String)
    → find (has_id id) t.operations ≡ some row
    → row.project_id ≡ some project
    → perform id call (calm t) ≡ outcome id call t row project
perform_exact id call t row project h p =
    let e = find-id id t.operations row h in
    let here = subst (λ k. find (has_id k) t.operations ≡ some row) (sym e) h in
    subst (λ k. perform id call (calm t) ≡ outcome k call t row project) e
      (perform_here id call t row project here h p)
