-- ===== src/Lifecycle/Delete.antt =====
-- Deleting a server with its data in Run of apps/manager/internal/lifecycle/service.go.
use supabase_installer.Prelude.{
  ℕ, String, true, Option, none, some, List, [], ◌∷◌, map, same, same_self, is_some, ◌≡◌, refl, sym,
  ap, ◌∙◌, subst, if◌then◌else◌, find, arith,
}
use supabase_installer.Contracts.{Project, Operation}
use supabase_installer.Errors.{Error, Result, ok, err}
use supabase_installer.Db.{Conn, Db, pure, attempt, ignore, ◌>>=◌}
use supabase_installer.Db.Schema.{Tables, OperationRow}
use supabase_installer.Store.Operations.{has_id}
use supabase_installer.Store.Projects.{forget, forget_by, delete_project}
use supabase_installer.Store.Projects.Effects.{delete_project-done}
use supabase_installer.Operation
use supabase_installer.Operation.Calls.{Call}
use supabase_installer.Operation.Methods.{perform, perform-ok}
use supabase_installer.Operation.Transitions.{perform-Effect, perform_failure}
use supabase_installer.Lifecycle.{
  Action, Provisioner, Ran, give_up, finish, succeeded_with, go_on, provisioned, answered,
  started_with, run, request, latest,
}

-- the operation has this project, or has lost its project
abbrev pub HasProject : String → Option String → Tables → Type 0
HasProject id p t =
    (row : OperationRow) × (find (has_id id) t.operations ≡ some row) × (row.project_id ≡ p)

after_call :
    (id : String) (k : Call) (p : Option String) (c c' : Conn) (r : Result (Unit {0}))
    → perform id k c ≡ (r, c')
    → HasProject id p c.tables
    → HasProject id p c'.tables
after_call id k p c c' (ok u) e (row, found, is_p) =
    let eff = perform-Effect id k c e in
    let same_row : eff.old ≡ row = let was = eff.was in cc in
    (
      eff.new,
      eff.is,
      eff.transition.project_id ∙ ap (λ (x : OperationRow). x.project_id) same_row ∙ is_p,
    )
after_call id k p c c' (err x) e has = subst (HasProject id p) (sym (perform_failure id k c e)) has

keeps :
    (id : String) (k : Call) (p : Option String) (c : Conn)
    → HasProject id p c.tables
    → HasProject id p (perform id k c).1.tables
keeps id k p c has = after_call id k p c (perform id k c).1 (perform id k c).0 refl has

id-forget_by :
    (p : String) (q : Option String) (row : OperationRow) → (forget_by p q row).id ≡ row.id
id-forget_by p none row = refl
id-forget_by p (some q) row = ground arith

project_id-forget :
    (p : String) (row : OperationRow) → row.project_id ≡ some p → (forget p row).project_id ≡ none
project_id-forget p row e =
    ap (λ q. (forget_by p q row).project_id) e
    ∙ ap (λ b. (if b then record row { project_id = none } else row).project_id) (same_self p)

find-forget :
    (id p : String) (rows : List OperationRow) (row : OperationRow)
    → find (has_id id) rows ≡ some row
    → find (has_id id) (map (forget p) rows) ≡ some (forget p row)
find-forget id p [] row e = cc
find-forget id p (x ∷ rows) row e =
    let same_id : has_id id (forget p x) ≡ has_id id x =
      ap (λ (i : String). same i id) (id-forget_by p x.project_id x) in
    let rest = find-forget id p rows row in ground arith

-- after the project is deleted, its operation has none
forgotten :
    (id p : String) (c c' : Conn)
    → delete_project p c ≡ (ok tt, c')
    → HasProject id (some p) c.tables
    → HasProject id none c'.tables
forgotten id p c c' e (row, found, is_p) = (
  forget p row,
  ap (λ (t : Tables). find (has_id id) t.operations) (delete_project-done p c c' e)
      ∙ find-forget id p c.tables.operations row found,
  project_id-forget p row is_p,
)

-- an operation without a project cannot be moved on
orphan :
    (id : String) (k : Call) (c : Conn) {c' : Conn}
    → HasProject id none c.tables
    → perform id k c ≡ (ok tt, c')
    → ⊥
orphan id k c (row, found, is_none) e =
    let done = perform-ok id k c e in let found' = done.is_row in let has = done.has_project in cc

-- Run returned, with an error
abbrev pub Fails : Db Ran → Conn → Type 0
Fails m c = (r : Ran) × ((m c).0 ≡ ok r) × (is_some r.error ≡ true)

module _ (provisioner : Provisioner) (clock : ℕ → ℕ) (message : Error → String) (project : Project)
    (queued : Operation) where
  Fails-give_up :
      (step : String) (e : Error) (c : Conn)
      → Fails (give_up provisioner clock message project Action.delete_data queued step e) c
  unfolding give_up ignore ◌>>=◌ pure
  Fails-give_up step e c = (record { operation = some queued; error = some e }, refl, refl)

  Fails-succeeded_with :
      (r : Result (Unit {0})) (c c' : Conn)
      → perform queued.id (Call.succeed (clock 4)) c ≡ (r, c')
      → HasProject queued.id none c.tables
      → Fails (succeeded_with provisioner clock message project Action.delete_data queued r) c'
  unfolding pure
  Fails-succeeded_with (err e) c c' p has =
      (record { operation = some queued; error = some e }, refl, refl)
  Fails-succeeded_with (ok tt) c c' p has =
      absurd (orphan queued.id (Call.succeed (clock 4)) c has p)

  Fails-finish :
      (c : Conn)
      → HasProject queued.id none c.tables
      → Fails (finish provisioner clock message project Action.delete_data queued) c
  unfolding finish attempt ◌>>=◌ perform
  Fails-finish c has =
      Fails-succeeded_with (Operation.succeed (clock 4) queued.id c).0 c
        (Operation.succeed (clock 4) queued.id c).1 refl has

  Fails-go_on :
      (r : Result (Unit {0})) (c c' : Conn)
      → delete_project project.id c ≡ (r, c')
      → HasProject queued.id (some project.id) c.tables
      → Fails
          (go_on provisioner clock message project Action.delete_data queued "DELETE_METADATA" r)
          c'
  Fails-go_on (err e) c c' p has = Fails-give_up "DELETE_METADATA" e c'
  Fails-go_on (ok tt) c c' p has = Fails-finish c' (forgotten queued.id project.id c c' p has)

  Fails-provisioned :
      (c : Conn)
      → HasProject queued.id (some project.id) c.tables
      → Fails
          (provisioned provisioner clock message project Action.delete_data queued
            Action.delete_data)
          c
  unfolding provisioned attempt ◌>>=◌
  Fails-provisioned c has =
      Fails-go_on (delete_project project.id c).0 c (delete_project project.id c).1 refl has

  Fails-answered :
      (r : Result (Unit {0})) (c : Conn)
      → HasProject queued.id (some project.id) c.tables
      → Fails (answered provisioner clock message project Action.delete_data queued r) c
  unfolding ◌>>=◌ ignore attempt pure perform
  Fails-answered (err e) c has = (
    record {
      operation =
          latest
            (Operation.get queued.id
              (Operation.fail (clock 2) queued.id "DELETE_DATA" (message e) c).1).0;
      error = some e;
    },
    refl,
    refl,
  )
  Fails-answered (ok tt) c has =
      Fails-provisioned (perform queued.id (Call.complete_step (clock 2) "DELETE_DATA" 90) c).1
        (keeps queued.id (Call.complete_step (clock 2) "DELETE_DATA" 90) (some project.id) c has)

  Fails-started_with :
      (r : Result (Unit {0})) (c : Conn)
      → HasProject queued.id (some project.id) c.tables
      → Fails (started_with provisioner clock message project Action.delete_data queued r) c
  unfolding ◌>>=◌ ignore pure perform
  Fails-started_with (err e) c has =
      (record { operation = some queued; error = some e }, refl, refl)
  Fails-started_with (ok tt) c has =
      Fails-answered
        (provisioner.lifecycle
          (request provisioner clock message project Action.delete_data queued))
        (perform queued.id (Call.start_step (clock 1) "DELETE_DATA" 25) c).1
        (keeps queued.id (Call.start_step (clock 1) "DELETE_DATA" 25) (some project.id) c has)

  -- If the row of the operation names the project, then deleting the server with its data always returns an
  -- error, whatever the provisioner answers and even if no statement fails in the driver.
  pub run-delete_data :
      (c : Conn)
      → HasProject queued.id (some project.id) c.tables
      → Fails (run provisioner clock message project Action.delete_data queued) c
  unfolding run attempt ◌>>=◌ perform
  run-delete_data c has =
      Fails-started_with (Operation.start (clock 0) queued.id c).0
        (Operation.start (clock 0) queued.id c).1
        (keeps queued.id (Call.start (clock 0)) (some project.id) c has)
