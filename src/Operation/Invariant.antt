-- ===== src/Operation/Invariant.antt =====
-- Invariants of the operations and of their logs under requests to apps/manager/internal/operation/service.go.
use supabase_installer.Prelude.{
  ℕ, String, same, same_iff, true, Option, none, some, List, [], ◌∷◌, ◌++◌, ◌≡◌, ◌⊎◌, refl, ◌∙◌,
  sym, ap, subst, arith, find, drop, if◌then◌else◌, Bool-cases, Option-cases, inl, inr, is_some,
}
use supabase_installer.Contracts.{
  Operation, OperationEvent, OperationStatus, queued, running, succeeded, failed, rolling_back,
  rolled_back, cancelled,
}
use supabase_installer.Errors.{ok}
use supabase_installer.Db.{Conn}
use supabase_installer.Db.Schema.{Tables, OperationRow}
use supabase_installer.Store.Operations.{OperationUpdate, has_id, set_columns}
use supabase_installer.Store.Operations.Laws.{
  written, queued_row, find-update, find-update-none, find-append, any-find,
}
use supabase_installer.Operation.{keep_start, events_after}
use supabase_installer.Operation.Calls.{Call}
use supabase_installer.Operation.Methods.{source, change, as_operation}
use supabase_installer.Operation.Events.{log, numbered, numbered-next, events_after-replay}
use supabase_installer.Operation.Traces.{Request, serve, Step, serve_induction}

abbrev EventsNumbered : String → Tables → Type 0
EventsNumbered id t = numbered id 0 t.events ≡ true

Step-numbered :
    (id : String) (t t' : Tables) → Step t t' → EventsNumbered id t → EventsNumbered id t'
Step-numbered id t t' (Step.idle e) h = subst (EventsNumbered id) (sym e) h
Step-numbered id t t' (Step.creates o type p _ _ _ e) h =
    subst (EventsNumbered id) (sym e) (numbered-next id o.id t.events _ refl refl h)
Step-numbered id t t' (Step.moves j k row project _ _ e) h =
    subst (EventsNumbered id) (sym e) (numbered-next id j t.events _ refl refl h)

-- After any requests, if the log of an operation was numbered before them, `EventsAfter n`, when it
-- succeeds, returns exactly the log without its first n events, in order, and the log is numbered.
pub serve-events_after :
    (id : String) (rs : List Request) (c : Conn) (n : ℕ) {es : List OperationEvent} {c' : Conn}
    → numbered id 0 c.tables.events ≡ true
    → events_after id n (serve rs c) ≡ (ok es, c')
    → (es ≡ drop n (log id (serve rs c).tables.events))
      × (numbered id 0 (serve rs c).tables.events ≡ true)
serve-events_after id rs c n h r =
    let kept = serve_induction (EventsNumbered id) (Step-numbered id) rs c h in
    ((events_after-replay id n (serve rs c) kept r).0, kept)

-- what a row of each status has been through
pub record Life (row : OperationRow) : Type 0 where
  pub unstarted : row.status ≡ queued → (row.started_at ≡ none) × (row.progress ≡ 0)
  pub begun :
      (row.status ≡ running)
        ⊎ (row.status ≡ succeeded)
        ⊎ (row.status ≡ failed)
        ⊎ (row.status ≡ rolling_back)
        ⊎ (row.status ≡ rolled_back)
      → is_some row.started_at ≡ true
  pub unfinished :
      (row.status ≡ queued) ⊎ (row.status ≡ running) ⊎ (row.status ≡ rolling_back)
      → row.finished_at ≡ none
  pub ended :
      (row.status ≡ succeeded) ⊎ (row.status ≡ failed) ⊎ (row.status ≡ rolled_back)
      → is_some row.finished_at ≡ true
  pub complete : row.status ≡ succeeded → row.progress ≡ 100
  pub reported :
      (row.status ≡ failed) ⊎ (row.status ≡ rolling_back) ⊎ (row.status ≡ rolled_back)
      → row.error_code ≡ "OPERATION_FAILED"
  pub clean :
      (row.status ≡ queued) ⊎ (row.status ≡ running) ⊎ (row.status ≡ succeeded)
      → (row.error_code ≡ "") × (row.error_message ≡ "")

abbrev moved : Call → OperationRow → String → OperationRow
moved call row project =
    let o = as_operation row project in set_columns (keep_start o (change call o)) row

moved-Life :
    (call : Call) (row : OperationRow) (project : String)
    → row.status ≡ source call
    → Life row
    → Life (moved call row project)
moved-Life (Call.start now) row project from h = ground arith
moved-Life (Call.start_step now step progress) row project from h = ground arith
moved-Life (Call.complete_step now step progress) row project from h = ground arith
moved-Life (Call.fail now step cause) row project from h = ground arith
moved-Life (Call.begin_rollback now) row project from h = ground arith
moved-Life (Call.complete_rollback now) row project from h = ground arith
moved-Life (Call.succeed now) row project from h = ground arith

-- every row of the table has the life of its status
abbrev pub IsSound : Tables → Type 0
IsSound t = (id : String) (row : OperationRow) → find (has_id id) t.operations ≡ some row → Life row

moved_or_kept :
    (id j : String) (u : OperationUpdate) (rows : List OperationRow) (row x r : OperationRow)
    → find (has_id id) rows ≡ some row
    → find (has_id j) rows ≡ some x
    → ◌≡◌ {A = Option OperationRow} (some (if same id j then set_columns u x else x)) (some r)
    → (id ≡ j) × (r ≡ set_columns u row) ⊎ (find (has_id j) rows ≡ some r)
moved_or_kept id j u rows row x r f g e = elim (Bool-cases (same id j)) [
  | inl s ↦
      let same_id = (same_iff id j).0 s in
      let one : x ≡ row = cc (f, g, ap (λ (k : String). find (has_id k) rows) same_id) in
      let k = rw s at e in inl (same_id, cc (one, k))
  | inr d ↦ let k = rw d at e in inr (g ∙ k)
]

found_moved :
    (id j : String) (call : Call) (row : OperationRow) (project : String) (t : Tables)
    (r : OperationRow)
    → find (has_id id) t.operations ≡ some row
    → find
        (has_id j)
        (written id (let o = as_operation row project in keep_start o (change call o)) t).operations
      ≡ some r
    → (id ≡ j) × (r ≡ moved call row project) ⊎ (find (has_id j) t.operations ≡ some r)
found_moved id j call row project t r found h =
    let u = (let o = as_operation row project in keep_start o (change call o)) in
    elim (Option-cases (find (has_id j) t.operations)) [
      | inl e ↦ absurd (let k = sym (find-update-none id j u t.operations e) ∙ h in cc k)
      | inr p ↦
          moved_or_kept id j u t.operations row p.0 r found p.1
            (sym (find-update id j u t.operations p.0 p.1) ∙ h)
    ]

queued_row-Life : (o : Operation) → o.status ≡ queued → o.progress ≡ 0 → Life (queued_row o)
queued_row-Life o q z = ground arith

found_created :
    (id : String) (rows : List OperationRow) (x r : OperationRow)
    → find (has_id id) (rows ++ x ∷ []) ≡ some r
    → (find (has_id id) rows ≡ some r) ⊎ ((r ≡ x) × (same x.id id ≡ true))
found_created id rows x r h = ground (arith, find-append id rows x)

created-Life :
    (o : Operation)
    → o.status ≡ queued
    → o.progress ≡ 0
    → (id : String) (rows : List OperationRow) (row : OperationRow)
    → ((j : String) (r : OperationRow) → find (has_id j) rows ≡ some r → Life r)
    → find (has_id id) (rows ++ queued_row o ∷ []) ≡ some row
    → Life row
created-Life o q z id rows row old found = elim (found_created id rows (queued_row o) row found) [
  | inl before ↦ old id row before
  | inr fresh ↦ rw fresh.0 (queued_row-Life o q z)
]

Step-IsSound : (t t' : Tables) → Step t t' → IsSound t → IsSound t'
Step-IsSound t t' (Step.idle e) h = subst IsSound (sym e) h
Step-IsSound t t' (Step.creates o type p q z free e) h =
    subst IsSound (sym e) (λ id row found. created-Life o q z id t.operations row h found)
Step-IsSound t t' (Step.moves j k row project found from e) h = subst IsSound (sym e) (λ id r seen.
    elim (found_moved j id k row project t r found seen) [
      | inl p ↦ rw p.1 (moved-Life k row project from (h j row found))
      | inr old ↦ h id r old
    ])

-- From a table in which every row has the life of its status, every row still has it after any
-- requests, valid or not and whichever statements fail in the driver.
pub serve-IsSound : (rs : List Request) (c : Conn) → IsSound c.tables → IsSound (serve rs c).tables
serve-IsSound = serve_induction IsSound Step-IsSound

-- no call starts from these statuses
abbrev pub IsSettled : OperationStatus → Type 0
IsSettled s = (s ≡ succeeded) ⊎ (s ≡ rolled_back) ⊎ (s ≡ cancelled)

source-IsSettled : (call : Call) → IsSettled (source call) → ⊥
source-IsSettled (Call.start _) h = ground arith
source-IsSettled (Call.start_step _ _ _) h = ground arith
source-IsSettled (Call.complete_step _ _ _) h = ground arith
source-IsSettled (Call.fail _ _ _) h = ground arith
source-IsSettled (Call.begin_rollback _) h = ground arith
source-IsSettled (Call.complete_rollback _) h = ground arith
source-IsSettled (Call.succeed _) h = ground arith

abbrev HasRow : String → OperationRow → Tables → Type 0
HasRow id row t = find (has_id id) t.operations ≡ some row

HasRow-creates :
    (id : String) (row x : OperationRow) (rows : List OperationRow)
    → find (has_id id) rows ≡ some row
    → find (has_id id) (rows ++ x ∷ []) ≡ some row
HasRow-creates id row x rows h = ground (arith, find-append id rows x, any-find id rows row h)

Step-settled :
    (id : String) (row : OperationRow)
    → IsSettled row.status
    → (t t' : Tables) → Step t t'
    → HasRow id row t
    → HasRow id row t'
Step-settled id row s t t' (Step.idle e) h = subst (HasRow id row) (sym e) h
Step-settled id row s t t' (Step.creates o type p q z free e) h =
    subst (HasRow id row) (sym e) (HasRow-creates id row (queued_row o) t.operations h)
Step-settled id row s t t' (Step.moves j k r project found from e) h =
    let u = (let o = as_operation r project in keep_start o (change k o)) in
    subst (HasRow id row) (sym e) (elim (Bool-cases (same j id)) [
      | inl one ↦
          let one_row : r ≡ row =
            cc (
              found,
              h,
              ap (λ (x : String). find (has_id x) t.operations) ((same_iff j id).0 one),
            ) in
          absurd (source-IsSettled k (subst IsSettled (cc (one_row, from)) s))
      | inr other ↦ rw (find-update j id u t.operations row h, other) refl
    ])

-- An operation that has succeeded, has been rolled back or is cancelled keeps its row, whatever is
-- requested afterwards.
pub serve_settled :
    (id : String) (row : OperationRow) (rs : List Request) (c : Conn)
    → IsSettled row.status
    → find (has_id id) c.tables.operations ≡ some row
    → find (has_id id) (serve rs c).tables.operations ≡ some row
serve_settled id row rs c s h = serve_induction (HasRow id row) (Step-settled id row s) rs c h

-- the statuses of an operation that has failed
abbrev pub IsDoomed : OperationStatus → Type 0
IsDoomed s = (s ≡ failed) ⊎ (s ≡ rolling_back) ⊎ (s ≡ rolled_back)

-- the operation has failed with this message
abbrev pub HasFailed : String → String → Tables → Type 0
HasFailed id message t =
    (row : OperationRow) × (find (has_id id) t.operations ≡ some row)
    × IsDoomed row.status
    × (row.error_message ≡ message)

moved-IsDoomed :
    (call : Call) (row : OperationRow) (project : String)
    → row.status ≡ source call
    → IsDoomed row.status
    → IsDoomed (moved call row project).status
      × ((moved call row project).error_message ≡ row.error_message)
moved-IsDoomed (Call.start now) row project from h = ground arith
moved-IsDoomed (Call.start_step now step progress) row project from h = ground arith
moved-IsDoomed (Call.complete_step now step progress) row project from h = ground arith
moved-IsDoomed (Call.fail now step cause) row project from h = ground arith
moved-IsDoomed (Call.begin_rollback now) row project from h = ground arith
moved-IsDoomed (Call.complete_rollback now) row project from h = ground arith
moved-IsDoomed (Call.succeed now) row project from h = ground arith

Step-failed :
    (id message : String) (t t' : Tables)
    → Step t t'
    → HasFailed id message t
    → HasFailed id message t'
Step-failed id message t t' (Step.idle e) h = subst (HasFailed id message) (sym e) h
Step-failed id message t t' (Step.creates o type p q z free e) (row, found, doomed, said) =
    subst (HasFailed id message) (sym e)
      (row, HasRow-creates id row (queued_row o) t.operations found, doomed, said)
Step-failed id message t t' (Step.moves j k r project here from e) (row, found, doomed, said) =
    let u = (let o = as_operation r project in keep_start o (change k o)) in
    subst (HasFailed id message) (sym e) (elim (Bool-cases (same j id)) [
      | inl one ↦
          let one_row : row ≡ r = cc (
            here,
            found,
            ap (λ (x : String). find (has_id x) t.operations) ((same_iff j id).0 one),
          ) in
          let next =
            moved-IsDoomed k r project from
              (subst (λ (x : OperationRow). IsDoomed x.status) one_row doomed) in
          (
            moved k r project,
            find-update j id u t.operations row found ∙ rw (one, one_row) refl,
            next.0,
            next.1 ∙ rw (← one_row) said,
          )
      | inr other ↦ (row, rw (find-update j id u t.operations row found, other) refl, doomed, said)
    ])

-- An operation that has failed stays failed, rolling back or rolled back, with the message of its
-- failure, whatever is requested afterwards: it never succeeds.
pub serve_failed :
    (id message : String) (rs : List Request) (c : Conn)
    → HasFailed id message c.tables
    → HasFailed id message (serve rs c).tables
serve_failed id message = serve_induction (HasFailed id message) (Step-failed id message)
