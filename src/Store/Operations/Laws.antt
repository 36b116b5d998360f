-- ===== src/Store/Operations/Laws.antt =====
-- What a successful or a failed query or transaction of store/operations.go has done.
use supabase_installer.Prelude.{
  ℕ, ◌+◌, String, true, false, Option, none, some, List, [], ◌∷◌, ◌++◌, ◌≡◌, ◌≢◌, refl, arith, ◌==◌,
  same, same_iff, any, find, update, affected, if◌then◌else◌, Bool-cases, inl, inr, ap, sym, ◌∙◌,
}
use supabase_installer.Contracts.{Operation, OperationEvent, Payload}
use supabase_installer.Errors.{ok, not_found}
use supabase_installer.Db.{Conn, Db, raise, lift, ◌>>=◌, query}
use supabase_installer.Db.Laws.{in_tx-ok, statement-ok, query-ok, >>=-eq-ok}
use supabase_installer.Db.Reads.{Reads, Atomic, Reads-bind, Reads-query, Reads-lift, Atomic-in_tx}
use supabase_installer.Db.Schema.{Tables, OperationRow}
use supabase_installer.Store.Operations.{
  OperationUpdate, has_id, set_columns, max_sequence, or_empty_object, append_operation_event,
  get_operation, insert_operation, create_operation, scan, update_row, update_operation,
}

-- the event that a transaction appends
abbrev pub new_event : String → OperationUpdate → List OperationEvent → OperationEvent
new_event id u events = record {
  operation_id = id;
  sequence = max_sequence id events + 1;
  type = u.event_type;
  payload = or_empty_object u.event_payload;
  created_at = u.event_time;
}

abbrev appended : String → String → Payload → ℕ → Tables → Tables
appended id type p at t = record t {
  events =
      t.events
      ++ record {
        operation_id = id;
        sequence = max_sequence id t.events + 1;
        type = type;
        payload = or_empty_object p;
        created_at = at;
      }
        ∷ [];
}

abbrev updated : String → OperationUpdate → Tables → Tables
updated id u t = record t { operations = update (has_id id) (set_columns u) t.operations }

-- the tables after `update_operation`
abbrev pub written : String → OperationUpdate → Tables → Tables
written id u t = record t {
  operations = update (has_id id) (set_columns u) t.operations;
  events = t.events ++ new_event id u t.events ∷ [];
}

-- an update keeps every id
pub find-update :
    (id j : String) (u : OperationUpdate) (rows : List OperationRow) (r : OperationRow)
    → find (has_id j) rows ≡ some r
    → find (has_id j) (update (has_id id) (set_columns u) rows)
      ≡ some (if same id j then set_columns u r else r)
find-update id j u [] r h = cc
find-update id j u (x ∷ xs) r h =
    ground (arith, same_iff x.id id, same_iff x.id j, same_iff id j, find-update id j u xs r)

pub find-update-none :
    (id j : String) (u : OperationUpdate) (rows : List OperationRow)
    → find (has_id j) rows ≡ none
    → find (has_id j) (update (has_id id) (set_columns u) rows) ≡ none
find-update-none id j u [] h = refl
find-update-none id j u (x ∷ xs) h = ground (arith, find-update-none id j u xs)

pub any-find :
    (id : String) (rows : List OperationRow) (r : OperationRow)
    → find (has_id id) rows ≡ some r
    → any (has_id id) rows ≡ true
any-find id [] r h = cc
any-find id (x ∷ xs) r h = ground (arith, any-find id xs r)

pub any-update :
    (id j : String) (u : OperationUpdate) (rows : List OperationRow)
    → any (has_id j) (update (has_id id) (set_columns u) rows) ≡ any (has_id j) rows
any-update id j u [] = refl
any-update id j u (x ∷ xs) = ground (arith, any-update id j u xs)

pub affected-find :
    (id : String) (rows : List OperationRow) (r : OperationRow)
    → find (has_id id) rows ≡ some r
    → affected (has_id id) rows ≢ 0
affected-find id [] r h = cc
affected-find id (x ∷ xs) r h = ground (arith, affected-find id xs r)

append_event-ok :
    (id type : String) (p : Payload) (at : ℕ) (c : Conn) {c' : Conn}
    → append_operation_event id type p at c ≡ (ok tt, c')
    → (any (has_id id) c.tables.operations ≡ true) × (c'.tables ≡ appended id type p at c.tables)
unfolding append_operation_event
append_event-ok id type p at c h = let e = statement-ok _ c h in (ground arith, ground arith)

abbrev after_count : String → OperationUpdate → ℕ → Db (Unit {0})
after_count id u count =
    if count == 0
    then raise not_found
    else append_operation_event id u.event_type u.event_payload u.event_time

after_count-ok :
    (id : String) (u : OperationUpdate) (count : ℕ) (c : Conn) {c' : Conn}
    → after_count id u count c ≡ (ok tt, c')
    → c'.tables ≡ appended id u.event_type u.event_payload u.event_time c.tables
unfolding raise
after_count-ok id u count c h = elim (Bool-cases (count == 0)) [
  | inl e ↦ absurd (let k = rw e at h in cc k)
  | inr e ↦ (append_event-ok id u.event_type u.event_payload u.event_time c (rw e at h)).1
]

update_row-ok :
    (id : String) (u : OperationUpdate) (c : Conn) {n : ℕ} {c' : Conn}
    → update_row id u c ≡ (ok n, c')
    → c'.tables ≡ updated id u c.tables
unfolding update_row
update_row-ok id u c h = let e = statement-ok _ c h in cc e

-- an update that succeeds has written the row and one event
pub update_operation-ok :
    (id : String) (u : OperationUpdate) (c : Conn) {c' : Conn}
    → update_operation id u c ≡ (ok tt, c')
    → c'.tables ≡ written id u c.tables
unfolding update_operation
update_operation-ok id u c h =
    let ran = in_tx-ok (update_row id u >>= after_count id u) c h in
    let steps = >>=-eq-ok (update_row id u) (after_count id u) ran.start ran.body in
    ran.to
    ∙ after_count-ok id u steps.value steps.middle steps.second
    ∙ ap (appended id u.event_type u.event_payload u.event_time)
        (update_row-ok id u ran.start steps.first ∙ ap (updated id u) ran.from)

-- a read that succeeds has found the row, with a project, and changed nothing
pub record Read (id : String) (c : Conn) (operation : Operation) (c' : Conn) : Type 0 where
  pub row : OperationRow
  pub is_row : find (has_id id) c.tables.operations ≡ some row
  pub is_operation : scan (some row) ≡ ok operation
  pub same_tables : c'.tables ≡ c.tables

Read-of :
    (id : String) (c : Conn) (row : Option OperationRow) {operation : Operation} {c' : Conn}
    → find (has_id id) c.tables.operations ≡ row
    → scan row ≡ ok operation
    → c'.tables ≡ c.tables
    → Read id c operation c'
Read-of id c none p q e = cc
Read-of id c (some row) p q e = record { row = row; is_row = p; is_operation = q; same_tables = e }

pub get_operation-ok :
    (id : String) (c : Conn) {operation : Operation} {c' : Conn}
    → get_operation id c ≡ (ok operation, c')
    → Read id c operation c'
unfolding get_operation
get_operation-ok id c h =
    let steps =
      >>=-eq-ok (query (λ t. find (has_id id) t.operations)) (λ row. lift (scan row)) c h in
    let seen = query-ok (λ t. find (has_id id) t.operations) c steps.first in
    Read-of id c steps.value (sym seen.0) (cc (steps.second)) (cc (steps.second, seen.1))

pub get_operation-Reads : (id : String) → Reads (get_operation id)
unfolding get_operation
get_operation-Reads id =
    Reads-bind (query (λ t. find (has_id id) t.operations)) (λ row. lift (scan row))
      (Reads-query (λ t. find (has_id id) t.operations)) (λ row. Reads-lift (scan row))

pub update_operation-Atomic : (id : String) (u : OperationUpdate) → Atomic (update_operation id u)
unfolding update_operation
update_operation-Atomic id u = Atomic-in_tx (update_row id u >>= after_count id u)

abbrev pub queued_row : Operation → OperationRow
queued_row operation = record {
  id = operation.id;
  project_id = some operation.project_id;
  type = operation.type;
  status = operation.status;
  current_step = "";
  progress = operation.progress;
  error_code = "";
  error_message = "";
  started_at = none;
  finished_at = none;
  created_at = operation.created_at;
}

abbrev inserted : Operation → Tables → Tables
inserted operation t = record t { operations = t.operations ++ queued_row operation ∷ [] }

-- the tables after `create_operation`
abbrev pub created : Operation → String → Payload → Tables → Tables
created operation type p t = record t {
  operations = t.operations ++ queued_row operation ∷ [];
  events =
      t.events
      ++ record {
        operation_id = operation.id;
        sequence = max_sequence operation.id t.events + 1;
        type = type;
        payload = or_empty_object p;
        created_at = operation.created_at;
      }
        ∷ [];
}

insert_operation-ok :
    (operation : Operation) (c : Conn) {c' : Conn}
    → insert_operation operation c ≡ (ok tt, c')
    → (c'.tables ≡ inserted operation c.tables)
      × (any (has_id operation.id) c.tables.operations ≡ false)
unfolding insert_operation
insert_operation-ok operation c h = let e = statement-ok _ c h in (ground arith, ground arith)

-- a creation that succeeds has found the id free, and has written the row and its first event
pub create_operation-ok :
    (operation : Operation) (type : String) (p : Payload) (c : Conn) {c' : Conn}
    → create_operation operation type p c ≡ (ok tt, c')
    → (c'.tables ≡ created operation type p c.tables)
      × (any (has_id operation.id) c.tables.operations ≡ false)
unfolding create_operation
create_operation-ok operation type p c h =
    let at = operation.created_at in
    let last = λ (u : Unit {0}). append_operation_event operation.id type p at in
    let ran = in_tx-ok (insert_operation operation >>= last) c h in
    let steps = >>=-eq-ok (insert_operation operation) last ran.start ran.body in
    let (row, free) = insert_operation-ok operation ran.start steps.first in
    (
      ran.to
          ∙ (append_event-ok operation.id type p at steps.middle steps.second).1
          ∙ ap (appended operation.id type p at) (row ∙ ap (inserted operation) ran.from),
      sym (ap (λ (t : Tables). any (has_id operation.id) t.operations) ran.from) ∙ free,
    )

pub create_operation-Atomic :
    (operation : Operation) (type : String) (p : Payload)
    → Atomic (create_operation operation type p)
unfolding create_operation
create_operation-Atomic operation type p = Atomic-in_tx (
    insert_operation operation >>= λ u.
    append_operation_event operation.id type p operation.created_at)

pub find-append :
    (j : String) (rows : List OperationRow) (x : OperationRow)
    → find (has_id j) (rows ++ x ∷ [])
      ≡ (if any (has_id j) rows then find (has_id j) rows else if has_id j x then some x else none)
find-append j [] x = refl
find-append j (r ∷ rows) x = ground (arith, find-append j rows x)
