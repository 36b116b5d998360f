-- ===== src/Operation/Traces.antt =====
-- Requests to the service, one after another: a request that fails ends only itself. The steps that
-- they make on the tables are a relation, over which invariants are proved by induction.
use supabase_installer.Prelude.{
  ℕ, String, false, some, List, [], ◌∷◌, ◌≡◌, refl, ◌∙◌, sym, ap, arith, any, find,
}
use supabase_installer.Contracts.{Operation, OperationType, queued, Payload, raw}
use supabase_installer.Errors.{Result, ok, err}
use supabase_installer.Db.{Conn, Db, pure, lift, ◌>>=◌, ◌>>◌}
use supabase_installer.Db.Laws.{>>=-eq-ok, pure-ok}
use supabase_installer.Db.Reads.{Atomic, Atomic-value, Atomic-bind, Reads-lift}
use supabase_installer.Db.Schema.{Tables, OperationRow}
use supabase_installer.Store.Operations.{has_id, create_operation}
use supabase_installer.Store.Operations.Laws.{
  written, created, create_operation-ok, create_operation-Atomic,
}
use supabase_installer.Operation
use supabase_installer.Operation.{new_queued_operation, keep_start}
use supabase_installer.Operation.Calls.{Call}
use supabase_installer.Operation.Methods.{
  perform, source, change, as_operation, perform-ok, perform-Atomic,
}

pub data Request : Type 0 where
  create : String → ℕ → String → OperationType → Request
  call : String → Call → Request

unfoldable pub answer : Request → Db (Unit {0})
answer (Request.create id now project typ) = do Operation.create id now project typ; pure tt
answer (Request.call id c) = perform id c

unfoldable pub serve : List Request → Conn → Conn
unfolding answer
serve [] c = c
serve (r ∷ rs) c = serve rs (answer r c).1

pub data Step (t t' : Tables) : Type 0 where
  idle : t' ≡ t → Step t t'
  creates :
      (o : Operation) (type : String) (p : Payload)
      → o.status ≡ queued
      → o.progress ≡ 0
      → any (has_id o.id) t.operations ≡ false
      → t' ≡ created o type p t
      → Step t t'
  moves :
      (id : String) (c : Call) (row : OperationRow) (project : String)
      → find (has_id id) t.operations ≡ some row
      → row.status ≡ source c
      → t' ≡ written id (let o = as_operation row project in keep_start o (change c o)) t
      → Step t t'

Step-of_perform :
    (id : String) (k : Call) (c c' : Conn) (r : Result (Unit {0}))
    → perform id k c ≡ (r, c')
    → Step c.tables c'.tables
Step-of_perform id k c c' (ok u) h =
    let done = perform-ok id k c h in
    Step.moves id k done.row done.project done.is_row done.from done.effect
Step-of_perform id k c c' (err e) h = Step.idle ((perform-Atomic id k).undoes c h)

abbrev queued_payload : Payload
queued_payload = raw "{\"status\":\"QUEUED\"}"

abbrev result_tables : Result Operation × Conn → Tables
result_tables (r, c) = c.tables

create_of : Operation → Db Operation
create_of o = create_operation o "OPERATION_QUEUED" queued_payload >>= λ _. pure o

answer_create : String → ℕ → String → OperationType → Db (Unit {0})
unfolding create_of
answer_create id now project typ =
    (lift (new_queued_operation id now project typ) >>= λ o. create_of o) >>= λ _. pure tt

new_queued-ok :
    (id : String) (now : ℕ) (project : String) (typ : OperationType) (o : Operation)
    → new_queued_operation id now project typ ≡ ok o
    → (o.status ≡ queued) × (o.progress ≡ 0)
unfolding new_queued_operation
new_queued-ok id now project typ o h = ground arith

answer_create-Atomic :
    (id : String) (now : ℕ) (project : String) (typ : OperationType)
    → Atomic (answer_create id now project typ)
unfolding answer_create
answer_create-Atomic id now project typ =
    let m = lift (new_queued_operation id now project typ) in
    Atomic-value (m >>= λ o. create_of o) (λ _. tt)
      (Atomic-bind m (λ o. create_of o) (Reads-lift (new_queued_operation id now project typ))
        (λ o.
          Atomic-value (create_operation o "OPERATION_QUEUED" queued_payload) (λ _. o)
            (create_operation-Atomic o "OPERATION_QUEUED" queued_payload)))

Step-of_create :
    (id : String) (now : ℕ) (project : String) (typ : OperationType) (c c' : Conn)
    (r : Result (Unit {0}))
    → answer_create id now project typ c ≡ (r, c')
    → Step c.tables c'.tables
unfolding answer_create create_of
Step-of_create id now project typ c c' (err e) h =
    Step.idle ((answer_create-Atomic id now project typ).undoes c h)
Step-of_create id now project typ c c' (ok u) h =
    let fresh = lift (new_queued_operation id now project typ) in
    let outer = >>=-eq-ok (fresh >>= λ o. create_of o) (λ _. pure tt) c h in
    let inner = >>=-eq-ok fresh (λ o. create_of o) c outer.first in
    let o = inner.value in
    let make = create_operation o "OPERATION_QUEUED" queued_payload in
    let last = >>=-eq-ok make (λ _. pure o) inner.middle inner.second in
    let made = create_operation-ok o "OPERATION_QUEUED" queued_payload inner.middle last.first in
    let back : inner.middle.tables ≡ c.tables = sym (ap result_tables inner.first) in
    let zero =
      new_queued-ok id now project typ o (ap (λ (x : Result Operation × Conn). x.0) inner.first) in
    Step.creates o "OPERATION_QUEUED" queued_payload zero.0 zero.1
      (sym (ap (λ (t : Tables). any (has_id o.id) t.operations) back) ∙ made.1)
      (ap (λ (x : Conn). x.tables)
          ((pure-ok tt outer.middle outer.second).1 ∙ (pure-ok o last.middle last.second).1)
        ∙ made.0
        ∙ ap (created o "OPERATION_QUEUED" queued_payload) back)

-- every request makes a step
pub answer-Step : (r : Request) (c : Conn) → Step c.tables (answer r c).1.tables
unfolding answer answer_create Operation.create
answer-Step (Request.call id k) c =
    Step-of_perform id k c (perform id k c).1 (perform id k c).0 refl
answer-Step (Request.create id now project typ) c =
    let m = answer (Request.create id now project typ) in
    Step-of_create id now project typ c (m c).1 (m c).0 refl

-- what every step keeps, every list of requests keeps
pub serve_induction :
    (P : Tables → Type 0)
    → ((t t' : Tables) → Step t t' → P t → P t')
    → (rs : List Request) (c : Conn) → P c.tables
    → P (serve rs c).tables
unfolding serve
serve_induction P keep [] c h = h
serve_induction P keep (r ∷ rs) c h =
    serve_induction P keep rs (answer r c).1
      (keep c.tables (answer r c).1.tables (answer-Step r c) h)
