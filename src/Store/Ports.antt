-- ===== src/Store/Ports.antt =====
-- apps/manager/internal/store/ports.go: the rows of `port_allocations`, and the pending ports in
-- `configuration_reservations`. A Go map that is ranged over is the list of its entries, in the
-- order of the range.
pub mod Laws
pub mod Unique
pub mod Stored
use supabase_installer.Prelude.{
  ℕ, String, Bool, true, false, ◌&&◌, ◌||◌, not, Option, none, some, List, [], ◌∷◌, ◌++◌, ◌==◌,
  same, any, find, select, delete, is_some, if◌then◌else◌,
}
use supabase_installer.Contracts.{Project}
use supabase_installer.Errors.{Error, Result, ok, err, not_found, driver, port_conflict}
use supabase_installer.Db.{
  Conn, Db, pure, raise, lift, statement, query, attempt, in_tx, ◌>>=◌, ◌>>◌,
}
use supabase_installer.Db.Schema.{Tables, AllocationRow, ReservationRow}

-- WHERE project_id = ? AND kind = ?
abbrev pub has_kind : String → String → AllocationRow → Bool
has_kind project kind row = same row.project_id project && same row.kind kind

-- WHERE port = ?
abbrev pub has_port : ℕ → AllocationRow → Bool
has_port port row = row.port == port

abbrev pub is_pending : ℕ → ReservationRow → Bool
is_pending port row = row.port == port

abbrev port_of : Option AllocationRow → Result ℕ
port_of none = err not_found
port_of (some row) = ok row.port

unfoldable pub reserved_port : String → String → Db ℕ
reserved_port project kind = do
  row ← query (λ t. find (has_kind project kind) t.allocations)
  lift (port_of row)

unfoldable pub port_in_use : ℕ → Db Bool
port_in_use port =
    query λ t. any (has_port port) t.allocations || any (is_pending port) t.reservations

-- INSERT OR IGNORE: a taken port, or a second port for the kind, is ignored; a missing project is a
-- broken foreign key. The result is the number of rows.
unfoldable pub insert_allocation : String → String → ℕ → ℕ → Db ℕ
insert_allocation project kind port now = statement λ t.
    if any (has_port port) t.allocations || any (has_kind project kind) t.allocations
    then ok (0, t)
    else if any (λ (p : Project). same p.id project) t.projects
    then ok (
      1,
      record t {
        allocations =
            t.allocations
            ++ record { port = port; project_id = project; kind = kind; created_at = now } ∷ [];
      },
    )
    else err driver

-- the body of the loop of `TryReservePorts`
unfoldable pub claim : String → ℕ → String → ℕ → Db (Unit {0})
claim project now kind port = do
  pending ← query (λ t. find (is_pending port) t.reservations)
  if is_some pending then raise port_conflict else do
    count ← insert_allocation project kind port now
    if count == 1 then pure tt else raise port_conflict

unfoldable pub claim_all : String → ℕ → List (String × ℕ) → Db (Unit {0})
claim_all project now [] = pure tt
claim_all project now ((kind, port) ∷ rest) = do
  claim project now kind port
  claim_all project now rest

-- errors.Is(err, conflict) is no error: the ports were not reserved
abbrev reserved : Result (Unit {0}) → Result Bool
reserved (ok _) = ok true
reserved (err port_conflict) = ok false
reserved (err e) = err e

unfoldable pub try_reserve_ports : String → List (String × ℕ) → ℕ → Db Bool
try_reserve_ports project reservations now = do
  result ← attempt (in_tx (claim_all project now reservations))
  lift (reserved result)

unfoldable pub release_project_ports : String → Db (Unit {0})
release_project_ports project = statement λ t.
    ok (tt, record t { allocations = delete (λ row. same row.project_id project) t.allocations })

unfoldable pub release_port : String → String → Db (Unit {0})
release_port project kind =
    statement λ t. ok (tt, record t { allocations = delete (has_kind project kind) t.allocations })
